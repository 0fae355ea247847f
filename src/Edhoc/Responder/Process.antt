-- ===== src/Edhoc/Responder/Process.antt =====
-- What the responder computes between the messages: modules/edhoc/src/responder.c.
use uoscore_uedhoc.Base.{
  Bool, List, [], bit_xor, false, fault, if◌then◌else◌, leb, length, ltb, not, ok, ℕ, ◌%◌, ◌+◌, ◌-◌,
  ◌/◌, ◌==◌, ◌>>=◌, ◌^◌, ◌||◌, ◌∷◌,
}
use uoscore_uedhoc.Context.Init.{own}
use uoscore_uedhoc.Edhoc.{
  AeadAlg, Authentication, EdhocResponderContext, EdhocResult, OtherPartyCred, Suite,
  a_2m_default_size, authentication_type_get, ciphertext_default_size, contents, get_suite,
  id_cred_default_size, msg_default_size, sgn_or_mac_default_size,
}
use uoscore_uedhoc.Edhoc.CryptoWrapper.{aead_decrypt}
use uoscore_uedhoc.Edhoc.Decoder.{word_at}
use uoscore_uedhoc.Edhoc.Host.{
  Host, fresh, id_cred_local, prefix, split_sign_or_mac, static_dh_i_local, static_dh_r_local,
  store,
}
use uoscore_uedhoc.Edhoc.Keys.{narrow, okm_calc, prk_derive}
use uoscore_uedhoc.Edhoc.Mac.{SignatureOrMac, mac_len_of, signature_or_mac_msg_create}
use uoscore_uedhoc.Edhoc.Messages.{Msg1, msg2_encode}
use uoscore_uedhoc.Edhoc.Plaintext.{SplitPlaintext, plaintext_encode, plaintext_split}
use uoscore_uedhoc.Edhoc.RetrieveCred.{retrieve_cred}
use uoscore_uedhoc.Edhoc.Steps.{
  derive_keys_3, derive_prk_2e, label_iv_2m, label_iv_3m, label_k_2m, label_k_3m, label_keystream_2,
  sign_or_mac_of,
}
use uoscore_uedhoc.Edhoc.Transcript.{th2_calculate, th3_calculate}
use uoscore_uedhoc.Memory.{ByteArray, Bytes}

-- What message 1 leaves to the later parts. `corr` is the variable after the test on it, which assigns to it.
pub record Accepted : Type 0 where
  pub message : Msg1
  pub suite : Suite
  pub authentication : Authentication
  pub corr : ℕ

-- `if ((corr == 1) || (corr = 3))`
unfoldable pub assigned_corr : ℕ → ℕ
assigned_corr corr = if corr == 1 then 1 else 3

-- The C_I that goes into TH_2: left out if the test holds, whose second operand is the value assigned.
unfoldable pub c_i_in_th2 : ℕ → Bytes → Bytes
unfolding assigned_corr
c_i_in_th2 corr c_i = if corr == 1 || not (assigned_corr corr == 0) then [] else c_i

abbrev nonzero_bool : Bytes → Bool
nonzero_bool [] = false
nonzero_bool (b ∷ bs) = not (b == 0)

-- The two variables before `authentication_type_get`.
abbrev unset_authentication : Host → Authentication
unset_authentication h = record {
  static_dh_i = nonzero_bool (fresh h static_dh_i_local 1);
  static_dh_r = nonzero_bool (fresh h static_dh_r_local 1);
}

-- The method and CORR are packed into METHOD_CORR.
unfoldable pub accept_1 : Host → Msg1 → EdhocResult Accepted
accept_1 h m = do
  first ← prefix 1 m.suites_i
  suite ← get_suite (word_at first)
  ok (record {
    message = m;
    suite = suite;
    authentication = authentication_type_get (m.method_corr / 4) (unset_authentication h);
    corr = assigned_corr (m.method_corr % 4);
  })

pub record Message2 : Type 0 where
  pub msg2 : Bytes
  pub th2 : Bytes
  pub prk_3e2m : Bytes
  pub ciphertext_2 : Bytes

-- The ciphertext is written to an array of 256 bytes without a test.
abbrev pub in_ciphertext_array : Bytes → EdhocResult Bytes
in_ciphertext_array bs = if leb (length bs) ciphertext_default_size then ok bs else fault

-- The loop `ciphertext_2[i] = P_2e[i] ^ KEYSTREAM_2[i]`.
unfoldable pub ciphertext_2_loop : Bytes → Bytes → EdhocResult Bytes
ciphertext_2_loop [] ks = ok []
ciphertext_2_loop (p ∷ ps) [] = fault
ciphertext_2_loop (p ∷ ps) (k ∷ ks) = do rest ← ciphertext_2_loop ps ks; ok (bit_xor p k ∷ rest)

-- The key stream of the length of the plaintext, and the ciphertext.
unfoldable pub encrypt_plaintext_2 : Host → Suite → Bytes → Bytes → Bytes → EdhocResult Bytes
unfolding ciphertext_2_loop
encrypt_plaintext_2 h suite prk_2e th2 p_2e = do
  keystream_2 ←
      okm_calc h suite.edhoc_aead suite.edhoc_hash label_keystream_2 prk_2e th2 (length p_2e)
  ciphertext_2_loop p_2e keystream_2

unfoldable pub make_message_2 :
    Host → EdhocResponderContext → Bytes → Accepted → EdhocResult Message2
make_message_2 h c msg1 a = do
  g_y ← contents c.g_y
  c_r ← contents c.c_r
  c_i ← prefix a.message.c_i_len a.message.c_i
  th2 ← th2_calculate h a.suite.edhoc_hash msg1 (c_i_in_th2 (a.message.method_corr % 4) c_i) g_y c_r
  y ← contents c.y
  g_x ← prefix a.message.g_x_len a.message.g_x
  prk_2e ← derive_prk_2e h a.suite y g_x
  r ← contents c.r
  prk_3e2m ← prk_derive h a.authentication.static_dh_r a.suite prk_2e g_x r
  id_cred_r ← contents c.id_cred_r
  cred_r ← contents c.cred_r
  ad_2 ← contents c.ad_2
  own ←
      signature_or_mac_msg_create h a.authentication.static_dh_r a.suite label_k_2m label_iv_2m
        prk_3e2m th2 id_cred_r cred_r ad_2 a_2m_default_size
  sign_or_mac_2 ← sign_or_mac_of h a.authentication.static_dh_r a.suite c.sk_r c.pk_r own
  p_2e ←
      plaintext_encode h id_cred_r sign_or_mac_2 ad_2
        ((length id_cred_r + length sign_or_mac_2 + 2 + length ad_2) % 2 ^ 16)
  ciphertext ← encrypt_plaintext_2 h a.suite prk_2e th2 p_2e
  ciphertext_2 ← in_ciphertext_array ciphertext
  msg2 ← msg2_encode h a.corr c_i g_y c.c_r ciphertext_2 msg_default_size
  ok (record { msg2 = msg2; th2 = th2; prk_3e2m = prk_3e2m; ciphertext_2 = ciphertext_2 })

-- Decrypting message 3 and computing what the initiator has to know.
pub record Initiated : Type 0 where
  pub th3 : Bytes
  pub prk_4x3m : Bytes
  pub split_plaintext : SplitPlaintext
  pub initiator_pk : ByteArray
  pub own_mac : SignatureOrMac

-- The tag is copied from the end of the ciphertext, which has to hold it.
abbrev pub plaintext_3_len : AeadAlg → Bytes → EdhocResult ℕ
plaintext_3_len alg ciphertext_3 =
    if ltb (length ciphertext_3) (mac_len_of alg)
    then fault
    else ok (length ciphertext_3 - mac_len_of alg)

unfoldable pub process_ciphertext_3 :
    Host
    → EdhocResponderContext
    → List OtherPartyCred
    → Bytes
    → Bytes
    → Accepted
    → Message2
    → Bytes
    → EdhocResult Initiated
process_ciphertext_3 h c cred_i_array ad_3 prk_4x3m a m2 ciphertext_3 = do
  c_r ← contents c.c_r
  th3 ← th3_calculate h a.suite.edhoc_hash m2.th2 m2.ciphertext_2 (narrow c_r)
  key3 ← derive_keys_3 h a.suite m2.prk_3e2m th3
  len ← plaintext_3_len a.suite.edhoc_aead ciphertext_3
  p_3ae ← aead_decrypt h ciphertext_3 key3.k_3ae key3.iv_3ae key3.a_3ae len
  split ←
      plaintext_split h p_3ae (fresh h id_cred_local id_cred_default_size)
        (fresh h split_sign_or_mac sgn_or_mac_default_size) ad_3
  credential ←
      retrieve_cred h a.authentication.static_dh_i cred_i_array split.id_cred_x
        (split.id_cred_x_len % 2 ^ 8)
  g_i ← contents credential.g_other
  y ← contents c.y
  derived ← prk_derive h a.authentication.static_dh_i a.suite m2.prk_3e2m g_i y
  prk ← store prk_4x3m derived
  id_cred_i ← prefix split.id_cred_x_len split.id_cred_x
  cred_i ← contents credential.credential
  ad ← prefix split.ad_len split.ad
  own ←
      signature_or_mac_msg_create h a.authentication.static_dh_i a.suite label_k_3m label_iv_3m
        (narrow prk) th3 id_cred_i cred_i ad a_2m_default_size
  ok (record {
    th3 = th3;
    prk_4x3m = prk;
    split_plaintext = split;
    initiator_pk = credential.pk_other;
    own_mac = own;
  })
