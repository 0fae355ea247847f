-- ===== src/Edhoc/Initiator/Process.antt =====
-- What the initiator computes between the messages: modules/edhoc/src/initiator.c.
use uoscore_uedhoc.Base.{
  List, [], bit_xor, fault, if◌then◌else◌, length, ok, take, ℕ, ◌%◌, ◌++◌, ◌+◌, ◌-◌, ◌==◌, ◌>>=◌,
  ◌^◌, ◌||◌, ◌∷◌,
}
use uoscore_uedhoc.Context.Init.{own}
use uoscore_uedhoc.Edhoc.{
  Authentication, EdhocInitiatorContext, EdhocResult, OtherPartyCred, Suite, a_2m_default_size,
  contents, id_cred_default_size, prk_3ae_default_size, sgn_or_mac_default_size,
}
use uoscore_uedhoc.Edhoc.CryptoWrapper.{aead_encrypt, hkdf_extract, shared_secret_derive}
use uoscore_uedhoc.Edhoc.Host.{
  Host, ciphertext_3_local, ecdh_secret, fresh, id_cred_local, memcpy_checked, prefix,
  split_sign_or_mac, store,
}
use uoscore_uedhoc.Edhoc.Keys.{narrow, okm_calc, prk_derive}
use uoscore_uedhoc.Edhoc.Mac.{
  SignatureOrMac, encode_byte_string, mac_len_of, signature_or_mac_msg_create,
}
use uoscore_uedhoc.Edhoc.Messages.{Msg2, c_x_bstr_identifier_encode}
use uoscore_uedhoc.Edhoc.Plaintext.{SplitPlaintext, kid_or_id_cred, kid_or_unset, plaintext_split}
use uoscore_uedhoc.Edhoc.RetrieveCred.{retrieve_cred}
use uoscore_uedhoc.Edhoc.Steps.{
  Keys3, derive_keys_3, label_iv_2m, label_iv_3m, label_k_2m, label_k_3m, label_keystream_2,
  sign_or_mac_of,
}
use uoscore_uedhoc.Edhoc.Transcript.{th2_calculate, th3_calculate}
use uoscore_uedhoc.Memory.{ByteArray, Bytes}

-- What message 1 leaves to the next part.
pub record Start : Type 0 where
  pub suite : Suite
  pub authentication : Authentication
  pub msg1 : Bytes

-- What message 2 leaves to the next part.
pub record Middle : Type 0 where
  pub fields : Msg2
  pub th2 : Bytes
  pub prk_3e2m : Bytes
  pub split_plaintext : SplitPlaintext
  pub responder_pk : ByteArray
  pub own_mac : SignatureOrMac

-- The loop `P_2e[i] = ciphertext2[i] ^ KEYSTREAM_2[i]`.
unfoldable pub p_2e_loop : Bytes → Bytes → EdhocResult Bytes
p_2e_loop [] ks = ok []
p_2e_loop (c ∷ cs) [] = fault
p_2e_loop (c ∷ cs) (k ∷ ks) = do rest ← p_2e_loop cs ks; ok (bit_xor c k ∷ rest)

-- The key stream of the length of the ciphertext, and the plaintext.
unfoldable pub decrypt_ciphertext_2 : Host → Suite → Bytes → Bytes → Bytes → EdhocResult Bytes
unfolding p_2e_loop
decrypt_ciphertext_2 h suite prk_2e th2 ciphertext_2 = do
  keystream_2 ←
      okm_calc h suite.edhoc_aead suite.edhoc_hash label_keystream_2 prk_2e th2
        (length ciphertext_2)
  p_2e_loop ciphertext_2 keystream_2

-- Decrypting message 2 and computing what the responder has to know.
unfoldable pub process_fields_2 :
    Host → EdhocInitiatorContext → List OtherPartyCred → Bytes → Start → Msg2 → EdhocResult Middle
process_fields_2 h c cred_r_array ad_2 st m = do
  x ← contents c.x
  prk_2e_secret ←
      shared_secret_derive h st.suite.edhoc_ecdh_curve x m.g_y_2 (fresh h ecdh_secret 32)
  th2 ← th2_calculate h st.suite.edhoc_hash st.msg1 m.c_i_2 m.g_y_2 m.c_r_2
  prk_2e ← hkdf_extract h st.suite.edhoc_hash [] prk_2e_secret
  p_2e ← decrypt_ciphertext_2 h st.suite prk_2e th2 m.ciphertext_2
  split ←
      plaintext_split h p_2e (fresh h id_cred_local id_cred_default_size)
        (fresh h split_sign_or_mac sgn_or_mac_default_size) ad_2
  credential ←
      retrieve_cred h st.authentication.static_dh_r cred_r_array split.id_cred_x
        (split.id_cred_x_len % 2 ^ 8)
  g_r ← contents credential.g_other
  prk_3e2m ← prk_derive h st.authentication.static_dh_r st.suite prk_2e g_r x
  id_cred_r ← prefix split.id_cred_x_len split.id_cred_x
  cred_r ← contents credential.credential
  ad ← prefix split.ad_len split.ad
  own ←
      signature_or_mac_msg_create h st.authentication.static_dh_r st.suite label_k_2m label_iv_2m
        prk_3e2m th2 id_cred_r cred_r ad a_2m_default_size
  ok (record {
    fields = m;
    th2 = th2;
    prk_3e2m = prk_3e2m;
    split_plaintext = split;
    responder_pk = credential.pk_other;
    own_mac = own;
  })

pub record Message3 : Type 0 where
  pub msg3 : Bytes
  pub th3 : Bytes
  pub ciphertext_3 : Bytes
  pub prk_4x3m : Bytes

-- The plaintext is the KID or ID_CRED_I and the signature or MAC; AD_3 is not in it.
unfoldable pub plaintext_3 : Host → EdhocInitiatorContext → Bytes → EdhocResult Bytes
plaintext_3 h c sign_or_mac_3 = do
  enc ← encode_byte_string h sign_or_mac_3 (length sign_or_mac_3 + 2)
  id_cred_i ← contents c.id_cred_i
  k ← kid_or_unset h (narrow id_cred_i)
  front ← memcpy_checked prk_3ae_default_size (kid_or_id_cred k id_cred_i)
  tail ← memcpy_checked (prk_3ae_default_size - length front) enc
  ok (front ++ tail)

-- The message is C_R, whatever CORR is, and the ciphertext.
abbrev pub c_r_front : Host → Bytes → EdhocResult Bytes
c_r_front h [] = ok []
c_r_front h (c ∷ []) = c_x_bstr_identifier_encode h c
c_r_front h (c ∷ d ∷ cs) = ok (c ∷ d ∷ cs)

-- The array of the ciphertext has room for a tag of its own length, and `aead` is told of that length twice.
unfoldable pub encrypt_3 : Host → Suite → Keys3 → Bytes → EdhocResult Bytes
encrypt_3 h suite key3 p_3ae = do
  let len = length p_3ae + mac_len_of suite.edhoc_aead
  enc ← aead_encrypt h p_3ae key3.k_3ae key3.iv_3ae key3.a_3ae len (mac_len_of suite.edhoc_aead) []
  ok (take len (enc.out ++ fresh h ciphertext_3_local len))

unfoldable pub make_message_3 :
    Host → EdhocInitiatorContext → Bytes → Start → Middle → EdhocResult Message3
unfolding plaintext_3 encrypt_3
make_message_3 h c prk_4x3m st mid = do
  let data_3 = if c.corr == 2 || c.corr == 3 then [] else mid.fields.c_r_2
  th3 ← th3_calculate h st.suite.edhoc_hash mid.th2 mid.fields.ciphertext_2 data_3
  i ← contents c.i
  derived ← prk_derive h st.authentication.static_dh_i st.suite mid.prk_3e2m mid.fields.g_y_2 i
  prk ← store prk_4x3m derived
  id_cred_i ← contents c.id_cred_i
  cred_i ← contents c.cred_i
  ad_3 ← contents c.ad_3
  own ←
      signature_or_mac_msg_create h st.authentication.static_dh_i st.suite label_k_3m label_iv_3m
        prk th3 id_cred_i cred_i ad_3 a_2m_default_size
  sign_or_mac_3 ← sign_or_mac_of h st.authentication.static_dh_i st.suite c.sk_i c.pk_i own
  p_3ae ← plaintext_3 h c sign_or_mac_3
  key3 ← derive_keys_3 h st.suite mid.prk_3e2m th3
  ciphertext_3 ← encrypt_3 h st.suite key3 p_3ae
  enc ← encode_byte_string h ciphertext_3 (length ciphertext_3 + 2)
  front ← c_r_front h mid.fields.c_r_2
  ok (record { msg3 = front ++ enc; th3 = th3; ciphertext_3 = ciphertext_3; prk_4x3m = prk })

-- What a run gives that ends without error: the two arrays for the exporter, and AD_2 with its length.
pub record InitiatorResult : Type 0 where
  pub prk_4x3m_i : Bytes
  pub th4_i : Bytes
  pub ad_2_i : Bytes
  pub ad_2_i_len : ℕ
