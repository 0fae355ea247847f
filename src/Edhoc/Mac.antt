-- ===== src/Edhoc/Mac.antt =====
-- The inner MAC and the message to sign: modules/edhoc/src/signature_or_mac_msg.c.
use uoscore_uedhoc.Base.{Bool, List, [], false, length, ok, true, ℕ, ◌++◌, ◌+◌, ◌>>=◌, ◌∷◌}
use uoscore_uedhoc.Edhoc.{
  AeadAlg, EdhocResult, Suite, a_2m_default_size, aead_iv_default_size, aead_key_default_size,
  aes_ccm_16_128, aes_ccm_16_64,
}
use uoscore_uedhoc.Edhoc.CryptoWrapper.{aead_encrypt}
use uoscore_uedhoc.Edhoc.Host.{Host, behind_mac, encode_checked, fresh}
use uoscore_uedhoc.Edhoc.Keys.{encrypt0, narrow, okm_calc}
use uoscore_uedhoc.Memory.{Bytes}
use uoscore_uedhoc.Platform.{CborItem, array, byte_string, close, text_string}

-- The length of the input comes in a uint8_t.
unfoldable pub encode_byte_string : Host → Bytes → ℕ → EdhocResult Bytes
encode_byte_string h input out_len = encode_checked h out_len (byte_string (narrow input) ∷ [])

-- The structure is named by its first string, "Encrypt0" or "Signature1", and only the second has the MAC.
pub data Structure : Type 0 where
  encrypt0_structure signature1_structure : Structure

-- "Signature1"
abbrev signature1 : Bytes
signature1 = 83 ∷ 105 ∷ 103 ∷ 110 ∷ 97 ∷ 116 ∷ 117 ∷ 114 ∷ 101 ∷ 49 ∷ []

abbrev pub m_items : Structure → Bytes → Bytes → Bytes → List CborItem
m_items encrypt0_structure id_cred protected mac =
    array 3 ∷ text_string encrypt0 ∷ byte_string id_cred ∷ byte_string protected ∷ close ∷ []
m_items signature1_structure id_cred protected mac =
    array 4
    ∷ text_string signature1
    ∷ byte_string id_cred
    ∷ byte_string protected
    ∷ byte_string mac
    ∷ close
    ∷ []

-- The lengths of ID_CRED, CRED and AD come in a uint8_t.
unfoldable pub m_encode :
    Host → Structure → Bytes → Bytes → Bytes → Bytes → Bytes → ℕ → EdhocResult Bytes
unfolding encode_byte_string
m_encode h str id_cred th cred ad mac out_len = do
  th_enc ← encode_byte_string h th (length th + 2)
  encode_checked h out_len (m_items str (narrow id_cred) (th_enc ++ (narrow cred ++ narrow ad)) mac)

-- `mac` is `*mac_len` bytes long. `m` is set only for a signature.
pub record SignatureOrMac : Type 0 where
  pub m : Bytes
  pub mac : Bytes

abbrev pub mac_len_of : AeadAlg → ℕ
mac_len_of aes_ccm_16_64 = 8
mac_len_of aes_ccm_16_128 = 16

abbrev m_of : Host → Bool → Bytes → Bytes → Bytes → Bytes → Bytes → ℕ → EdhocResult Bytes
m_of h true id_cred th cred ad mac m_len = ok []
m_of h false id_cred th cred ad mac m_len =
    m_encode h signature1_structure id_cred th cred ad mac m_len

unfoldable pub signature_or_mac_msg_create :
    Host
    → Bool
    → Suite
    → Bytes
    → Bytes
    → Bytes
    → Bytes
    → Bytes
    → Bytes
    → Bytes
    → ℕ
    → EdhocResult SignatureOrMac
unfolding m_encode
signature_or_mac_msg_create h static_dh suite label_k label_iv prk th id_cred cred ad m_len = do
  k_m ← okm_calc h suite.edhoc_aead suite.edhoc_hash label_k prk th aead_key_default_size
  iv_m ← okm_calc h suite.edhoc_aead suite.edhoc_hash label_iv prk th aead_iv_default_size
  a_m ← m_encode h encrypt0_structure id_cred th cred ad [] a_2m_default_size
  inner ← aead_encrypt h [] k_m iv_m a_m 0 (mac_len_of suite.edhoc_aead) (fresh h behind_mac 16)
  m ← m_of h static_dh id_cred th cred ad inner.tag m_len
  ok (record { m = m; mac = inner.tag })
