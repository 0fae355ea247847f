-- ===== src/Edhoc.antt =====
-- The types that the EDHOC module shares: modules/edhoc/edhoc.h, modules/edhoc/inc/error.h,
-- modules/edhoc/inc/suites.h with modules/edhoc/src/suites.c, and modules/edhoc/inc/edhoc_method_type.h with
-- modules/edhoc/src/edhoc_method_type.c.
--
-- An enum of the source is taken to hold one of its values, apart from the suite label and the method, which
-- are cast from bytes that the other party sends.
pub mod Host
pub mod CryptoWrapper
pub mod Keys
pub mod Transcript
pub mod Mac
pub mod Decoder
pub mod Plaintext
pub mod RetrieveCred
pub mod Exchange
pub mod Trace
pub mod Messages
pub mod Steps
pub mod Initiator
pub mod Responder
pub mod Agreement
use uoscore_uedhoc.Base.{
  Bool, Outcome, [], err, false, fault, if◌then◌else◌, leb, length, none, ok, some, suc, take, true,
  zero, ℕ, ◌+◌,
}
use uoscore_uedhoc.Memory.{ByteArray, Bytes, Pointer}

-- `enum EdhocError` without `EdhocNoError`, which is the outcome `ok`.
pub data EdhocError : Type 0 where
  error_message_received error_message_sent error_during_hkdf_calculation : EdhocError
  unsupported_cipher_suite error_during_aead credential_not_found : EdhocError
  responder_authentication_failed error_during_a3ae_encoding : EdhocError
  aead_authentication_failed unknown_id_cred_map_label : EdhocError
  certificate_authentication_failed no_such_ca c_r_length_to_small : EdhocError
  message_buff_to_small dest_buffer_too_small cbor_encoding_error : EdhocError
  unsupported_cbor_type cbor_encoding_buffer_to_small : EdhocError
  cbor_byte_string_buffer_to_small error_during_cbor_decoding : EdhocError
  unsupported_ecdh_curve : EdhocError

abbrev pub EdhocResult {ℓ} : Type ℓ → Type ℓ
EdhocResult A = Outcome EdhocError A

-- The `n` bytes at `p`. Nothing is read where `n` is 0.
unfoldable pub bytes_at : Pointer → ℕ → EdhocResult Bytes
bytes_at p zero = ok []
bytes_at none (suc n) = fault
bytes_at (some m) (suc n) = if leb (suc n) (length m) then ok (take (suc n) m) else fault

-- The bytes of an array of the caller.
abbrev pub contents : ByteArray → EdhocResult Bytes
contents a = bytes_at a.ptr a.len

pub data AeadAlg : Type 0 where
  aes_ccm_16_64 aes_ccm_16_128 : AeadAlg

-- The number that stands for the algorithm in CBOR.
abbrev pub aead_number : AeadAlg → ℕ
aead_number aes_ccm_16_64 = 10
aead_number aes_ccm_16_128 = 30

pub data HashAlg : Type 0 where
  sha256 : HashAlg

pub data EcdhCurve : Type 0 where
  p_256_ecdh x25519 : EcdhCurve

pub data SignAlg : Type 0 where
  es256 ed_dsa : SignAlg

pub data SignCurve : Type 0 where
  p_256_sign ed25519_sign : SignCurve

pub record Suite : Type 0 where
  pub suite_label : ℕ
  pub edhoc_aead : AeadAlg
  pub edhoc_hash : HashAlg
  pub edhoc_ecdh_curve : EcdhCurve
  pub edhoc_sign_alg : SignAlg
  pub edhoc_sign_curve : SignCurve
  pub app_aead : AeadAlg
  pub app_hash : HashAlg

-- The suites with the curve 25519, and those with P-256.
abbrev curve_25519 : ℕ → AeadAlg → Suite
curve_25519 label aead_alg = record {
  suite_label = label;
  edhoc_aead = aead_alg;
  edhoc_hash = sha256;
  edhoc_ecdh_curve = x25519;
  edhoc_sign_alg = ed_dsa;
  edhoc_sign_curve = ed25519_sign;
  app_aead = aes_ccm_16_64;
  app_hash = sha256;
}

abbrev p_256 : ℕ → AeadAlg → Suite
p_256 label aead_alg = record {
  suite_label = label;
  edhoc_aead = aead_alg;
  edhoc_hash = sha256;
  edhoc_ecdh_curve = p_256_ecdh;
  edhoc_sign_alg = es256;
  edhoc_sign_curve = p_256_sign;
  app_aead = aes_ccm_16_64;
  app_hash = sha256;
}

unfoldable pub get_suite : ℕ → EdhocResult Suite
get_suite zero = ok (curve_25519 0 aes_ccm_16_64)
get_suite (suc zero) = ok (curve_25519 1 aes_ccm_16_128)
get_suite (suc (suc zero)) = ok (p_256 2 aes_ccm_16_64)
get_suite (suc (suc (suc zero))) = ok (p_256 3 aes_ccm_16_128)
get_suite (suc (suc (suc (suc n)))) = err unsupported_cipher_suite

-- Whether the initiator and whether the responder authenticates with a static DH key.
pub record Authentication : Type 0 where
  pub static_dh_i : Bool
  pub static_dh_r : Bool

-- For another method than the four, the two variables keep what they held.
unfoldable pub authentication_type_get : ℕ → Authentication → Authentication
authentication_type_get zero old = record { static_dh_i = false; static_dh_r = false }
authentication_type_get (suc zero) old = record { static_dh_i = false; static_dh_r = true }
authentication_type_get (suc (suc zero)) old = record { static_dh_i = true; static_dh_r = false }
authentication_type_get (suc (suc (suc zero))) old = record {
  static_dh_i = true;
  static_dh_r = true;
}
authentication_type_get (suc (suc (suc (suc n)))) old = old

-- The sizes of the build with certificates, which is the default.
abbrev pub msg_default_size : ℕ
msg_default_size = 256

abbrev pub ciphertext_default_size : ℕ
ciphertext_default_size = 256

abbrev pub a_2m_default_size : ℕ
a_2m_default_size = 512

abbrev pub sgn_or_mac_default_size : ℕ
sgn_or_mac_default_size = 128

abbrev pub id_cred_default_size : ℕ
id_cred_default_size = 256

abbrev pub prk_3ae_default_size : ℕ
prk_3ae_default_size = 256

abbrev pub cert_default_size : ℕ
cert_default_size = 256

abbrev pub err_msg_default_size : ℕ
err_msg_default_size = 64

abbrev pub c_r_default_size : ℕ
c_r_default_size = 1

abbrev pub c_i_default_size : ℕ
c_i_default_size = 8

abbrev pub g_x_default_size : ℕ
g_x_default_size = 32

-- MSG_1_DEFAULT_SIZE and the sizes of C_I, G_Y and C_R.
abbrev pub th_input_default_size : ℕ
th_input_default_size = 256 + (8 + 32 + 1)

abbrev pub info_default_size : ℕ
info_default_size = 64

abbrev pub a_3ae_default_size : ℕ
a_3ae_default_size = 64

abbrev pub kid_default_size : ℕ
kid_default_size = 8

abbrev pub sha_default_size : ℕ
sha_default_size = 32

abbrev pub aead_key_default_size : ℕ
aead_key_default_size = 16

abbrev pub aead_iv_default_size : ℕ
aead_iv_default_size = 13

pub record OtherPartyCred : Type 0 where
  pub id_cred : ByteArray
  pub cred : ByteArray
  pub pk : ByteArray
  pub g : ByteArray
  pub ca : ByteArray
  pub ca_pk : ByteArray

pub record EdhocResponderContext : Type 0 where
  pub suites_r : ByteArray
  pub g_y : ByteArray
  pub y : ByteArray
  pub c_r : ByteArray
  pub g_r : ByteArray
  pub r : ByteArray
  pub ad_2 : ByteArray
  pub id_cred_r : ByteArray
  pub cred_r : ByteArray
  pub sk_r : ByteArray
  pub pk_r : ByteArray

pub record EdhocInitiatorContext : Type 0 where
  pub method_type : ℕ
  pub corr : ℕ
  pub suites_i : ByteArray
  pub c_i : ByteArray
  pub ad_1 : ByteArray
  pub ad_3 : ByteArray
  pub id_cred_i : ByteArray
  pub cred_i : ByteArray
  pub g_x : ByteArray
  pub x : ByteArray
  pub g_i : ByteArray
  pub i : ByteArray
  pub sk_i : ByteArray
  pub pk_i : ByteArray
