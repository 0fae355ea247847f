-- ===== src/Context.antt =====
-- modules/oscore/inc/security_context.h and modules/oscore/inc/supported_algorithm.h: the security context.
pub mod Piv
pub mod Derive
pub mod Aad
pub mod Init
pub mod Update
use uoscore_uedhoc.Base.{ℕ}
use uoscore_uedhoc.Memory.{ByteArray}

-- `enum hkdf` and `enum AEAD_algorithm` with the values that a caller may store in them.
pub data Hkdf : Type 0 where
  sha_256 : Hkdf
  other_hkdf : ℕ → Hkdf

abbrev pub aes_ccm_16_64_128_alg : ℕ
aes_ccm_16_64_128_alg = 10

-- `enum dev_type`
pub data DevType : Type 0 where
  server client : DevType

-- `enum derive_type`
pub data DeriveType : Type 0 where
  key iv : DeriveType

-- `struct common_context`. Each array that points to a buffer of the context is the array with that memory.
pub record CommonContext : Type 0 where
  pub aead_alg : ℕ
  pub kdf : Hkdf
  pub master_secret : ByteArray
  pub master_salt : ByteArray
  pub id_context : ByteArray
  pub common_iv : ByteArray

-- `struct sender_context`. `sender_seq_num` is a uint64_t.
pub record SenderContext : Type 0 where
  pub sender_id : ByteArray
  pub sender_key : ByteArray
  pub sender_seq_num : ℕ

-- `struct recipient_context`
pub record RecipientContext : Type 0 where
  pub recipient_id : ByteArray
  pub recipient_key : ByteArray

-- `struct req_resp_context`
pub record ReqRespContext : Type 0 where
  pub nonce : ByteArray
  pub aad : ByteArray
  pub piv : ByteArray
  pub kid_context : ByteArray
  pub kid : ByteArray

-- `struct context`
pub record Context : Type 0 where
  pub rrc : ReqRespContext
  pub cc : CommonContext
  pub sc : SenderContext
  pub rc : RecipientContext
