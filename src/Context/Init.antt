-- ===== src/Context/Init.antt =====
-- `oscore_context_init` of modules/oscore/src/security_context.c.
use uoscore_uedhoc.Base.{
  Result, err, if◌then◌else◌, invalid_algorithm_aead, invalid_algorithm_hkdf, ok, some, ℕ, ◌==◌,
  ◌>>=◌,
}
use uoscore_uedhoc.Coap.{max_aad_len, max_kid_context_len, max_kid_len, max_piv_len}
use uoscore_uedhoc.Context.{
  Context, DevType, Hkdf, ReqRespContext, aes_ccm_16_64_128_alg, client, other_hkdf, server,
  sha_256,
}
use uoscore_uedhoc.Context.Derive.{derive_common_iv, derive_recipient_key, derive_sender_key}
use uoscore_uedhoc.Memory.{ByteArray, Bytes, copy_within}
use uoscore_uedhoc.Nonce.{nonce_len}
use uoscore_uedhoc.Platform.{Cbor, TinyCrypt}

-- `struct oscore_init_params` of modules/oscore/oscore.h.
pub record OscoreInitParams : Type 0 where
  pub dev_type : DevType
  pub master_secret : ByteArray
  pub sender_id : ByteArray
  pub recipient_id : ByteArray
  pub id_context : ByteArray
  pub master_salt : ByteArray
  pub aead_alg : ℕ
  pub hkdf : Hkdf

-- The buffers inside the context before the call: whatever they hold, they have these sizes.
pub record Buffers : Type 0 where
  pub common_iv_buf : Bytes
  pub recipient_key_buf : Bytes
  pub sender_key_buf : Bytes
  pub nonce_buf : Bytes
  pub aad_buf : Bytes
  pub piv_buf : Bytes
  pub kid_context_buf : Bytes
  pub kid_buf : Bytes

abbrev pub own : ℕ → Bytes → ByteArray
own size buf = record { len = size; ptr = some buf }

-- The guards on the algorithms.
unfoldable pub checked_aead : ℕ → Result ℕ
checked_aead alg =
    if alg == aes_ccm_16_64_128_alg then ok aes_ccm_16_64_128_alg else err invalid_algorithm_aead

unfoldable pub checked_hkdf : Hkdf → Result Hkdf
checked_hkdf sha_256 = ok sha_256
checked_hkdf (other_hkdf n) = err invalid_algorithm_hkdf

-- The client takes the ID Context and its sender identifier, the server its recipient identifier.
unfoldable pub init_kids : DevType → OscoreInitParams → ReqRespContext → Result ReqRespContext
init_kids client params rrc = do
  kid_context ← copy_within rrc.kid_context.len rrc.kid_context params.id_context
  kid ← copy_within rrc.kid.len rrc.kid params.sender_id
  ok (record rrc { kid_context = kid_context; kid = kid })
init_kids server params rrc = do
  kid ← copy_within rrc.kid.len rrc.kid params.recipient_id
  ok (record rrc { kid = kid })

-- The context that is ready when the call returns without error.
unfoldable pub oscore_context_init : Cbor → TinyCrypt → OscoreInitParams → Buffers → Result Context
oscore_context_init cbor tc params bufs = do
  aead_alg ← checked_aead params.aead_alg
  kdf ← checked_hkdf params.hkdf
  cc ← derive_common_iv cbor tc (record {
    aead_alg = aead_alg;
    kdf = kdf;
    master_secret = params.master_secret;
    master_salt = params.master_salt;
    id_context = params.id_context;
    common_iv = own nonce_len bufs.common_iv_buf;
  })
  rc ←
      derive_recipient_key cbor tc cc (record {
        recipient_id = params.recipient_id;
        recipient_key = own 16 bufs.recipient_key_buf;
      })
  sc ← derive_sender_key cbor tc cc (record {
    sender_id = params.sender_id;
    sender_key = own 16 bufs.sender_key_buf;
    sender_seq_num = 0;
  })
  rrc ← init_kids params.dev_type params (record {
    nonce = own nonce_len bufs.nonce_buf;
    aad = own max_aad_len bufs.aad_buf;
    piv = own max_piv_len bufs.piv_buf;
    kid_context = own max_kid_context_len bufs.kid_context_buf;
    kid = own max_kid_len bufs.kid_buf;
  })
  ok (record { rrc = rrc; cc = cc; sc = sc; rc = rc })
