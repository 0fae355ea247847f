-- ===== src/Context/Derive.antt =====
-- modules/oscore/src/hkdf_info.c, and the derivation of keys and IV in modules/oscore/src/security_context.c.
use uoscore_uedhoc.Base.{
  List, Option, Result, [], err, fault, if◌then◌else◌, length, none, ok, some, unknown_hkdf, ℕ,
  ◌==◌, ◌>>=◌, ◌∷◌,
}
use uoscore_uedhoc.Context.{
  CommonContext, DeriveType, Hkdf, RecipientContext, SenderContext, iv, key, other_hkdf, sha_256,
}
use uoscore_uedhoc.Crypto.{hkdf_sha_256}
use uoscore_uedhoc.Memory.{ByteArray, Bytes, empty_array, overwrite, read}
use uoscore_uedhoc.Platform.{
  Cbor, CborItem, TinyCrypt, array, byte_string, close, encode_into, int, null, text_string, uint,
}

-- "Key" and "IV", and the length of what is derived.
abbrev pub type_enc : DeriveType → Bytes
type_enc key = 75 ∷ 101 ∷ 121 ∷ []
type_enc iv = 73 ∷ 86 ∷ []

abbrev pub type_len : DeriveType → ℕ
type_len key = 16
type_len iv = 13

-- An empty ID Context is left out as null.
abbrev pub id_context_item : ℕ → Bytes → CborItem
id_context_item len bytes = if len == 0 then null else byte_string bytes

-- The calls of the encoder behind the head of the array.
unfoldable pub hkdf_info_items : ℕ → ByteArray → ByteArray → ℕ → DeriveType → Result (List CborItem)
hkdf_info_items size id id_context aead_alg type = do
  id_bytes ← read id.ptr id.len
  context_bytes ← read id_context.ptr id_context.len
  ok (
      array size
      ∷ byte_string id_bytes
      ∷ id_context_item id_context.len context_bytes
      ∷ int aead_alg
      ∷ text_string (type_enc type)
      ∷ uint (type_len type)
      ∷ close
      ∷ [])

-- The length is taken of an array of one element, and the info is written as an array of five.
unfoldable pub hkdf_info_len : Cbor → ByteArray → ByteArray → ℕ → DeriveType → Result ℕ
hkdf_info_len cbor id id_context aead_alg type = do
  items ← hkdf_info_items 1 id id_context aead_alg type
  ok (length (cbor.encode items))

unfoldable pub create_hkdf_info : Cbor → ByteArray → ByteArray → ℕ → DeriveType → ℕ → Result Bytes
create_hkdf_info cbor id id_context aead_alg type out_len = do
  items ← hkdf_info_items 5 id id_context aead_alg type
  ok (encode_into cbor out_len items)

-- A loop that runs out of fuel is no result.
unfoldable pub ended : Option (Result Bytes) → Result Bytes
ended none = fault
ended (some r) = r

-- The `switch` on the HKDF.
unfoldable pub hkdf_of : Hkdf → TinyCrypt → Bytes → ByteArray → Bytes → ℕ → Result Bytes
hkdf_of sha_256 tc secret salt info out_len = ended (hkdf_sha_256 tc secret salt info out_len)
hkdf_of (other_hkdf n) tc secret salt info out_len = err unknown_hkdf

-- `derive`, and the store through `out->ptr`.
unfoldable pub derive :
    Cbor → TinyCrypt → CommonContext → ByteArray → DeriveType → ByteArray → Result ByteArray
derive cbor tc cc id type out = do
  len ← hkdf_info_len cbor id cc.id_context cc.aead_alg type
  info ← create_hkdf_info cbor id cc.id_context cc.aead_alg type len
  secret ← read cc.master_secret.ptr cc.master_secret.len
  derived ← hkdf_of cc.kdf tc secret cc.master_salt info out.len
  old ← read out.ptr out.len
  ok (record out { ptr = overwrite out.ptr derived })

unfoldable pub derive_common_iv : Cbor → TinyCrypt → CommonContext → Result CommonContext
derive_common_iv cbor tc cc = do
  common_iv ← derive cbor tc cc empty_array iv cc.common_iv
  ok (record cc { common_iv = common_iv })

unfoldable pub derive_sender_key :
    Cbor → TinyCrypt → CommonContext → SenderContext → Result SenderContext
derive_sender_key cbor tc cc sc = do
  sender_key ← derive cbor tc cc sc.sender_id key sc.sender_key
  ok (record sc { sender_key = sender_key })

unfoldable pub derive_recipient_key :
    Cbor → TinyCrypt → CommonContext → RecipientContext → Result RecipientContext
derive_recipient_key cbor tc cc rc = do
  recipient_key ← derive cbor tc cc rc.recipient_id key rc.recipient_key
  ok (record rc { recipient_key = recipient_key })
