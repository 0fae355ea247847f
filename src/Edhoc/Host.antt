-- ===== src/Edhoc/Host.antt =====
-- What the EDHOC module calls and does not hold: TinyCBOR, TinyCrypt, the signatures and the curve of
-- compact25519, and the functions `tx` and `rx` of modules/edhoc/inc/txrx_wrapper.h, which the user writes.
--
-- All of them are fields of one record, with what the local arrays hold before they are set, so that a
-- definition that depends on any of them takes one parameter. A field that gives bytes gives what the calls
-- leave in the output.
use uoscore_uedhoc.Base.{
  Bool, List, Option, [], drop, err, false, fault, if◌then◌else◌, leb, length, ltb, ok, replicate,
  suc, take, true, zero, ℕ, ◌++◌, ◌-◌, ◌==◌, ◌∷◌,
}
use uoscore_uedhoc.Edhoc.{EdhocResult, cbor_encoding_buffer_to_small, dest_buffer_too_small}
use uoscore_uedhoc.Memory.{Bytes}
use uoscore_uedhoc.Platform.{Cbor, CborItem, byte_string, int, negint}

-- The type of an item, as `cbor_value_get_type` tells it.
pub data CborType : Type 0 where
  integer_type byte_string_type text_string_type map_type other_type : CborType

-- The first item of some bytes: `cbor_parser_init` fails; a later call on the value fails; an integer, as
-- the 32 bits of an `int`; a string; a map of so many pairs; another item. The last number of an integer or a
-- string is the offset of the item behind it.
pub data CborValue : Type 0 where
  malformed : CborValue
  broken : CborType → CborValue
  integer_value : ℕ → ℕ → CborValue
  byte_string_value : Bytes → ℕ → CborValue
  text_string_value : Bytes → ℕ → CborValue
  map_value : ℕ → CborValue
  other_value : CborValue

abbrev pub type_of : CborValue → CborType
type_of malformed = other_type
type_of (broken type) = type
type_of (integer_value v offset) = integer_type
type_of (byte_string_value s offset) = byte_string_type
type_of (text_string_value s offset) = text_string_type
type_of (map_value n) = map_type
type_of other_value = other_type

-- The local variables that the code reads before it has set them on some path.
pub data Local : Type 0 where
  ecdh_secret dh_secret behind_mac sign_or_mac_local split_sign_or_mac ciphertext_3_local : Local
  suites_i_local g_x_local c_i_local kid_buf_local kid_local signature_local : Local
  map_label_len_local static_dh_i_local static_dh_r_local : Local
  g_y_local c_r_local ciphertext_local id_cred_local hash_val_local cert_local : Local
  msg1_local int_local : Local

pub data Event : Type 0 where
  sent received : Bytes → Event

-- `edsign_sign` takes public key, secret key and message; `edsign_verify` signature, public key and message;
-- `c25519_smult` the point and the secret scalar, which is prepared. The two modes of CCM take key, nonce,
-- length of the output, additional data and input. `copy_string` is what is copied of a string into so much
-- room. `rx` and `tx` may depend on the messages so far.
pub record Host : Type 0 where
  pub cbor : Cbor
  pub parse : Bytes → CborValue
  pub string_length : Bytes → Option ℕ
  pub has_int64 : Bytes → Bool
  pub copy_string : Bytes → ℕ → Bytes
  pub sha_256_digest : Bytes → Bytes
  pub hmac_digest : Bytes → Bytes → Bytes
  pub ccm_generation_encryption : Bytes → Bytes → ℕ → Bytes → Bytes → Option Bytes
  pub ccm_decryption_verification : Bytes → Bytes → ℕ → Bytes → Bytes → Option Bytes
  pub edsign_sign : Bytes → Bytes → Bytes → Bytes
  pub edsign_verify : Bytes → Bytes → Bytes → Bool
  pub c25519_smult : Bytes → Bytes → Bytes
  pub compact_x25519_keygen : Bytes → Bytes × Bytes
  pub unset : Local → Bytes
  pub rx : List Event → EdhocResult Bytes
  pub tx : List Event → Bytes → EdhocResult (Unit {0})

-- A local array of `n` bytes before it is set.
abbrev pub fresh : Host → Local → ℕ → Bytes
fresh h l n = take n (h.unset l ++ replicate n 0)

-- An array after `bs` has been stored from its start on.
abbrev pub store : Bytes → Bytes → EdhocResult Bytes
store old bs = if leb (length bs) (length old) then ok (bs ++ drop (length bs) old) else fault

-- The first `n` bytes of an array.
abbrev pub prefix : ℕ → Bytes → EdhocResult Bytes
prefix n bs = if leb n (length bs) then ok (take n bs) else fault

-- The calls of the encoder into a buffer of `size` bytes, each followed by a test for CborErrorOutOfMemory.
abbrev pub encode_checked : Host → ℕ → List CborItem → EdhocResult Bytes
encode_checked h size items =
    if leb (length (h.cbor.encode items)) size
    then ok (h.cbor.encode items)
    else err cbor_encoding_buffer_to_small

-- `cbor_encode_int(&enc, c - 24)` for a byte `c`.
abbrev pub identifier_item : ℕ → CborItem
identifier_item c = if ltb c 24 then negint (23 - c) else int (c - 24)

-- A connection identifier of one byte as a number, another as a byte string.
abbrev pub bstr_identifier : Bytes → CborItem
bstr_identifier [] = byte_string []
bstr_identifier (c ∷ []) = identifier_item c
bstr_identifier (c ∷ d ∷ cs) = byte_string (c ∷ d ∷ cs)

-- `_memcpy_s(dest, dest_size, src, count)` of modules/edhoc/src/memcpy_s.c with the bytes that are copied.
unfoldable pub memcpy_checked : ℕ → Bytes → EdhocResult Bytes
memcpy_checked dest_size bs = if ltb dest_size (length bs) then err dest_buffer_too_small else ok bs

-- `memcmp(p, q, n) == 0` over two arrays.
unfoldable pub memcmp_equal : ℕ → Bytes → Bytes → EdhocResult Bool
memcmp_equal zero p q = ok true
memcmp_equal (suc n) [] q = fault
memcmp_equal (suc n) (x ∷ p) [] = fault
memcmp_equal (suc n) (x ∷ p) (y ∷ q) =
    let rest = memcmp_equal n p q in if x == y then rest else ok false
