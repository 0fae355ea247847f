-- ===== src/Edhoc/Decoder.antt =====
-- Decoding one CBOR item: modules/edhoc/src/cbor_decoder.c. The input is the bytes from the pointer on, as many
-- as the parser is told of.
use uoscore_uedhoc.Base.{[], drop, err, if◌then◌else◌, length, ltb, ok, ℕ, ◌*◌, ◌+◌, ◌>>=◌, ◌∷◌}
use uoscore_uedhoc.Edhoc.{
  EdhocError, EdhocResult, cbor_byte_string_buffer_to_small, error_during_cbor_decoding,
  unsupported_cbor_type,
}
use uoscore_uedhoc.Edhoc.CryptoWrapper.{word_bytes}
use uoscore_uedhoc.Edhoc.Host.{
  CborType, CborValue, Host, broken, byte_string_type, byte_string_value, integer_type,
  integer_value, malformed, map_type, map_value, other_type, other_value, store, text_string_type,
  text_string_value,
}
use uoscore_uedhoc.Memory.{Bytes}

-- What is stored at `out_decoded_data`, `*out_decoded_len`, `*type`, and the bytes from `*next_ptr` on.
pub record Decoded : Type 0 where
  pub written : Bytes
  pub len : ℕ
  pub type : CborType
  pub rest : Bytes

abbrev unsupported_or_broken : CborType → EdhocError
unsupported_or_broken integer_type = error_during_cbor_decoding
unsupported_or_broken byte_string_type = error_during_cbor_decoding
unsupported_or_broken text_string_type = error_during_cbor_decoding
unsupported_or_broken map_type = error_during_cbor_decoding
unsupported_or_broken other_type = unsupported_cbor_type

abbrev decode_string : CborType → Bytes → Bytes → ℕ → EdhocResult Decoded
decode_string string_type rest s out_len =
    if ltb out_len (length s)
    then err cbor_byte_string_buffer_to_small
    else ok (record { written = s; len = length s; type = string_type; rest = rest })

-- An integer is stored as an `int` of four bytes, whatever the room, and of a map only the first byte is
-- stepped over.
decode_value : CborValue → Bytes → ℕ → EdhocResult Decoded
decode_value malformed input out_len = err error_during_cbor_decoding
decode_value (broken type) input out_len = err (unsupported_or_broken type)
decode_value (integer_value v offset) input out_len =
    ok (record { written = word_bytes v; len = 1; type = integer_type; rest = drop offset input })
decode_value (byte_string_value s offset) input out_len =
    decode_string byte_string_type (drop offset input) s out_len
decode_value (text_string_value s offset) input out_len =
    decode_string text_string_type (drop offset input) s out_len
decode_value (map_value n) input out_len =
    ok (record { written = []; len = n; type = map_type; rest = drop 1 input })
decode_value other_value input out_len = err unsupported_cbor_type

unfoldable pub cbor_decoder : Host → Bytes → ℕ → EdhocResult Decoded
unfolding decode_value
cbor_decoder h input out_len = decode_value (h.parse input) input out_len

-- The value of an `int` in memory, as a number of 32 bits.
abbrev pub word_at : Bytes → ℕ
word_at [] = 0
word_at (b ∷ bs) = b + 256 * word_at bs

pub record DecodedInt : Type 0 where
  pub value : ℕ
  pub int_len : ℕ
  pub int_rest : Bytes

-- `cbor_decoder` into an `int`, of which `old` are the four bytes before. `*out_decoded_len` is at first
-- `out_len`.
unfoldable pub decode_int : Host → Bytes → Bytes → ℕ → EdhocResult DecodedInt
unfolding cbor_decoder
decode_int h old input out_len = do
  d ← cbor_decoder h input out_len
  v ← store old d.written
  ok (record { value = word_at v; int_len = d.len; int_rest = d.rest })
