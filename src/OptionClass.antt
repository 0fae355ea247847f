-- ===== src/OptionClass.antt =====
-- modules/oscore/src/option.c: which options OSCORE protects, and the encoding of the options of one
-- class for the additional authenticated data.
pub mod ClassI
use uoscore_uedhoc.Base.{
  Bool, List, Option, Result, [], bit_or, false, fault, if◌then◌else◌, length, ltb, none, not, ok,
  some, ℕ, ◌%◌, ◌&&◌, ◌*◌, ◌++◌, ◌+◌, ◌-◌, ◌/◌, ◌==◌, ◌>>=◌, ◌^◌, ◌∷◌,
}
use uoscore_uedhoc.Coap.{CoapOption}
use uoscore_uedhoc.Memory.{Buffer, Bytes, memcpy_s, put, start}

-- `enum o_coap_option_num`, the numbers that the code names.
abbrev pub coap_option_uri_host : ℕ
coap_option_uri_host = 3

abbrev pub coap_option_uri_port : ℕ
coap_option_uri_port = 7

abbrev pub coap_option_oscore : ℕ
coap_option_oscore = 9

abbrev pub coap_option_proxy_uri : ℕ
coap_option_proxy_uri = 35

abbrev pub coap_option_proxy_scheme : ℕ
coap_option_proxy_scheme = 39

-- `enum option_class`
pub data OptionClass : Type 0 where
  class_u class_i class_e : OptionClass

unfoldable pub is_class_e : ℕ → Bool
is_class_e code =
    not (code == coap_option_uri_host)
    && not (code == coap_option_uri_port)
    && not (code == coap_option_oscore)
    && not (code == coap_option_proxy_uri)
    && not (code == coap_option_proxy_scheme)

-- "There are currently no Class I option message fields defined."
unfoldable pub is_class_i : ℕ → Bool
is_class_i code = false

-- The result is a function pointer; `return false` is NULL.
unfoldable pub class_to_condition : OptionClass → Option (ℕ → Bool)
class_to_condition class_i = some is_class_i
class_to_condition class_e = some is_class_e
class_to_condition class_u = none

-- A call through the pointer.
abbrev pub call : Option (ℕ → Bool) → ℕ → Result Bool
call none code = fault
call (some f) code = ok (f code)

unfoldable pub option_field_len : ℕ → ℕ
option_field_len value = if ltb value 13 then 0 else if ltb value 269 then 1 else 2

-- `total_delta` is a uint16_t and `len` a uint32_t.
unfoldable pub encoded_option_len_loop : Option (ℕ → Bool) → List CoapOption → ℕ → ℕ → Result ℕ
encoded_option_len_loop condition [] len total_delta = ok len
encoded_option_len_loop condition (o ∷ os) len total_delta = do
  let code = (total_delta + o.delta) % 2 ^ 16
  taken ← call condition code
  let size = 1 + option_field_len o.delta + option_field_len o.len + o.len
  encoded_option_len_loop condition os (if taken then (len + size) % 2 ^ 32 else len) code

unfoldable pub encoded_option_len : List CoapOption → OptionClass → Result ℕ
encoded_option_len options class = encoded_option_len_loop (class_to_condition class) options 0 0

-- The half byte and the bytes behind it, for a field of `field_len` bytes.
unfoldable pub encode_field : ℕ → ℕ → ℕ × Bytes
encode_field field_len value =
    if field_len == 0
    then (value % 256, [])
    else if field_len == 1
    then (13, (value + 2 ^ 16 - 13) % 256 ∷ [])
    else (14, (value - 269) / 256 % 256 ∷ (value - 269) % 256 ∷ [])

-- The bytes in front of a value: `delta_length_field |= delta << 4` in a uint8_t, then the length's.
unfoldable pub encode_option_header : ℕ → ℕ → Bytes
encode_option_header delta length =
    let (high, delta_bytes) = encode_field (option_field_len delta) delta in
    let (low, length_bytes) = encode_field (option_field_len length) length in
    bit_or (high * 16 % 256) low ∷ (delta_bytes ++ length_bytes)

-- The loop. `out_buf_len - index` is computed in a uint32_t.
unfoldable pub encode_options_loop :
    Option (ℕ → Bool) → ℕ → List CoapOption → ℕ → Buffer → Result Buffer
encode_options_loop condition out_buf_len [] skipped_delta out = ok out
encode_options_loop condition out_buf_len (o ∷ os) skipped_delta out = do
  let delta = (o.delta + skipped_delta) % 2 ^ 16
  taken ← call condition delta
  let skip = encode_options_loop condition out_buf_len os ((skipped_delta + o.delta) % 2 ^ 16)
  let go_on = encode_options_loop condition out_buf_len os 0
  if taken
      then (do
        headed ← put out (encode_option_header delta o.len)
        filled ←
            memcpy_s headed ((out_buf_len + 2 ^ 32 - length headed.bytes) % 2 ^ 32) o.value o.len
        go_on filled)
      else skip out

-- `out` is an array of `size` bytes, and `out_buf_len` a uint8_t.
unfoldable pub encode_options : List CoapOption → OptionClass → ℕ → ℕ → Result Bytes
encode_options options class size out_buf_len = do
  out ← encode_options_loop (class_to_condition class) out_buf_len options 0 (start size)
  ok out.bytes
