-- ===== src/Coap/Encode.antt =====
-- `options_into_byte_string` of modules/oscore/src/coap.c: options to their wire format.
pub mod Render
use uoscore_uedhoc.Base.{
  ℕ, ◌+◌, ◌*◌, ◌/◌, ◌%◌, ◌^◌, bit_or, List, [], ◌∷◌, ◌++◌, ◌&&◌, length, ltb, leb, ◌==◌,
  if◌then◌else◌, Result, ok, err, ◌>>=◌, OscoreError, delta_extra_byte_error, len_extra_byte_error,
}
use uoscore_uedhoc.Memory.{Bytes, Buffer, start, put, memcpy_s, room}
use uoscore_uedhoc.Coap.{CoapOption}

-- `delta_extra_byte` and `len_extra_byte`
extra_bytes : ℕ → ℕ
extra_bytes v = if leb 13 v && ltb v 243 then 1 else if leb 243 v then 2 else 0

-- The two bytes of a uint16_t, `(t & 0xFF00) >> 8` and `(t & 0x00FF) >> 0`.
abbrev two_bytes : ℕ → Bytes
two_bytes t = t / 256 ∷ t % 256 ∷ []

-- `switch (delta_extra_byte)`: the high half of the first byte, and the bytes behind it.
delta_field : ℕ → ℕ → Result (ℕ × Bytes)
delta_field extra delta =
    if extra == 0
    then ok (delta * 16 % 256, [])
    else if extra == 1
    then ok (13 * 16, (delta + 13) % 256 ∷ [])
    else if extra == 2
    then ok (14 * 16, two_bytes ((delta + 269) % 2 ^ 16))
    else err delta_extra_byte_error

-- `switch (len_extra_byte)`: what is or-ed into the first byte, and the bytes behind the delta's.
len_field : ℕ → ℕ → Result (ℕ × Bytes)
len_field extra len =
    if extra == 0
    then ok (len % 256, [])
    else if extra == 1
    then ok (13, (len + 13) % 256 ∷ [])
    else if extra == 2
    then ok (14, two_bytes ((len + 269) % 2 ^ 16))
    else err len_extra_byte_error

-- The bytes in front of an option's value.
pub option_header : ℕ → ℕ → Result Bytes
unfolding extra_bytes delta_field len_field
option_header delta len =
    if ltb delta 13 && ltb len 13 then ok (bit_or (delta * 16 % 256) (len % 256) ∷ []) else (do
      (high, delta_bytes) ← delta_field (extra_bytes delta) delta
      (low, len_bytes) ← len_field (extra_bytes len) len
      ok (bit_or high low ∷ (delta_bytes ++ len_bytes)))

-- The loop over the options left. `out_len` is `out_byte_string->len`, a uint32_t.
pub options_loop : ℕ → List CoapOption → ℕ → Buffer → Result (ℕ × Buffer)
options_loop capacity [] out_len b = ok (out_len, b)
options_loop capacity (o ∷ os) out_len b = do
  head ← option_header o.delta o.len
  b₁ ← put b head
  b₂ ← memcpy_s b₁ (room capacity (length b₁.bytes)) o.value o.len
  options_loop capacity os ((out_len + length head + o.len) % 2 ^ 32) b₂

-- `capacity` is the length that the byte string has when it is passed in.
unfoldable pub options_into_byte_string : List CoapOption → ℕ → Result (ℕ × Buffer)
unfolding options_loop option_header
options_into_byte_string options capacity = options_loop capacity options 0 (start capacity)
