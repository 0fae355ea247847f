-- ===== src/Coap/Serialize.antt =====
-- `coap2buf` of modules/oscore/src/coap.c: a packet structure to its byte string.
pub mod Wire
pub mod Bounds
pub mod Standard
use uoscore_uedhoc.Base.{
  List, Result, [], bit_or, if◌then◌else◌, length, ltb, ok, replicate, some, ℕ, ◌%◌, ◌*◌, ◌++◌, ◌+◌,
  ◌-◌, ◌/◌, ◌==◌, ◌>>=◌, ◌^◌, ◌∷◌,
}
use uoscore_uedhoc.Coap.{CoapHeader, CoapOption, CoapPacket}
use uoscore_uedhoc.Coap.Encode.{options_into_byte_string}
use uoscore_uedhoc.Memory.{Buffer, Bytes, Pointer, memcpy_s, put, room, start}

-- The first four bytes. `(temp_MID & 0xFF00) >> 8` is the high byte of a uint16_t.
unfoldable pub header_bytes : CoapHeader → Bytes
header_bytes h =
    (bit_or (bit_or (h.ver * 2 ^ 6) (h.type * 2 ^ 4)) h.tkl % 256)
    ∷ h.code
    ∷ h.mid / 256 % 256
    ∷ h.mid % 256
    ∷ []

-- The room for all options at five bytes of header each, in a uint16_t.
unfoldable pub worst_length : ℕ → List CoapOption → ℕ
worst_length acc [] = acc
worst_length acc (o ∷ os) = worst_length ((acc + 1 + 2 + 2 + o.len) % 2 ^ 16) os

-- `if (in->header.TKL > 0)`: copy the token.
unfoldable pub put_token : ℕ → CoapPacket → Buffer → Result Buffer
put_token capacity packet b =
    if ltb 0 packet.header.tkl
    then memcpy_s b (room capacity (length b.bytes)) packet.token packet.header.tkl
    else ok b

-- `if (in->payload_len != 0)`: the marker, which is stored unchecked, and the payload. The size is
-- taken one byte behind the cursor, which is where the cursor then stands.
unfoldable pub put_payload : ℕ → ℕ → Pointer → Buffer → Result Buffer
put_payload capacity payload_len payload b = if payload_len == 0 then ok b else (do
  marked ← put b (0xFF ∷ [])
  memcpy_s marked (room capacity (length marked.bytes)) payload payload_len)

-- The temporary array of the options: what the encoder wrote into zeroes.
unfoldable pub option_bytes : List CoapOption → Result (ℕ × Bytes)
option_bytes options = do
  (len, b) ← options_into_byte_string options (worst_length 0 options)
  ok (len, b.bytes ++ replicate (b.size - length b.bytes) 0)

-- `capacity` is `*out_byte_string_len` at the call, and the array is that long. The results are the new
-- `*out_byte_string_len`, a uint16_t, and the bytes written.
unfoldable pub coap2buf : CoapPacket → ℕ → Result (ℕ × Bytes)
coap2buf packet capacity = do
  b₀ ← put (start capacity) (header_bytes packet.header)
  b₁ ← put_token capacity packet b₀
  (opt_len, opt_bytes) ← option_bytes packet.options
  b₂ ← memcpy_s b₁ (room capacity (length b₁.bytes)) (some opt_bytes) opt_len
  b₃ ← put_payload capacity packet.payload_len packet.payload b₂
  let out_len = (4 + packet.header.tkl + opt_len) % 2 ^ 16
  let total =
      if packet.payload_len == 0 then out_len else (out_len + 1 + packet.payload_len) % 2 ^ 16
  ok (total, b₃.bytes)
