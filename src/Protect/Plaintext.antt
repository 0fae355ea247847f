-- ===== src/Protect/Plaintext.antt =====
-- `plaintext_setup` of modules/oscore/src/coap2oscore.c: code, encrypted options and payload.
use uoscore_uedhoc.Base.{
  List, Result, [], if◌then◌else◌, length, some, ℕ, ◌%◌, ◌+◌, ◌==◌, ◌>>=◌, ◌^◌, ◌∷◌,
}
use uoscore_uedhoc.Coap.{CoapOption, CoapPacket}
use uoscore_uedhoc.Coap.Serialize.{option_bytes, put_payload}
use uoscore_uedhoc.Memory.{Buffer, memcpy_s, put, room, start}

-- The plaintext array of `plaintext_len` bytes, as far as it is written. The code byte is stored unchecked;
-- the payload is appended as `coap2buf` appends it.
unfoldable pub plaintext_setup : CoapPacket → List CoapOption → ℕ → Result Buffer
plaintext_setup in_o_coap e_options plaintext_len = do
  b₀ ← put (start plaintext_len) (in_o_coap.header.code ∷ [])
  (opt_len, opt_bytes) ← option_bytes e_options
  b₁ ← memcpy_s b₀ (room plaintext_len (length b₀.bytes)) (some opt_bytes) opt_len
  put_payload plaintext_len in_o_coap.payload_len in_o_coap.payload b₁

-- `plaintext_len` of `coap2oscore`, a uint16_t.
unfoldable pub plaintext_length : CoapPacket → ℕ → ℕ
plaintext_length packet e_options_len =
    let front = (1 + e_options_len) % 2 ^ 16 in
    if packet.payload_len == 0 then front else (front + 1 + packet.payload_len) % 2 ^ 16
