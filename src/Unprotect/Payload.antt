-- ===== src/Unprotect/Payload.antt =====
-- `oscore_packet_options_parser` and `oscore_decrypted_payload_parser` of modules/oscore/src/oscore2coap.c.
pub mod RoundTrip
use uoscore_uedhoc.Base.{List, Result, drop, if◌then◌else◌, ok, some, ℕ, ◌-◌, ◌==◌, ◌>>=◌}
use uoscore_uedhoc.Coap.{CoapOption}
use uoscore_uedhoc.Coap.Parse.{option_header_parse, options_parse_loop, read_options, sub16}
use uoscore_uedhoc.Memory.{ByteArray, Bytes, load, memory, null_array}

-- The header parser of `oscore_packet_options_parser`: the extended length is `x - 13` or `x - 269`.
unfoldable pub packet_options_header : Bytes → Result (ℕ × ℕ × ℕ × Bytes)
packet_options_header = option_header_parse (λ x. sub16 x 13) (λ x. sub16 x 269)

unfoldable pub oscore_packet_options_parser : Bytes → ℕ → ℕ → Result (List CoapOption)
oscore_packet_options_parser in_data in_data_len slots =
    options_parse_loop packet_options_header in_data_len slots in_data 0 0

-- The slots of `E_options` in `o_coap_pkg_generate`.
abbrev pub e_options_slots : ℕ
e_options_slots = 10

-- The code, the options and the payload of a decrypted payload. Its length is taken into a uint16_t.
unfoldable pub oscore_decrypted_payload_parser :
    ByteArray → Result (ℕ × List CoapOption × ByteArray)
oscore_decrypted_payload_parser in_payload = do
  let p = memory in_payload.ptr
  code ← load p
  (options, p₁, left) ←
      read_options (λ q n. oscore_packet_options_parser q n e_options_slots) (drop 1 p)
        (sub16 in_payload.len 1)
  ok (
    code,
    options,
    if left == 0 then null_array else record { len = left - 1; ptr = some (drop 1 p₁) },
  )
