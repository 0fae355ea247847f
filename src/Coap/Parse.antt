-- ===== src/Coap/Parse.antt =====
-- `buf2options` and `buf2coap` of modules/oscore/src/coap.c: a received packet to its structure.
-- The two option parsers of the program, this one and `oscore_packet_options_parser`, differ only in
-- the sign of the extended length, so they share `option_header_parse` and `options_parse_loop`.
pub mod Options
use uoscore_uedhoc.Base.{
  List, OscoreError, Result, [], drop, err, fault, if◌then◌else◌, in_pkt_invalid_option_delta,
  in_pkt_invalid_option_len, in_pkt_invalid_tkl, leb, ltb, none, not, ok, some, suc, zero, ℕ, ◌%◌,
  ◌&&◌, ◌*◌, ◌+◌, ◌-◌, ◌/◌, ◌==◌, ◌>>=◌, ◌^◌, ◌||◌, ◌∷◌,
}
use uoscore_uedhoc.Coap.{CoapHeader, CoapOption, CoapPacket, max_option_count}
use uoscore_uedhoc.Memory.{ByteArray, Bytes, Pointer, load, load_at, memory}

-- One `switch` on a half byte: 13 and 14 announce one and two more bytes, which `short` and `long`
-- turn into the value; 15 is the error `e`. The results are the bytes taken, the value, and the
-- pointer behind them. `*p << 8 | *(p + 1)` joins two bytes that do not overlap.
unfoldable pub read_extension : (ℕ → ℕ) → (ℕ → ℕ) → OscoreError → ℕ → Bytes → Result (ℕ × ℕ × Bytes)
read_extension short long e half p =
    if half == 13
    then (do x ← load p; ok (1, short x, drop 1 p))
    else if half == 14
    then (do high ← load p; low ← load_at p 1; ok (2, long (high * 256 + low), drop 2 p))
    else if half == 15
    then err e
    else ok (0, half, p)

-- `x - k` in a uint16_t
abbrev pub sub16 : ℕ → ℕ → ℕ
sub16 x k = (x + 2 ^ 16 - k) % 2 ^ 16

-- The header of one option: the bytes that it takes, the delta, the length, and the pointer to the
-- value. `(b & 0xF0) >> 4` and `b & 0x0F` are the halves of a byte.
unfoldable pub option_header_parse : (ℕ → ℕ) → (ℕ → ℕ) → Bytes → Result (ℕ × ℕ × ℕ × Bytes)
option_header_parse short long p = do
  b ← load p
  (d, delta, p₁) ←
      read_extension (λ x. sub16 x 13) (λ x. sub16 x 269) in_pkt_invalid_option_delta (b / 16 % 16)
        (drop 1 p)
  (l, len, p₂) ← read_extension short long in_pkt_invalid_option_len (b % 16) p₁
  ok (1 + d + l, delta, len, p₂)

-- The `while` loop. `slots` is what is left of the array `out_options`; `i` is a uint16_t and
-- `option_number` a uint8_t. Storing an option past the end of the array is a fault.
unfoldable pub options_parse_loop :
    (Bytes → Result (ℕ × ℕ × ℕ × Bytes)) → ℕ → ℕ → Bytes → ℕ → ℕ → Result (List CoapOption)
options_parse_loop parse_header in_data_len zero p i option_number =
    if ltb i in_data_len then (do h ← parse_header p; fault) else ok []
options_parse_loop parse_header in_data_len (suc slots) p i option_number =
    let next = λ (header_len delta len : ℕ) (p₁ : Bytes).
      options_parse_loop parse_header in_data_len slots (drop len p₁)
        ((i + header_len + len) % 2 ^ 16) ((option_number + delta) % 256) in
    if ltb i in_data_len
    then (do
      (header_len, delta, len, p₁) ← parse_header p
      rest ← next header_len delta len p₁
      ok (
          record {
            delta = delta;
            len = len;
            value = if len == 0 then none else some p₁;
            option_number = (option_number + delta) % 256;
          }
          ∷ rest))
    else ok []

-- The header parser of `buf2options`: the extended length is `x + 13` or `x + 269`.
unfoldable pub buf2options_header : Bytes → Result (ℕ × ℕ × ℕ × Bytes)
buf2options_header = option_header_parse (λ x. (x + 13) % 2 ^ 16) (λ x. (x + 269) % 2 ^ 16)

unfoldable pub buf2options : Bytes → ℕ → ℕ → Result (List CoapOption)
buf2options in_data in_data_len slots =
    options_parse_loop buf2options_header in_data_len slots in_data 0 0

-- `while (*tmp_p != 0xFF && payload_len != 0)`: the pointer, the payload length and the length of the
-- options. The byte is read before the length is tested.
unfoldable pub options_end : ℕ → Bytes → ℕ → Result (Bytes × ℕ × ℕ)
options_end payload_len [] options_len = fault
options_end payload_len (b ∷ p) options_len =
    let rest = options_end (payload_len - 1) p ((options_len + 1) % 2 ^ 16) in
    if not (b == 0xFF) && not (payload_len == 0) then rest else ok (b ∷ p, payload_len, options_len)

-- The options, if any, from `tmp_p` on: the options, and the pointer and the length that are left.
unfoldable pub read_options :
    (Bytes → ℕ → Result (List CoapOption)) → Bytes → ℕ → Result (List CoapOption × Bytes × ℕ)
read_options parse p payload_len = do
  b ← load p
  if b == 0xFF || payload_len == 0 then ok ([], p, payload_len) else (do
    (p₁, left, options_len) ← options_end payload_len p 0
    options ← if ltb 0 options_len then parse p options_len else ok []
    ok (options, p₁, left))

-- The token, if any. A token is at most 8 bytes long.
unfoldable pub read_token : ℕ → Bytes → Result Pointer
read_token tkl p =
    if tkl == 0 then ok none else if leb tkl 8 then ok (some p) else err in_pkt_invalid_tkl

-- The four bytes of the header.
unfoldable pub read_header : Bytes → Result CoapHeader
read_header p = do
  b ← load p
  code ← load_at p 1
  high ← load_at p 2
  low ← load_at p 3
  ok (record {
    ver = b / 2 ^ 6 % 4;
    type = b / 2 ^ 4 % 4;
    tkl = b % 16;
    code = code;
    mid = high * 256 + low;
  })

-- `payload_len` is a uint16_t throughout.
unfoldable pub buf2coap : ByteArray → Result CoapPacket
buf2coap input = do
  let p = memory input.ptr
  header ← read_header p
  token ← read_token header.tkl (drop 4 p)
  let len = sub16 (sub16 input.len 4) header.tkl
  (options, p₁, left) ←
      read_options (λ q n. buf2options q n max_option_count) (drop header.tkl (drop 4 p)) len
  ok (record {
    header = header;
    token = token;
    options = options;
    payload_len = left - 1;
    payload = if left == 0 then none else some (drop 1 p₁);
  })
