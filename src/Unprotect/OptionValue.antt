-- ===== src/Unprotect/OptionValue.antt =====
-- `oscore_option_parser` of modules/oscore/src/oscore2coap.c: find the OSCORE option and take its value
-- apart.
pub mod RoundTrip
use uoscore_uedhoc.Base.{
  Bool, List, Result, [], drop, err, false, if◌then◌else◌, in_pkt_invalid_piv, none, ok, some, true,
  ℕ, ◌%◌, ◌+◌, ◌-◌, ◌/◌, ◌==◌, ◌>>=◌, ◌^◌, ◌||◌, ◌∷◌,
}
use uoscore_uedhoc.Coap.{CoapOption, CoapPacket, CompressedOscoreOption}
use uoscore_uedhoc.Memory.{ByteArray, Bytes, load, memory, null_array}
use uoscore_uedhoc.OptionClass.{coap_option_oscore}

-- `switch (out->n)`: the PIV, the pointer behind it, and what is left for the KID, a uint8_t. Without a
-- PIV the field `len` keeps the value that it has, which is `old_len`.
unfoldable pub parse_piv : ℕ → ℕ → Bytes → ℕ → Result (ByteArray × Bytes × ℕ)
parse_piv n old_len p kid_len =
    if n == 0
    then ok (record { len = old_len; ptr = none }, p, kid_len)
    else if n == 6 || n == 7
    then err in_pkt_invalid_piv
    else ok (record { len = n; ptr = some p }, drop n p, (kid_len + 256 - n) % 256)

unfoldable pub parse_kid_context : ℕ → Bytes → ℕ → Result (ByteArray × Bytes × ℕ)
parse_kid_context h p kid_len = if h == 0 then ok (null_array, p, kid_len) else (do
  s ← load p
  ok (
    record { len = s; ptr = some (drop 1 p) },
    drop s (drop 1 p),
    (kid_len + 2 ^ 9 - (s + 1)) % 256,
  ))

-- The value of one OSCORE option. An empty value leaves the three arrays as they are.
unfoldable pub parse_value : CoapOption → CompressedOscoreOption → Result CompressedOscoreOption
parse_value o out = if o.len == 0 then ok (record out { h = 0; k = 0; n = 0 }) else (do
  let p = memory o.value
  b ← load p
  let h = b / 2 ^ 4 % 2
  let k = b / 2 ^ 3 % 2
  let n = b % 8
  (piv, p₁, left₁) ← parse_piv n out.piv.len (drop 1 p) ((o.len % 256 + 255) % 256)
  (kid_context, p₂, left₂) ← parse_kid_context h p₁ left₁
  let kid : ByteArray = if k == 0 then null_array else record { len = left₂; ptr = some p₂ }
  ok (record { h = h; k = k; n = n; piv = piv; kid_context = kid_context; kid = kid }))

-- The loop over the options. The results are `*out` and `*oscore_pkt`; `out` comes in as it was, and the
-- last OSCORE option counts.
unfoldable pub option_parser_loop :
    List CoapOption → CompressedOscoreOption → Bool → Result (CompressedOscoreOption × Bool)
option_parser_loop [] out found = ok (out, found)
option_parser_loop (o ∷ os) out found =
    let here = parse_value o out in
    let next = λ (out' : CompressedOscoreOption). option_parser_loop os out' true in
    let rest = option_parser_loop os out found in
    if o.option_number == coap_option_oscore then (do out' ← here; next out') else rest

unfoldable pub oscore_option_parser :
    CoapPacket → CompressedOscoreOption → Result (CompressedOscoreOption × Bool)
oscore_option_parser packet out = option_parser_loop packet.options out false
