-- ===== src/Unprotect/Reorder.antt =====
-- `options_from_oscore_reorder` and `o_coap_pkg_generate` of modules/oscore/src/oscore2coap.c: the options
-- of both kinds in one packet.
pub mod Sort
pub mod Lost
use uoscore_uedhoc.Base.{
  List, Result, [], drop, fault, if◌then◌else◌, leb, length, ltb, map, none, ok, replicate, suc,
  zero, ℕ, ◌%◌, ◌++◌, ◌+◌, ◌-◌, ◌==◌, ◌>>=◌, ◌^◌, ◌∷◌,
}
use uoscore_uedhoc.Coap.{CoapOption, CoapPacket, max_option_count}
use uoscore_uedhoc.Coap.Parse.{sub16}
use uoscore_uedhoc.Memory.{ByteArray}
use uoscore_uedhoc.OptionClass.{coap_option_oscore}
use uoscore_uedhoc.Unprotect.Payload.{oscore_decrypted_payload_parser}

-- The numbers of the options but OSCORE's.
unfoldable pub other_numbers : List CoapOption → List ℕ
other_numbers [] = []
other_numbers (o ∷ os) =
    if o.option_number == coap_option_oscore
    then other_numbers os
    else o.option_number ∷ other_numbers os

-- The array of `size` numbers, zeroed, with the numbers stored one after the other.
unfoldable pub numbers_array : ℕ → List ℕ → Result (List ℕ)
numbers_array size ns =
    if leb (length ns) size then ok (ns ++ replicate (size - length ns) 0) else fault

-- The inner loop: `x` stands at position `i` and is exchanged with every smaller number behind it.
unfoldable pub exchange_pass : ℕ → List ℕ → ℕ × List ℕ
exchange_pass x [] = (x, [])
exchange_pass x (y ∷ ys) =
    let (least, rest) = exchange_pass (if ltb y x then y else x) ys in
    (least, (if ltb y x then x else y) ∷ rest)

-- The outer loop over the `rounds` positions left.
unfoldable pub exchange_sort : ℕ → List ℕ → List ℕ
exchange_sort zero ns = ns
exchange_sort (suc rounds) [] = []
exchange_sort (suc rounds) (x ∷ xs) =
    let (least, rest) = exchange_pass x xs in least ∷ exchange_sort rounds rest

abbrev pub load_option : List CoapOption → Result CoapOption
load_option [] = fault
load_option (o ∷ _) = ok o

-- The copy loop over the numbers. `us` and `es` are the arrays from the two indices on; an option goes to
-- one of the `slots` left of the output, with its delta to the sum so far, a uint16_t.
unfoldable pub copy_loop :
    List ℕ → List CoapOption → List CoapOption → ℕ → ℕ → Result (List CoapOption)
copy_loop [] us es slots sum = ok []
copy_loop (n ∷ ns) us es slots sum =
    let store = λ (o : CoapOption) (rest : Result (List CoapOption)).
      if slots == 0
      then fault
      else (do os ← rest; ok (record o { delta = sub16 o.option_number sum } ∷ os)) in
    let next = λ (o : CoapOption). (sum + sub16 o.option_number sum) % 2 ^ 16 in
    let with_u = λ (u : CoapOption). store u (copy_loop ns (drop 1 us) es (slots - 1) (next u)) in
    let with_e = λ (e : CoapOption). store e (copy_loop ns us (drop 1 es) (slots - 1) (next e)) in
    let skipped = copy_loop ns us es slots sum in
    do
      u ← load_option us
      if n == u.option_number
          then with_u u
          else (do e ← load_option es; if n == e.option_number then with_e e else skipped)

-- `u_behind` and `e_behind` are the slots of the two arrays behind the options that are set. The two counts
-- and their sum are uint8_t; with no option at all the sum less 1 wraps, and the reads leave the arrays.
unfoldable pub options_from_oscore_reorder :
    List CoapOption → List CoapOption → List CoapOption → List CoapOption → Result (List CoapOption)
options_from_oscore_reorder us u_behind es e_behind =
    let total = length us + length es in
    if total == 0 then fault else if total == 1 then ok [] else (do
      numbers ← numbers_array (total - 1) (other_numbers us ++ map (λ e. e.option_number) es)
      copy_loop (exchange_sort (total - 1) numbers) (us ++ u_behind) (es ++ e_behind)
          max_option_count 0)

-- `o_coap_pkg_generate`
unfoldable pub o_coap_pkg_generate :
    ByteArray → CoapPacket → List CoapOption → List CoapOption → Result CoapPacket
o_coap_pkg_generate decrypted_payload in_oscore_packet u_behind e_behind = do
  (code, e_options, payload) ← oscore_decrypted_payload_parser decrypted_payload
  options ← options_from_oscore_reorder in_oscore_packet.options u_behind e_options e_behind
  ok (record {
    header = record in_oscore_packet.header { code = code };
    token = if in_oscore_packet.header.tkl == 0 then none else in_oscore_packet.token;
    options = options;
    payload_len = payload.len;
    payload = if payload.len == 0 then none else payload.ptr;
  })
