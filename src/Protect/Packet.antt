-- ===== src/Protect/Packet.antt =====
-- `oscore_pkg_generate` of modules/oscore/src/coap2oscore.c: the packet with the OSCORE option among the
-- unprotected ones.
pub mod Order
use uoscore_uedhoc.Base.{
  Bool, List, Result, [], bit_and, false, fault, if◌then◌else◌, leb, length, ltb, none, ok, suc,
  true, zero, ℕ, ◌%◌, ◌+◌, ◌==◌, ◌>>=◌, ◌^◌, ◌∷◌,
}
use uoscore_uedhoc.Coap.{
  CoapOption, CoapPacket, changed, code_class_mask, max_option_count, post, request_class,
}
use uoscore_uedhoc.Coap.Parse.{sub16}
use uoscore_uedhoc.Memory.{Pointer}
use uoscore_uedhoc.OptionClass.{coap_option_oscore}

-- `struct oscore_option`, without its buffer.
pub record OscoreOption : Type 0 where
  pub len : ℕ
  pub value : Pointer

-- The position of the first option whose number is above OSCORE's, from position `i` on.
unfoldable pub oscore_opt_pos : List CoapOption → ℕ → ℕ
oscore_opt_pos [] i = i
oscore_opt_pos (u ∷ us) i =
    let rest = oscore_opt_pos us (i + 1) in
    if ltb coap_option_oscore u.option_number then i else rest

abbrev pub place : ℕ → ℕ → Pointer → ℕ → CoapOption
place sum len value number = record {
  delta = sub16 number sum;
  len = len;
  value = value;
  option_number = number;
}

-- What slot `i` gets, and the unprotected options that are left.
unfoldable pub next_option :
    OscoreOption → Bool → List CoapOption → ℕ → Result (CoapOption × List CoapOption)
next_option oscore true us sum = ok (place sum oscore.len oscore.value coap_option_oscore, us)
next_option oscore false [] sum = fault
next_option oscore false (u ∷ us) sum = ok (place sum u.len u.value u.option_number, us)

-- The loop over the output slots; `rounds` are left, and `sum` is a uint8_t. The array of the packet has
-- 20 slots.
unfoldable pub place_loop :
    OscoreOption → ℕ → ℕ → ℕ → List CoapOption → ℕ → Result (List CoapOption)
place_loop oscore pos zero i us sum = ok []
place_loop oscore pos (suc rounds) i us sum =
    let taken = next_option oscore (i == pos) us sum in
    if leb max_option_count i then fault else (do
      (o, us') ← taken
      rest ← place_loop oscore pos rounds (i + 1) us' ((sum + o.delta) % 256)
      ok (o ∷ rest))

-- POST for a request, Changed for a response.
unfoldable pub outer_code : ℕ → ℕ
outer_code code = if bit_and code code_class_mask == request_class then post else changed

unfoldable pub oscore_pkg_generate :
    CoapPacket → List CoapOption → ℕ → Pointer → OscoreOption → Result CoapPacket
oscore_pkg_generate in_o_coap u_options ciphertext_len ciphertext oscore_option = do
  options ←
      place_loop oscore_option (oscore_opt_pos u_options 0) (length u_options + 1) 0 u_options 0
  ok (record {
    header = record in_o_coap.header { code = outer_code in_o_coap.header.code };
    token = if in_o_coap.header.tkl == 0 then none else in_o_coap.token;
    options = options;
    payload_len = ciphertext_len % 2 ^ 16;
    payload = ciphertext;
  })
