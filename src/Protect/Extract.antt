-- ===== src/Protect/Extract.antt =====
-- `e_u_options_extract` of modules/oscore/src/coap2oscore.c: the options to encrypt and the others.
-- The output arrays have as many slots as the input has options, so no store leaves them.
pub mod Split
pub mod Length
use uoscore_uedhoc.Base.{List, [], if◌then◌else◌, leb, ltb, ℕ, ◌%◌, ◌&&◌, ◌+◌, ◌^◌, ◌∷◌}
use uoscore_uedhoc.Coap.{CoapOption, CoapPacket}
use uoscore_uedhoc.Coap.Parse.{sub16}
use uoscore_uedhoc.OptionClass.{is_class_e}

pub record Extracted : Type 0 where
  pub e_options : List CoapOption
  pub e_options_len : ℕ
  pub u_options : List CoapOption

-- `delta_extra_bytes` and `len_extra_bytes`: the tests are `> 13` here, and `>= 13` in the encoder.
unfoldable pub counted_extra_bytes : ℕ → ℕ
counted_extra_bytes v = if ltb 13 v && ltb v 243 then 1 else if leb 243 v then 2 else 0

abbrev pub renumbered : CoapOption → ℕ → ℕ → CoapOption
renumbered o delta number = record {
  delta = delta;
  len = o.len;
  value = o.value;
  option_number = number % 256;
}

abbrev pub add_e : CoapOption → Extracted → Extracted
add_e o r = record r { e_options = o ∷ r.e_options }

abbrev pub add_u : CoapOption → Extracted → Extracted
add_u o r = record r { u_options = o ∷ r.u_options }

-- The loop: `nr` and `e_len` are uint16_t, the two sums uint8_t.
unfoldable pub extract_loop : List CoapOption → ℕ → ℕ → ℕ → ℕ → Extracted
extract_loop [] nr e_sum u_sum e_len = record {
  e_options = [];
  e_options_len = e_len;
  u_options = [];
}
extract_loop (o ∷ os) nr e_sum u_sum e_len =
    let number = (nr + o.delta) % 2 ^ 16 in
    let size = 1 + counted_extra_bytes o.delta + counted_extra_bytes o.len + o.len in
    let e_delta = sub16 number e_sum in
    let u_delta = sub16 number u_sum in
    let protected =
      extract_loop os number ((e_sum + e_delta) % 256) u_sum ((e_len + size) % 2 ^ 16) in
    let open_one = extract_loop os number e_sum ((u_sum + u_delta) % 256) e_len in
    if is_class_e number
    then add_e (renumbered o e_delta number) protected
    else add_u (renumbered o u_delta number) open_one

unfoldable pub e_u_options_extract : CoapPacket → Extracted
e_u_options_extract in_o_coap = extract_loop in_o_coap.options 0 0 0 0
