-- ===== src/Coap/Serialize/Standard.antt =====
-- What `coap2buf` of modules/oscore/src/coap.c writes against the message format of RFC 7252.
use uoscore_uedhoc.Base.{
  List, [], arith, false, if◌then◌else◌, length, ltb, lt→ltb, ok, refl, suc, take, zero, ℕ, ◌%◌,
  ◌*◌, ◌++◌, ◌+◌, ◌-◌, ◌/◌, ◌<◌, ◌==◌, ◌^◌, ◌∷◌, ◌≡◌, ◌≤◌,
}
use uoscore_uedhoc.Coap.{CoapOption, CoapPacket}
use uoscore_uedhoc.Coap.Encode.Render.{extension, nibble, option_prefix, render}
use uoscore_uedhoc.Coap.Serialize.{coap2buf}
use uoscore_uedhoc.Coap.Serialize.Wire.{IsWritable, coap2buf-wire, header_wire, payload_wire, wire}
use uoscore_uedhoc.Memory.{Bytes, Pointer, memory}

-- The half byte for an option delta or length of RFC 7252, section 3.1, and the extended value behind it, from
-- which 13 or 269 is subtracted.
standard_nibble : ℕ → ℕ
standard_nibble v = if ltb v 13 then v else if ltb v 269 then 13 else 14

standard_extension : ℕ → Bytes
standard_extension v =
    if ltb v 13
    then []
    else if ltb v 269
    then (v - 13) ∷ []
    else (v - 269) / 256 ∷ (v - 269) % 256 ∷ []

standard_options : List CoapOption → Bytes
unfolding standard_nibble standard_extension
standard_options [] = []
standard_options (o ∷ os) =
    (standard_nibble o.delta * 16 + standard_nibble o.len)
    ∷ ((standard_extension o.delta ++ standard_extension o.len)
        ++ (take o.len (memory o.value) ++ standard_options os))

standard_payload : ℕ → Pointer → Bytes
standard_payload n payload = if n == 0 then [] else 0xFF ∷ take n (memory payload)

-- The message format of RFC 7252, section 3.
unfoldable pub standard_message : CoapPacket → Bytes
unfolding standard_options standard_payload
standard_message p =
    (p.header.ver * 64 + p.header.type * 16 + p.header.tkl)
    ∷ p.header.code
    ∷ p.header.mid / 256
    ∷ p.header.mid % 256
    ∷ (take p.header.tkl (memory p.token)
        ++ (standard_options p.options ++ standard_payload p.payload_len p.payload))

-- Deltas and lengths that need no extended value.
abbrev pub AllUnextended : List CoapOption → Type 0
AllUnextended [] = Unit
AllUnextended (o ∷ os) = (o.delta < 13) × (o.len < 13) × AllUnextended os

render-standard_options :
    (os : List CoapOption) → AllUnextended os → render os ≡ standard_options os
unfolding render standard_options option_prefix nibble extension
render-standard_options [] small = refl
render-standard_options (o ∷ os) (delta_small, len_small, small) =
    let d = lt→ltb o.delta 13 delta_small in
    let l = lt→ltb o.len 13 len_small in rw (d, l, render-standard_options os small) refl

payload_wire-standard_payload :
    (n : ℕ) (payload : Pointer) → payload_wire n payload ≡ standard_payload n payload
unfolding payload_wire standard_payload
payload_wire-standard_payload zero payload = refl
payload_wire-standard_payload (suc n) payload =
    let nonzero : (suc n == 0) ≡ false = ground arith in rw nonzero refl

-- A packet whose fields are in range, and whose option deltas and lengths are all below 13, is written whole into
-- an array that is long enough, in the message format of RFC 7252, and `*out_byte_string_len` becomes the number of
-- bytes written.
pub coap2buf-standard_message :
    (p : CoapPacket) (capacity : ℕ)
    → IsWritable p
    → AllUnextended p.options
    → capacity < 2 ^ 16
    → length (standard_message p) ≤ capacity
    → coap2buf p capacity ≡ ok (length (standard_message p), standard_message p)
coap2buf-standard_message p capacity w small hc fits =
    let same : wire p ≡ standard_message p =
      unfold wire header_wire standard_message in
      rw
        (
          render-standard_options p.options small,
          payload_wire-standard_payload p.payload_len p.payload,
        )
        refl in
    rw (← same) (coap2buf-wire p capacity w hc (rw same fits))
