-- ===== src/Coap/Encode/Render.antt =====
-- What `options_into_byte_string` of modules/oscore/src/coap.c writes, in plain arithmetic. An extended delta or
-- length is the value plus 13 or 269 here, as in the code, where RFC 7252 subtracts.
use uoscore_uedhoc.Base.{
  ==_iff, List, [], holds_below, holds_below_sound, ap, append-nil, append_assoc, ap₂, arith,
  bit_or, if◌then◌else◌, length, length-append, length-take, ltb, ok, refl, take, true, ℕ, ◌%◌, ◌*◌,
  ◌++◌, ◌+◌, ◌/◌, ◌<◌, ◌==◌, ◌^◌, ◌∙◌, ◌∷◌, ◌≡◌, ◌≤◌,
}
use uoscore_uedhoc.Coap.{CoapOption}
use uoscore_uedhoc.Coap.Encode.{option_header, options_into_byte_string, options_loop}
use uoscore_uedhoc.Memory.{Buffer, Bytes, memory, read, room, start}
use uoscore_uedhoc.Memory.Writes.{memcpy_s-ok, put-ok, read-take, room-eq}

nibbles_table : holds_below (λ x. bit_or (x / 16 * 16) (x % 16) == x) 256 ≡ true
unfolding holds_below
nibbles_table = refl

-- Two half bytes that are or-ed together do not overlap.
pub or_nibbles : (a b : ℕ) → a < 16 → b < 16 → bit_or (a * 16) b ≡ a * 16 + b
or_nibbles a b ha hb =
    let x = a * 16 + b in
    let high : x / 16 ≡ a = omega arith in
    let low : x % 16 ≡ b = omega arith in
    rw (high, low) at ((==_iff _ x).0 (holds_below_sound _ 256 nibbles_table x (omega arith)))

-- The half byte and the bytes behind it that stand for a delta or a length.
unfoldable pub nibble : ℕ → ℕ
nibble v = if ltb v 13 then v else if ltb v 243 then 13 else 14

unfoldable pub extension : ℕ → Bytes
extension v =
    if ltb v 13
    then []
    else if ltb v 243
    then (v + 13) ∷ []
    else ((v + 269) / 256) ∷ ((v + 269) % 256) ∷ []

unfoldable pub option_prefix : ℕ → ℕ → Bytes
option_prefix delta len = (nibble delta * 16 + nibble len) ∷ (extension delta ++ extension len)

-- The largest value that a two-byte extension can hold.
abbrev pub largest : ℕ
largest = 65266

pub option_header-option_prefix :
    (delta len : ℕ)
    → delta ≤ largest
    → len ≤ largest
    → option_header delta len ≡ ok (option_prefix delta len)
unfolding option_header option_prefix nibble extension
option_header-option_prefix delta len hd hl = ground (arith, or_nibbles (nibble delta) (nibble len))

-- The value of an option: the first `len` bytes at its pointer.
abbrev pub value_bytes : CoapOption → Bytes
value_bytes o = take o.len (memory o.value)

-- An option that can be encoded: no field too large, and a value that is there.
pub record IsEncodable (o : CoapOption) : Type 0 where
  pub delta_fits : o.delta ≤ largest
  pub len_fits : o.len ≤ largest
  pub value_there : o.len ≤ length (memory o.value)

abbrev pub AllEncodable : List CoapOption → Type 0
AllEncodable [] = Unit
AllEncodable (o ∷ os) = IsEncodable o × AllEncodable os

unfoldable pub render : List CoapOption → Bytes
render [] = []
render (o ∷ os) = option_prefix o.delta o.len ++ (value_bytes o ++ render os)

pub read-value_bytes : (o : CoapOption) → IsEncodable o → read o.value o.len ≡ ok (value_bytes o)
read-value_bytes o e = read-take o.value o.len e.value_there

pub length-value_bytes : (o : CoapOption) → IsEncodable o → length (value_bytes o) ≡ o.len
length-value_bytes o e = omega (arith, length-take o.len (memory o.value), e.value_there)

pub length-option_prefix :
    (delta len : ℕ)
    → (1 ≤ length (option_prefix delta len)) × (length (option_prefix delta len) ≤ 5)
unfolding option_prefix extension
length-option_prefix delta len = ground arith

-- One round of the loop writes the header and the value.
options_loop_step :
    (capacity out_len : ℕ) (o : CoapOption) (os : List CoapOption) (b : Buffer)
    → IsEncodable o
    → b.size ≡ capacity
    → capacity < 2 ^ 32
    → out_len ≡ length b.bytes
    → length b.bytes + (length (option_prefix o.delta o.len) + o.len) ≤ capacity
    → options_loop capacity (o ∷ os) out_len b
      ≡ options_loop capacity os
          (length b.bytes + length (option_prefix o.delta o.len) + o.len)
          (record b { bytes = (b.bytes ++ option_prefix o.delta o.len) ++ value_bytes o })
unfolding options_loop
options_loop_step capacity out_len o os b e hb hc hn fits =
    let h = option_prefix o.delta o.len in
    let c = length-append b.bytes h in
    let free = room-eq capacity (length (b.bytes ++ h)) (omega arith) (omega arith) in
    let b₁ = record b { bytes = b.bytes ++ h } in
    rw
      (
        option_header-option_prefix o.delta o.len e.delta_fits e.len_fits,
        put-ok b h (omega arith),
        memcpy_s-ok b₁ (room capacity (length (b.bytes ++ h))) o.value o.len (value_bytes o)
            (read-value_bytes o e) (omega (arith, free)) (omega arith),
      )
      (ap (λ n. options_loop capacity os n (record b₁ { bytes = b₁.bytes ++ value_bytes o }))
        (omega arith))

pub options_loop-render :
    (os : List CoapOption) (capacity out_len : ℕ) (b : Buffer)
    → AllEncodable os
    → b.size ≡ capacity
    → capacity < 2 ^ 32
    → out_len ≡ length b.bytes
    → length b.bytes + length (render os) ≤ capacity
    → options_loop capacity os out_len b
      ≡ ok (length b.bytes + length (render os), record b { bytes = b.bytes ++ render os })
unfolding render
options_loop-render [] capacity out_len b e hb hc hn fits =
    unfold options_loop in rw append-nil (ground arith)
options_loop-render (o ∷ os) capacity out_len b e hb hc hn fits =
    let h = option_prefix o.delta o.len in
    let v = value_bytes o in
    let lv = length-value_bytes o e.0 in
    let l₁ = length-append h (v ++ render os) in
    let l₂ = length-append v (render os) in
    let l₃ = length-append b.bytes h in
    let l₄ = length-append (b.bytes ++ h) v in
    options_loop_step capacity out_len o os b e.0 hb hc hn (omega arith)
    ∙ options_loop-render os capacity _ (record b { bytes = (b.bytes ++ h) ++ v }) e.1 hb hc
        (omega arith) (omega arith)
    ∙ ap₂ (λ n bs. ok (n, record b { bytes = bs })) (omega arith)
        (append_assoc (b.bytes ++ h) v (render os) ∙ append_assoc b.bytes h (v ++ render os))

-- With room for the whole wire format, the options are encoded, the byte string gets its length, and
-- no store leaves the array.
pub options_into_byte_string-render :
    (os : List CoapOption) (capacity : ℕ)
    → AllEncodable os
    → capacity < 2 ^ 32
    → length (render os) ≤ capacity
    → options_into_byte_string os capacity
      ≡ ok (length (render os), record { size = capacity; bytes = render os })
unfolding options_into_byte_string
options_into_byte_string-render os capacity e hc fits =
    options_loop-render os capacity 0 (start capacity) e refl hc refl (omega arith)
    ∙ ap (λ n. ok (n, record { size = capacity; bytes = render os })) (omega arith)
