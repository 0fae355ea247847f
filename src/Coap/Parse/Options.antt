-- ===== src/Coap/Parse/Options.antt =====
-- The option parsers over the wire format that `options_into_byte_string` writes.
use uoscore_uedhoc.Base.{
  ==_iff, Bool-cases, List, OscoreError, Result, [], ap, append_assoc, ap₂, arith, drop-append,
  if◌then◌else◌, in_pkt_invalid_option_delta, in_pkt_invalid_option_len, inl, inr, length,
  length-append, le→ltb, ltb, ltb→le, ltb→lt, lt→ltb, map, none, ok, refl, some, suc, sym, take,
  take-append, zero, ℕ, ◌%◌, ◌*◌, ◌++◌, ◌+◌, ◌/◌, ◌<◌, ◌==◌, ◌^◌, ◌∙◌, ◌∷◌, ◌≡◌, ◌≤◌,
}
use uoscore_uedhoc.Coap.{CoapOption, content}
use uoscore_uedhoc.Coap.Encode.Render.{
  AllEncodable, IsEncodable, extension, largest, length-option_prefix, length-value_bytes, nibble,
  option_prefix, read-value_bytes, render, value_bytes,
}
use uoscore_uedhoc.Coap.Parse.{option_header_parse, options_parse_loop, read_extension, sub16}
use uoscore_uedhoc.Memory.{Bytes, Pointer, memory, read}
use uoscore_uedhoc.Memory.Writes.{read-take}

-- What a parser's extension functions make of an encoded length `len`: the value `got`.
pub record ReadsAs (short long : ℕ → ℕ) (len got : ℕ) : Type 0 where
  pub no_byte : len < 13 → got ≡ len
  pub one_byte : 13 ≤ len → len < 243 → short (len + 13) ≡ got
  pub two_bytes : 243 ≤ len → long (len + 269) ≡ got

abbrev pub AllReadBack : (ℕ → ℕ) → (ℕ → ℕ) → List CoapOption → Type 0
AllReadBack short long [] = Unit
AllReadBack short long (o ∷ os) = ReadsAs short long o.len o.len × AllReadBack short long os

read_extension-extension :
    (short long : ℕ → ℕ) (e : OscoreError) (v got : ℕ) (rest : Bytes)
    → v ≤ largest
    → ReadsAs short long v got
    → read_extension short long e (nibble v) (extension v ++ rest)
      ≡ ok (length (extension v), got, rest)
unfolding read_extension nibble extension
read_extension-extension short long e v got rest h r = elim (Bool-cases (ltb v 13)) [
  | inl small ↦ rw (small, r.no_byte (ltb→lt v 13 small)) (ground arith)
  | inr more ↦ elim (Bool-cases (ltb v 243)) [
    | inl one ↦
        rw (more, one)
          (ap (λ (x : ℕ). ok (1, x, rest)) (r.one_byte (ltb→le v 13 more) (ltb→lt v 243 one)))
    | inr two ↦
        let joined : (v + 269) / 256 * 256 + (v + 269) % 256 ≡ v + 269 = omega arith in
        rw (more, two, joined) (ap (λ (x : ℕ). ok (2, x, rest)) (r.two_bytes (ltb→le v 243 two)))
  ]
]

pub minus-ReadsAs : (v : ℕ) → v ≤ largest → ReadsAs (λ x. sub16 x 13) (λ x. sub16 x 269) v v
minus-ReadsAs v h = record {
  no_byte = λ p. refl;
  one_byte = λ p q. omega arith;
  two_bytes = λ p. omega arith;
}

nibble-lt : (v : ℕ) → nibble v < 15
unfolding nibble
nibble-lt v = ground arith

pub option_header_parse-option_prefix :
    (short long : ℕ → ℕ) (delta len got : ℕ) (rest : Bytes)
    → delta ≤ largest
    → len ≤ largest
    → ReadsAs short long len got
    → option_header_parse short long (option_prefix delta len ++ rest)
      ≡ ok (length (option_prefix delta len), delta, got, rest)
unfolding option_header_parse option_prefix
option_header_parse-option_prefix short long delta len got rest hd hl r =
    let a = nibble-lt delta in
    let b = nibble-lt len in
    let high : (nibble delta * 16 + nibble len) / 16 % 16 ≡ nibble delta = omega (arith, a, b) in
    let low : (nibble delta * 16 + nibble len) % 16 ≡ nibble len = omega (arith, a, b) in
    let l = length-append (extension delta) (extension len) in
    rw
      (
        high,
        append_assoc (extension delta) (extension len) rest,
        read_extension-extension (λ x. sub16 x 13) (λ x. sub16 x 269) in_pkt_invalid_option_delta
            delta delta (extension len ++ rest) hd (minus-ReadsAs delta hd),
        low,
        read_extension-extension short long in_pkt_invalid_option_len len got rest hl r,
      )
      (ap (λ (n : ℕ). ok (n, delta, got, rest)) (omega arith))

-- The option numbers are the running sums of the deltas, kept in a uint8_t.
abbrev pub IsNumbered : ℕ → List CoapOption → Type 0
IsNumbered number [] = Unit
IsNumbered number (o ∷ os) =
    (o.option_number ≡ (number + o.delta) % 256) × IsNumbered ((number + o.delta) % 256) os

-- The options that the parser builds from the wire format of `os`, followed by `rest`: each value
-- points into the buffer.
unfoldable pub parsed : List CoapOption → Bytes → ℕ → List CoapOption
parsed [] rest number = []
parsed (o ∷ os) rest number =
    record {
      delta = o.delta;
      len = o.len;
      value = if o.len == 0 then none else some (value_bytes o ++ (render os ++ rest));
      option_number = (number + o.delta) % 256;
    }
    ∷ parsed os rest ((number + o.delta) % 256)

read-parsed :
    (o : CoapOption) (tail : Bytes)
    → IsEncodable o
    → read (if o.len == 0 then none else some (value_bytes o ++ tail)) o.len ≡ ok (value_bytes o)
read-parsed o tail e = elim (Bool-cases (o.len == 0)) [
  | inl empty ↦
      let z = (==_iff o.len 0).0 empty in rw empty (read_zero none o.len (memory o.value) z)
  | inr full ↦ rw full (
      read-take (some (value_bytes o ++ tail)) o.len
        (omega (arith, length-append (value_bytes o) tail, length-value_bytes o e))
      ∙ ap ok (take-append o.len (value_bytes o) tail (length-value_bytes o e)))
]
  where
    read_zero : (p : Pointer) (n : ℕ) (m : Bytes) → n ≡ 0 → read p n ≡ ok (take n m)
    read_zero p n m z = rw z (unfold read in refl)

-- What is parsed says the same as what was encoded.
pub content-parsed :
    (os : List CoapOption) (rest : Bytes) (number : ℕ)
    → AllEncodable os
    → IsNumbered number os
    → map content (parsed os rest number) ≡ map content os
unfolding parsed
content-parsed [] rest number e n = refl
content-parsed (o ∷ os) rest number e n =
    let v = read-parsed o (render os ++ rest) e.0 ∙ sym (read-value_bytes o e.0) in
    ap₂ ◌∷◌ (λ k. record { delta = o.delta; len = o.len; number = sym n.0 k; value = v k })
      (content-parsed os rest ((number + o.delta) % 256) e.1 n.1)

module _ (short long : ℕ → ℕ) where
  abbrev parse_header : Bytes → Result (ℕ × ℕ × ℕ × Bytes)
  parse_header = option_header_parse short long

  options_parse_step :
      (total slots i number : ℕ) (o : CoapOption) (tail : Bytes)
      → IsEncodable o
      → ReadsAs short long o.len o.len
      → i < total
      → i + length (option_prefix o.delta o.len) + o.len < 2 ^ 16
      → (rest : List CoapOption)
      → options_parse_loop parse_header total slots tail
          (i + length (option_prefix o.delta o.len) + o.len)
          ((number + o.delta) % 256)
        ≡ ok rest
      → options_parse_loop parse_header total
          (suc slots)
          (option_prefix o.delta o.len ++ (value_bytes o ++ tail))
          i
          number
        ≡ ok (
            record {
              delta = o.delta;
              len = o.len;
              value = if o.len == 0 then none else some (value_bytes o ++ tail);
              option_number = (number + o.delta) % 256;
            }
            ∷ rest)
  unfolding options_parse_loop
  options_parse_step total slots i number o tail e r more fits rest later =
      let no_wrap : (i + length (option_prefix o.delta o.len) + o.len) % 2 ^ 16
          ≡ i + length (option_prefix o.delta o.len) + o.len =
        omega arith in
      let skip = drop-append o.len (value_bytes o) tail (length-value_bytes o e) in
      rw (
        lt→ltb i total more,
        option_header_parse-option_prefix short long o.delta o.len o.len (value_bytes o ++ tail)
            e.delta_fits e.len_fits r,
        no_wrap,
        skip,
        later,
      )

  pub options_parse_loop-render :
      (os : List CoapOption) (total slots i number : ℕ) (rest : Bytes)
      → AllEncodable os
      → AllReadBack short long os
      → length os ≤ slots
      → total < 2 ^ 16
      → i + length (render os) ≡ total
      → options_parse_loop parse_header total slots (render os ++ rest) i number
        ≡ ok (parsed os rest number)
  unfolding render parsed
  options_parse_loop-render [] total zero i number rest e r s h t =
      unfold options_parse_loop in rw (le→ltb i total (omega arith))
  options_parse_loop-render [] total (suc slots) i number rest e r s h t =
      unfold options_parse_loop in rw (le→ltb i total (omega arith))
  options_parse_loop-render (o ∷ os) total zero i number rest e r s h t = absurd (omega arith)
  options_parse_loop-render (o ∷ os) total (suc slots) i number rest e r s h t =
      let hd = option_prefix o.delta o.len in
      let l₁ = length-append hd (value_bytes o ++ render os) in
      let l₂ = length-append (value_bytes o) (render os) in
      let l₃ = length-value_bytes o e.0 in
      let l₄ = length-option_prefix o.delta o.len in
      rw
        (
          append_assoc hd (value_bytes o ++ render os) rest,
          append_assoc (value_bytes o) (render os) rest,
        )
        (options_parse_step total slots i number o (render os ++ rest) e.0 r.0 (omega arith)
          (omega arith) (parsed os rest ((number + o.delta) % 256))
          (options_parse_loop-render os total slots (i + length hd + o.len)
            ((number + o.delta) % 256) rest e.1 r.1 (omega arith) h (omega arith)))
