-- ===== src/Protect/OptionValue/Generate.antt =====
-- `oscore_option_generate` writes the value of the OSCORE option as RFC 8613 lays it out.
use uoscore_uedhoc.Base.{
  ==_iff, Bool-cases, [], ap, append_assoc, arith, bit_or, drop, false, holds_below_sound,
  if◌then◌else◌, inl, inr, length, length-append, length-drop, length-replicate, le→ltb, ok, refl,
  replicate, some, suc, sym, ℕ, ◌%◌, ◌++◌, ◌+◌, ◌-◌, ◌<◌, ◌==◌, ◌∙◌, ◌∷◌, ◌≡◌, ◌≤◌,
}
use uoscore_uedhoc.Memory.{ByteArray, Bytes, read, room}
use uoscore_uedhoc.Memory.Writes.{length-read, room-eq}
use uoscore_uedhoc.Protect.OptionValue.{
  get_oscore_opt_val_len, memcpy_s_at, or_first, oscore_option_generate, write_kid_context,
}
use uoscore_uedhoc.Protect.OptionValue.Layout.{
  context_field, flags, memcpy_s_at-append, option_value, or_kid_table, write_kid_context-append,
  write_piv-append,
}

nil-of-length : (bs : Bytes) → length bs ≡ 0 → bs ≡ []
nil-of-length [] h = refl
nil-of-length (b ∷ bs) h = absurd (omega arith)

cons-of-length : (bs : Bytes) → 0 < length bs → (b : ℕ) × (bs' : Bytes) × (bs ≡ b ∷ bs')
cons-of-length [] h = absurd (omega arith)
cons-of-length (b ∷ bs) h = (b, bs, refl)

context_field-cons : (bs : Bytes) → 0 < length bs → context_field bs ≡ length bs ∷ bs
context_field-cons [] h = absurd (omega arith)
context_field-cons (b ∷ bs) h = refl

length-context_field :
    (bs : Bytes) → length (context_field bs) ≡ (if length bs == 0 then 0 else 1 + length bs)
length-context_field [] = refl
length-context_field (b ∷ bs) = ground arith

-- The KID, if it is not empty, behind what is written.
write_kid-append :
    (front back kb : Bytes) (offset dest_size : ℕ) (kid : ByteArray)
    → length front ≡ offset
    → read kid.ptr kid.len ≡ ok kb
    → kid.len ≤ dest_size
    → kid.len ≤ length back
    → (if kid.len == 0
        then ok (front ++ back)
        else memcpy_s_at (front ++ back) offset dest_size kid)
      ≡ ok (front ++ (kb ++ drop kid.len back))
write_kid-append front back kb offset dest_size kid at there room_left fits =
    elim (Bool-cases (kid.len == 0)) [
      | inl none_there ↦
          let z = (==_iff kid.len 0).0 none_there in
          let n = nil-of-length kb (length-read kid.ptr kid.len there ∙ z) in rw (none_there, n, z)
      | inr some_there ↦
          rw some_there
            (memcpy_s_at-append front back kb offset dest_size kid at there room_left fits)
    ]

module _ (piv kid kid_context : ByteArray) (pb kb cb buf : Bytes)
    (hp : read piv.ptr piv.len ≡ ok pb) (hk : read kid.ptr kid.len ≡ ok kb)
    (hc : read kid_context.ptr kid_context.len ≡ ok cb) (pos : 1 ≤ piv.len) (small : piv.len ≤ 5)
    (short : kid.len ≤ 7) (few : kid_context.len ≤ 8) (size : length buf ≡ 22) where
  abbrev pub Generated : Type 0
  Generated =
      (rest : Bytes) × (oscore_option_generate piv kid kid_context
          (get_oscore_opt_val_len piv kid kid_context) buf
        ≡ ok (some (option_value pb cb kb ++ rest)))

  generated_plain : kid_context.len ≡ 0 → Generated
  unfolding get_oscore_opt_val_len oscore_option_generate write_kid_context or_first
  generated_plain z =
      let k = piv.len + kid.len in
      let len : get_oscore_opt_val_len piv kid kid_context ≡ suc k =
        unfold get_oscore_opt_val_len in ground arith in
      let tail = replicate k 0 ++ drop (suc k) buf in
      let lt : length tail ≡ 21 = omega (
        arith,
        length-append (replicate k 0) (drop (suc k) buf),
        length-replicate k (let n : ℕ = 0 in n),
        length-drop (suc k) buf,
      ) in
      let lp = length-read piv.ptr piv.len hp in
      let w₁ =
        write_piv-append piv pb tail (suc k) hp pos small (omega arith) (omega arith)
          (omega arith) in
      let both = holds_below_sound _ 6 or_kid_table piv.len (omega arith) in
      let first : bit_or piv.len 8 % 256 ≡ piv.len + 8 = ground arith in
      let c = nil-of-length cb (length-read kid_context.ptr kid_context.len hc ∙ z) in
      let fits = le→ltb (length buf) (suc k) (omega arith) in
      let nonzero : (suc k == 0) ≡ false = ground arith in
      let back = drop piv.len tail in
      let w₃ =
        write_kid-append ((piv.len + 8) ∷ pb) back kb (1 + piv.len) (room (suc k) (1 + piv.len)) kid
          (omega arith) hk
          (omega (arith, room-eq (suc k) (1 + piv.len) (omega arith) (omega arith)))
          (omega (arith, length-drop piv.len tail)) in
      (
        drop kid.len back,
        rw (len, nonzero, fits, w₁, z, first, w₃, c)
            (ap (λ (n : ℕ). ok (some (n ∷ (pb ++ (kb ++ drop kid.len back)))))
                (let e : piv.len + 8 ≡ length pb + 0 + 8 = omega arith in e)
              ∙ ap (λ (m : Bytes). ok (some (flags (length pb) 0 ∷ m)))
                  (sym (append_assoc pb kb _))),
      )

  -- `old ∷ back` is what the array holds behind the Partial IV.
  generated_from :
      (k old : ℕ) (back : Bytes)
      → 0 < kid_context.len
      → k ≡ piv.len + 1 + kid_context.len + kid.len
      → drop piv.len (replicate k 0 ++ drop (suc k) buf) ≡ old ∷ back
      → Generated
  unfolding oscore_option_generate or_first
  generated_from k old back some_context k_is view =
      let len : get_oscore_opt_val_len piv kid kid_context ≡ suc k =
        unfold get_oscore_opt_val_len in ground arith in
      let tail = replicate k 0 ++ drop (suc k) buf in
      let lt : length tail ≡ 21 = omega (
        arith,
        length-append (replicate k 0) (drop (suc k) buf),
        length-replicate k (let n : ℕ = 0 in n),
        length-drop (suc k) buf,
      ) in
      let lp = length-read piv.ptr piv.len hp in
      let lc = length-read kid_context.ptr kid_context.len hc in
      let w₁ =
        write_piv-append piv pb tail (suc k) hp pos small (omega arith) (omega arith)
          (omega arith) in
      let lb : length (drop piv.len tail) ≡ suc (length back) = ap length view in
      let left : suc (length back) ≡ 21 - piv.len = omega (arith, length-drop piv.len tail) in
      let w₂ =
        write_kid_context-append kid_context cb pb back piv.len old (suc k) piv.len hc (omega arith)
          few (omega arith) lp (omega arith) (omega arith) (omega arith) in
      let both = holds_below_sound _ 6 or_kid_table piv.len (omega arith) in
      let first : bit_or (piv.len + 16) 8 % 256 ≡ piv.len + 16 + 8 = ground arith in
      let nonzero : (suc k == 0) ≡ false = ground arith in
      let fits = le→ltb (length buf) (suc k) (omega arith) in
      let back₂ = drop kid_context.len back in
      let front = (piv.len + 16 + 8) ∷ (pb ++ (kid_context.len ∷ cb)) in
      let offset = 1 + piv.len + 1 + kid_context.len in
      let split : pb ++ (kid_context.len ∷ (cb ++ back₂))
          ≡ (pb ++ (kid_context.len ∷ cb)) ++ back₂ =
        sym (append_assoc pb (kid_context.len ∷ cb) back₂) in
      let w₃ =
        write_kid-append front back₂ kb offset (room (suc k) offset) kid
          (omega (arith, length-append pb (kid_context.len ∷ cb))) hk
          (omega (arith, room-eq (suc k) offset (omega arith) (omega arith)))
          (omega (arith, length-drop kid_context.len back)) in
      let field_is : context_field cb ≡ kid_context.len ∷ cb =
        context_field-cons cb (omega arith) ∙ ap (λ (n : ℕ). n ∷ cb) lc in
      let flag : (length cb == 0) ≡ false = ground arith in
      (
        drop kid.len back₂,
        rw (len, nonzero, fits, w₁, view, w₂, first, split, w₃, flag, field_is, lp)
            (ap (λ (m : Bytes). ok (some ((piv.len + 16 + 8) ∷ m)))
              (append_assoc pb (kid_context.len ∷ cb) (kb ++ drop kid.len back₂)
                ∙ sym (
                    append_assoc pb ((kid_context.len ∷ cb) ++ kb) (drop kid.len back₂)
                    ∙ ap (λ (m : Bytes). pb ++ m)
                        (append_assoc (kid_context.len ∷ cb) kb (drop kid.len back₂))))),
      )

  generated_context : 0 < kid_context.len → Generated
  generated_context some_context =
      let k = piv.len + 1 + kid_context.len + kid.len in
      let tail = replicate k 0 ++ drop (suc k) buf in
      let (old, back, view) = cons-of-length (drop piv.len tail) (
        omega (
          arith,
          length-append (replicate k 0) (drop (suc k) buf),
          length-drop (suc k) buf,
          length-replicate k (let n : ℕ = 0 in n),
          length-drop piv.len tail,
        )) in
      generated_from k old back some_context refl view

  value_length : get_oscore_opt_val_len piv kid kid_context ≡ length (option_value pb cb kb)
  unfolding get_oscore_opt_val_len
  value_length = ground (
    arith,
    length-read piv.ptr piv.len hp,
    length-read kid.ptr kid.len hk,
    length-read kid_context.ptr kid_context.len hc,
    length-append pb (context_field cb ++ kb),
    length-append (context_field cb) kb,
    length-context_field cb,
  )

  -- For a Partial IV of 1 to 5 bytes, a KID of at most 7 and a KID context of at most 8, and the buffer of 22
  -- bytes, the OSCORE option gets the value of RFC 8613, in an array as long as `get_oscore_opt_val_len`
  -- says.
  pub oscore_option_generate-option_value :
      (rest : Bytes) × (oscore_option_generate piv kid kid_context
          (get_oscore_opt_val_len piv kid kid_context)
          buf
        ≡ ok (some (option_value pb cb kb ++ rest)))
      × (get_oscore_opt_val_len piv kid kid_context ≡ length (option_value pb cb kb))
  oscore_option_generate-option_value = elim (Bool-cases (kid_context.len == 0)) [
    | inl none_there ↦
        let z = (==_iff kid_context.len 0).0 none_there in
        let (rest, made) = generated_plain z in (rest, made, value_length)
    | inr some_there ↦
        let (rest, made) = generated_context (let p : 0 < kid_context.len = ground arith in p) in
        (rest, made, value_length)
  ]
