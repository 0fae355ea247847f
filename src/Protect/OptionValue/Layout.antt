-- ===== src/Protect/OptionValue/Layout.antt =====
-- What `oscore_option_generate` writes.
use uoscore_uedhoc.Base.{
  ==_iff, [], ap, append_assoc, arith, bit_or, drop, drop-append, false, holds_below,
  holds_below_sound, if◌then◌else◌, leb, length, length-append, le→ltb, lt→ltb, ok, refl, set, suc,
  sym, take-append, true, zero, ℕ, ◌%◌, ◌&&◌, ◌++◌, ◌+◌, ◌<◌, ◌==◌, ◌^◌, ◌∙◌, ◌∷◌, ◌≡◌, ◌≤◌,
}
use uoscore_uedhoc.Memory.{ByteArray, Bytes, read, room}
use uoscore_uedhoc.Memory.Writes.{room-eq}
use uoscore_uedhoc.Protect.OptionValue.{
  memcpy_s_at, or_first, store_at, write_kid_context, write_piv,
}

-- The first byte, the Partial IV, the KID context behind its length, and the KID.
abbrev pub flags : ℕ → ℕ → ℕ
flags piv_len kid_context_len = piv_len + (if kid_context_len == 0 then 0 else 16) + 8

abbrev pub context_field : Bytes → Bytes
context_field [] = []
context_field (b ∷ bs) = length (b ∷ bs) ∷ b ∷ bs

abbrev pub option_value : Bytes → Bytes → Bytes → Bytes
option_value piv kid_context kid =
    flags (length piv) (length kid_context) ∷ (piv ++ (context_field kid_context ++ kid))

pub memcpy_s_at-append :
    (front back bs : Bytes) (offset dest_size : ℕ) (src : ByteArray)
    → length front ≡ offset
    → read src.ptr src.len ≡ ok bs
    → src.len ≤ dest_size
    → src.len ≤ length back
    → memcpy_s_at (front ++ back) offset dest_size src ≡ ok (front ++ (bs ++ drop src.len back))
unfolding memcpy_s_at
memcpy_s_at-append front back bs offset dest_size src at there room_left fits =
    let a = le→ltb dest_size src.len room_left in
    let t : leb (offset + src.len) (length (front ++ back)) ≡ true =
      ground (arith, length-append front back) in
    rw (a, there, t, take-append offset front back at)
      (ap (λ (m : Bytes). ok (front ++ (bs ++ m)))
        (drop-plus offset src.len (front ++ back)
          ∙ ap (drop src.len) (drop-append offset front back at)))
  where
    drop-nil : (n : ℕ) → ◌≡◌ {A = Bytes} (drop n []) []
    drop-nil zero = refl
    drop-nil (suc n) = refl

    drop-plus : (n m : ℕ) (xs : Bytes) → drop (n + m) xs ≡ drop m (drop n xs)
    drop-plus zero m xs = ap (λ (k : ℕ). drop k xs) (let e : 0 + m ≡ m = omega arith in e)
    drop-plus (suc n) m [] = drop-nil (suc n + m) ∙ sym (drop-nil m)
    drop-plus (suc n) m (x ∷ xs) =
        ap (λ (k : ℕ). drop k (x ∷ xs)) (let e : suc n + m ≡ suc (n + m) = omega arith in e)
        ∙ drop-plus n m xs

store_at-append :
    (front back : Bytes) (offset old b : ℕ)
    → length front ≡ offset
    → store_at (front ++ (old ∷ back)) offset b ≡ ok (front ++ (b ∷ back))
unfolding store_at
store_at-append front back offset old b at =
    let t =
      lt→ltb offset (length (front ++ (old ∷ back)))
        (omega (arith, length-append front (old ∷ back))) in
    rw t (ap ok (set-append front back offset old b at))
  where
    set-append :
        (front back : Bytes) (offset old b : ℕ)
        → length front ≡ offset
        → set (front ++ (old ∷ back)) offset b ≡ front ++ (b ∷ back)
    set-append [] back zero old b at = refl
    set-append [] back (suc n) old b at = absurd (omega arith)
    set-append (x ∷ front) back zero old b at = absurd (omega arith)
    set-append (x ∷ front) back (suc n) old b at =
        ap (◌∷◌ x) (set-append front back n old b (omega arith))

or_zero_table : holds_below (λ x. bit_or 0 x % 256 == x) 6 ≡ true
unfolding holds_below
or_zero_table = refl

or_context_table : holds_below (λ x. bit_or x 0x10 % 256 == x + 16) 6 ≡ true
unfolding holds_below
or_context_table = refl

pub or_kid_table :
    holds_below
      (λ x. (bit_or x 0x08 % 256 == x + 8) && (bit_or (x + 16) 0x08 % 256 == x + 16 + 8))
      6
    ≡ true
unfolding holds_below
or_kid_table = refl

pub write_piv-append :
    (piv : ByteArray) (pb tail : Bytes) (len : ℕ)
    → read piv.ptr piv.len ≡ ok pb
    → 1 ≤ piv.len
    → piv.len ≤ 5
    → piv.len < len
    → len < 2 ^ 64
    → piv.len ≤ length tail
    → write_piv len piv (0 ∷ tail) ≡ ok (piv.len ∷ (pb ++ drop piv.len tail), 1 + piv.len)
unfolding write_piv or_first
write_piv-append piv pb tail len there pos small fits short enough =
    let nonzero : (piv.len == 0) ≡ false = ground arith in
    let byte : piv.len % 256 ≡ piv.len = omega arith in
    let first = (==_iff _ _).0 (holds_below_sound _ 6 or_zero_table piv.len (omega arith)) in
    rw (
      nonzero,
      byte,
      first,
      memcpy_s_at-append (piv.len ∷ []) tail pb 1 (room len 1) piv refl there
          (omega (arith, room-eq len 1 (omega arith) short)) enough,
    )

pub write_kid_context-append :
    (kid_context : ByteArray) (cb front back : Bytes) (x old len n : ℕ)
    → read kid_context.ptr kid_context.len ≡ ok cb
    → 1 ≤ kid_context.len
    → kid_context.len ≤ 8
    → x < 6
    → length front ≡ n
    → length front + 2 + kid_context.len ≤ len
    → len < 2 ^ 64
    → kid_context.len ≤ length back
    → write_kid_context len kid_context (x ∷ (front ++ (old ∷ back))) (1 + n)
      ≡ ok (
        (x + 16) ∷ (front ++ (kid_context.len ∷ (cb ++ drop kid_context.len back))),
        1 + n + 1 + kid_context.len,
      )
unfolding write_kid_context or_first
write_kid_context-append kid_context cb front back x old len n there pos small byte at fits short
      enough =
    let nonzero : (kid_context.len == 0) ≡ false = ground arith in
    let low : kid_context.len % 256 ≡ kid_context.len = omega arith in
    let first = (==_iff _ _).0 (holds_below_sound _ 6 or_context_table x byte) in
    let offset : length ((x + 16) ∷ front) ≡ 1 + n = omega arith in
    let named = ((x + 16) ∷ front) ++ (kid_context.len ∷ []) in
    let split : ((x + 16) ∷ front) ++ (kid_context.len ∷ back) ≡ named ++ back =
      sym (append_assoc ((x + 16) ∷ front) (kid_context.len ∷ []) back) in
    rw (
      nonzero,
      low,
      first,
      store_at-append ((x + 16) ∷ front) back (1 + n) old kid_context.len offset,
      split,
      memcpy_s_at-append named back cb (1 + n + 1) (room len (1 + n + 1)) kid_context
          (omega (arith, length-append ((x + 16) ∷ front) (kid_context.len ∷ []))) there
          (omega (arith, room-eq len (1 + n + 1) (omega arith) short)) enough,
      append_assoc ((x + 16) ∷ front) (kid_context.len ∷ []) (cb ++ drop kid_context.len back),
    )
