-- ===== src/Nonce/Unique.antt =====
-- What the nonce is made of, and when two nonces are equal.
use uoscore_uedhoc.Base.{
  ==_iff, All, All-append, [], holds_below, holds_below_sound, ap, ap₂, arith, bit_xor,
  cons-injective, drop, drop-append, length, length-append, length-replicate, le→ltb, ok,
  ok-injective, refl, replicate, some, suc, sym, take, take-append, true, zero, ℕ, ◌%◌, ◌*◌, ◌++◌,
  ◌+◌, ◌-◌, ◌/◌, ◌<◌, ◌==◌, ◌↔◌, ◌∙◌, ◌∷◌, ◌≡◌, ◌≤◌,
}
use uoscore_uedhoc.Memory.{ByteArray, Bytes, IsByte, memory, read, start}
use uoscore_uedhoc.Memory.Writes.{
  length-memory, length-read, memcpy_s-ok, put-ok, read-whole, take-read,
}
use uoscore_uedhoc.Nonce.{create_nonce, left_pad, nonce_len, xor_loop}

-- `n` bytes of `bs`, with zeroes in front.
abbrev pub padded : ℕ → Bytes → Bytes
padded n bs = replicate (n - length bs) 0 ++ bs

-- An array that can be read, with bytes in range.
pub record Holds (a : ByteArray) (bs : Bytes) : Type 0 where
  pub content_is : read a.ptr a.len ≡ ok bs
  pub in_range : All IsByte bs

length-Holds : {a : ByteArray} {bs : Bytes} → Holds a bs → length bs ≡ a.len
length-Holds {a} {bs} h = length-read a.ptr a.len h.content_is

pub left_pad-padded :
    (size : ℕ) (a : ByteArray) (bs : Bytes)
    → Holds a bs
    → length bs ≤ size
    → left_pad size a ≡ ok (padded size bs)
unfolding left_pad
left_pad-padded size a bs h fits =
    let l = length-Holds h in
    let z = length-replicate (size - a.len) (let n : ℕ = 0 in n) in
    rw (
      le→ltb size a.len (omega arith),
      memcpy_s-ok (record { size = size; bytes = replicate (size - a.len) 0 }) a.len a.ptr a.len bs
          h.content_is (omega arith) (omega arith),
      l,
    )

length-padded : (n : ℕ) (bs : Bytes) → length bs ≤ n → length (padded n bs) ≡ n
length-padded n bs h = omega (
  arith,
  length-append (replicate (n - length bs) 0) bs,
  length-replicate (n - length bs) (let z : ℕ = 0 in z),
)

-- Byte by byte, without the checks of the memory.
pub xor_bytes : Bytes → Bytes → Bytes
xor_bytes [] iv = []
xor_bytes (x ∷ xs) [] = x ∷ xs
xor_bytes (x ∷ xs) (y ∷ ys) = bit_xor x y ∷ xor_bytes xs ys

xor_loop-xor_bytes :
    (n : ℕ) (xs iv : Bytes)
    → length xs ≡ n
    → n ≤ length iv
    → xor_loop n xs iv ≡ ok (xor_bytes xs iv)
unfolding xor_loop xor_bytes
xor_loop-xor_bytes zero [] iv e h = refl
xor_loop-xor_bytes zero (x ∷ xs) iv e h = absurd (omega arith)
xor_loop-xor_bytes (suc n) [] iv e h = absurd (omega arith)
xor_loop-xor_bytes (suc n) (x ∷ xs) [] e h = absurd (omega arith)
xor_loop-xor_bytes (suc n) (x ∷ xs) (y ∷ iv) e h =
    rw (xor_loop-xor_bytes n xs iv (omega arith) (omega arith))

xor_bytes-take :
    (n : ℕ) (xs iv : Bytes) → length xs ≤ n → xor_bytes xs iv ≡ xor_bytes xs (take n iv)
unfolding xor_bytes
xor_bytes-take n [] iv h = refl
xor_bytes-take zero (x ∷ xs) iv h = absurd (omega arith)
xor_bytes-take (suc n) (x ∷ xs) [] h = refl
xor_bytes-take (suc n) (x ∷ xs) (y ∷ iv) h =
    ap (◌∷◌ (bit_xor x y)) (xor_bytes-take n xs iv (omega arith))

xor_table :
    holds_below (λ t. bit_xor (bit_xor (t / 256) (t % 256)) (t % 256) == t / 256) 65536 ≡ true
unfolding holds_below
xor_table = refl

pub xor_twice : (x y : ℕ) → x < 256 → y < 256 → bit_xor (bit_xor x y) y ≡ x
xor_twice x y hx hy =
    let t = x * 256 + y in
    let a : t / 256 ≡ x = omega arith in
    let b : t % 256 ≡ y = omega arith in
    rw (a, b) at ((==_iff _ (t / 256)).0 (holds_below_sound _ 65536 xor_table t (omega arith)))

pub xor_bytes-injective :
    (xs xs' iv : Bytes)
    → All IsByte xs
    → All IsByte xs'
    → All IsByte iv
    → length xs ≡ length xs'
    → xor_bytes xs iv ≡ xor_bytes xs' iv
    → xs ≡ xs'
unfolding xor_bytes
xor_bytes-injective [] [] iv p p' q l e = refl
xor_bytes-injective [] (x' ∷ xs') iv p p' q l e = absurd (omega arith)
xor_bytes-injective (x ∷ xs) [] iv p p' q l e = absurd (omega arith)
xor_bytes-injective (x ∷ xs) (x' ∷ xs') [] p p' q l e = e
xor_bytes-injective (x ∷ xs) (x' ∷ xs') (y ∷ iv) p p' q l e =
    let (head_is, tail_is) = cons-injective e in
    ap₂ ◌∷◌
      (sym (xor_twice x y p.0 q.0) ∙ ap (λ (t : ℕ). bit_xor t y) head_is ∙ xor_twice x' y p'.0 q.0)
      (xor_bytes-injective xs xs' iv p.1 p'.1 q.1 (omega arith) tail_is)

-- What is xored: the length of the identifier, the identifier in 7 bytes, and the PIV in 5.
unfoldable pub plain_nonce : Bytes → Bytes → Bytes
plain_nonce id piv = (length id % 256) ∷ (padded 7 id ++ padded 5 piv)

module _ (id_piv piv common_iv : ByteArray) (id ps iv : Bytes) (hid : Holds id_piv id)
    (hpiv : Holds piv ps) (hiv : Holds common_iv iv) where
  iv_is : length iv ≡ 13 → take 13 (memory common_iv.ptr) ≡ iv
  iv_is h =
      ap (λ (n : ℕ). take n (memory common_iv.ptr)) (sym h ∙ length-Holds hiv)
      ∙ take-read common_iv.ptr common_iv.len hiv.content_is

  pub create_nonce-plain_nonce :
      length id ≤ 7
      → length ps ≤ 5
      → length iv ≡ 13
      → create_nonce id_piv piv common_iv ≡ ok (xor_bytes (plain_nonce id ps) iv)
  unfolding create_nonce plain_nonce
  create_nonce-plain_nonce h₁ h₂ h₃ =
      let pid = padded 7 id in
      let pps = padded 5 ps in
      let l₁ = length-padded 7 id h₁ in
      let l₂ = length-padded 5 ps h₂ in
      let first : Bytes = length id % 256 ∷ [] in
      let named : Bytes = first ++ pid in
      let l₃ = length-append pid pps in
      rw
        (
          left_pad-padded 5 piv ps hpiv h₂,
          left_pad-padded 7 id_piv id hid h₁,
          sym (length-Holds hid),
          put-ok (start nonce_len) first (omega arith),
          memcpy_s-ok (record { size = nonce_len; bytes = first }) 7 (some pid) 7 pid
              (read-whole pid 7 l₁) (omega arith) (omega arith),
          memcpy_s-ok (record { size = nonce_len; bytes = named }) 5 (some pps) 5 pps
              (read-whole pps 5 l₂) (omega arith) (omega arith),
        )
        (xor_loop-xor_bytes common_iv.len (named ++ pps) (memory common_iv.ptr)
            (omega (arith, length-Holds hiv))
            (length-memory common_iv.ptr common_iv.len hiv.content_is)
          ∙ ap ok (
              xor_bytes-take 13 (named ++ pps) (memory common_iv.ptr) (omega arith)
              ∙ ap (xor_bytes (named ++ pps)) (iv_is h₃)))

padded-IsByte : (n : ℕ) (bs : Bytes) → All IsByte bs → All IsByte (padded n bs)
padded-IsByte n bs h = All-append IsByte (replicate (n - length bs) 0) bs (zeroes (n - length bs)) h
  where
    zeroes : (k : ℕ) → All IsByte (replicate k 0)
    zeroes zero = tt
    zeroes (suc k) = (omega arith, zeroes k)

plain_nonce-IsByte :
    (id ps : Bytes) → All IsByte id → All IsByte ps → All IsByte (plain_nonce id ps)
unfolding plain_nonce
plain_nonce-IsByte id ps h k = (
  omega arith,
  All-append IsByte (padded 7 id) (padded 5 ps) (padded-IsByte 7 id h) (padded-IsByte 5 ps k),
)

-- Equal sums of pieces of equal lengths have equal pieces.
pub append-injective :
    (xs xs' ys ys' : Bytes)
    → length xs ≡ length xs'
    → xs ++ ys ≡ xs' ++ ys'
    → (xs ≡ xs') × (ys ≡ ys')
append-injective xs xs' ys ys' l e = (
  sym (take-append (length xs) xs ys refl)
      ∙ ap (take (length xs)) e
      ∙ take-append (length xs) xs' ys' (sym l),
  sym (drop-append (length xs) xs ys refl)
      ∙ ap (drop (length xs)) e
      ∙ drop-append (length xs) xs' ys' (sym l),
)

plain_nonce-injective :
    (id id' ps ps' : Bytes)
    → length id ≤ 7
    → length id' ≤ 7
    → length ps ≤ 5
    → length ps' ≤ 5
    → plain_nonce id ps ≡ plain_nonce id' ps'
    → (id ≡ id') × (padded 5 ps ≡ padded 5 ps')
unfolding plain_nonce
plain_nonce-injective id id' ps ps' a a' b b' e =
    let (head_is, tail_is) = cons-injective e in
    let same : length id ≡ length id' = omega arith in
    let (ids, pivs) =
      append-injective (padded 7 id) (padded 7 id') (padded 5 ps) (padded 5 ps')
        (omega (arith, length-padded 7 id a, length-padded 7 id' a')) tail_is in
    let z : length {A = ℕ} (replicate (7 - length id) 0)
        ≡ length {A = ℕ} (replicate (7 - length id') 0) =
      ap (λ (n : ℕ). length {A = ℕ} (replicate (7 - n) 0)) same in
    (
      (append-injective (replicate (7 - length id) 0) (replicate (7 - length id') 0) id id' z
          ids).1,
      pivs,
    )

plain_nonce-cong :
    (id id' ps ps' : Bytes)
    → id ≡ id'
    → padded 5 ps ≡ padded 5 ps'
    → plain_nonce id ps ≡ plain_nonce id' ps'
unfolding plain_nonce
plain_nonce-cong id id' ps ps' d p =
    ap₂ (λ (i : Bytes) (t : Bytes). (length i % 256) ∷ (padded 7 i ++ t)) d p

length-plain_nonce :
    (id ps : Bytes) → length id ≤ 7 → length ps ≤ 5 → length (plain_nonce id ps) ≡ 13
unfolding plain_nonce
length-plain_nonce id ps h k =
    omega
      (arith, length-append (padded 7 id) (padded 5 ps), length-padded 7 id h, length-padded 5 ps k)

-- Two nonces under the same Common IV of 13 bytes are equal exactly when the identifiers are equal and
-- the Partial IVs are equal once they are padded with zeroes in front. Identifiers are at most 7
-- bytes long and Partial IVs at most 5.
pub create_nonce_iff :
    (id_piv id_piv' piv piv' common_iv : ByteArray) (id id' ps ps' iv : Bytes)
    → Holds id_piv id
    → Holds id_piv' id'
    → Holds piv ps
    → Holds piv' ps'
    → Holds common_iv iv
    → length id ≤ 7
    → length id' ≤ 7
    → length ps ≤ 5
    → length ps' ≤ 5
    → length iv ≡ 13
    → (create_nonce id_piv piv common_iv ≡ create_nonce id_piv' piv' common_iv)
      ↔ ((id ≡ id') × (padded 5 ps ≡ padded 5 ps'))
create_nonce_iff id_piv id_piv' piv piv' common_iv id id' ps ps' iv hid hid' hp hp' hiv a a' b b'
      c =
    let n = create_nonce-plain_nonce id_piv piv common_iv id ps iv hid hp hiv a b c in
    let n' = create_nonce-plain_nonce id_piv' piv' common_iv id' ps' iv hid' hp' hiv a' b' c in
    (
      λ e. plain_nonce-injective id id' ps ps' a a' b b' (
          xor_bytes-injective (plain_nonce id ps) (plain_nonce id' ps') iv
            (plain_nonce-IsByte id ps hid.in_range hp.in_range)
            (plain_nonce-IsByte id' ps' hid'.in_range hp'.in_range) hiv.in_range
            (length-plain_nonce id ps a b ∙ sym (length-plain_nonce id' ps' a' b'))
            (ok-injective (sym n ∙ e ∙ n'))),
      λ e. n ∙ ap (λ x. ok (xor_bytes x iv)) (plain_nonce-cong id id' ps ps' e.0 e.1) ∙ sym n',
    )
