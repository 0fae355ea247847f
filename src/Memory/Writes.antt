-- ===== src/Memory/Writes.antt =====
-- What `put`, `read` and `memcpy_s` do when the sizes fit, and the bound that every success keeps.
use uoscore_uedhoc.Base.{
  Bool-cases, ap, arith, bind-eq-ok, dest_buffer_to_small, err, inl, inr, length, length-append,
  length-take, le→ltb, ltb, lt→ltb, none, ok, refl, some, suc, sym, take, take-append, take-length,
  zero, ℕ, ◌++◌, ◌+◌, ◌-◌, ◌<◌, ◌^◌, ◌∙◌, ◌≡◌, ◌≤◌,
}
use uoscore_uedhoc.Memory.{Buffer, Bytes, Pointer, memcpy_s, memory, put, read, room}

pub length-read : (p : Pointer) (n : ℕ) {bs : Bytes} → read p n ≡ ok bs → length bs ≡ n
unfolding read
length-read p zero h = ground arith
length-read none (suc n) h = cc
length-read (some m) (suc n) h = ground (arith, length-take (suc n) m)

pub read-take : (p : Pointer) (n : ℕ) → n ≤ length (memory p) → read p n ≡ ok (take n (memory p))
unfolding read
read-take p zero h = refl
read-take none (suc n) h = absurd (omega arith)
read-take (some m) (suc n) h = ground arith

-- A successful unchecked store appends, and stays in the array.
pub put-ok :
    (b : Buffer) (bs : Bytes)
    → length b.bytes + length bs ≤ b.size
    → put b bs ≡ ok (record b { bytes = b.bytes ++ bs })
unfolding put
put-ok b bs h = ground arith

pub put-le-size :
    (b : Buffer) (bs : Bytes) {b' : Buffer}
    → put b bs ≡ ok b'
    → (length b'.bytes ≤ b.size)
      × (b'.size ≡ b.size)
      × (length b'.bytes ≡ length b.bytes + length bs)
unfolding put
put-le-size b bs h = ground (arith, length-append b.bytes bs)

pub memcpy_s-ok :
    (b : Buffer) (dest_size : ℕ) (p : Pointer) (n : ℕ) (bs : Bytes)
    → read p n ≡ ok bs
    → n ≤ dest_size
    → length b.bytes + n ≤ b.size
    → memcpy_s b dest_size p n ≡ ok (record b { bytes = b.bytes ++ bs })
unfolding memcpy_s
memcpy_s-ok b dest_size p n bs h fits inside =
    rw (le→ltb dest_size n fits, h) (put-ok b bs (omega (arith, length-read p n h)))

pub memcpy_s-le-size :
    (b : Buffer) (dest_size : ℕ) (p : Pointer) (n : ℕ) {b' : Buffer}
    → memcpy_s b dest_size p n ≡ ok b'
    → (length b'.bytes ≤ b.size) × (b'.size ≡ b.size) × (length b'.bytes ≡ length b.bytes + n)
unfolding memcpy_s
memcpy_s-le-size b dest_size p n h = elim (Bool-cases (ltb dest_size n)) [
  | inl small ↦ cc (rw small at h)
  | inr fits ↦
      let (bs, r, w) = bind-eq-ok (read p n) (put b) (rw fits at h) in
      ground (arith, put-le-size b bs w, length-read p n r)
]

pub room-eq :
    (capacity cursor : ℕ)
    → cursor ≤ capacity
    → capacity < 2 ^ 64
    → room capacity cursor ≡ capacity - cursor
room-eq capacity cursor h k = omega arith

pub read-prefix : (xs ys : Bytes) → read (some (xs ++ ys)) (length xs) ≡ ok xs
read-prefix xs ys =
    read-take (some (xs ++ ys)) (length xs) (omega (arith, length-append xs ys))
    ∙ ap ok (take-append (length xs) xs ys refl)

pub read-whole : (xs : Bytes) (n : ℕ) → length xs ≡ n → read (some xs) n ≡ ok xs
read-whole xs n e =
    read-take (some xs) n (omega arith) ∙ ap ok (ap (λ (k : ℕ). take k xs) (sym e) ∙ take-length xs)

pub length-memory : (p : Pointer) (n : ℕ) {bs : Bytes} → read p n ≡ ok bs → n ≤ length (memory p)
unfolding read
length-memory p zero h = omega arith
length-memory none (suc n) h = cc
length-memory (some m) (suc n) h = ground arith

pub take-read : (p : Pointer) (n : ℕ) {bs : Bytes} → read p n ≡ ok bs → take n (memory p) ≡ bs
unfolding read
take-read p zero h = ground arith
take-read none (suc n) h = cc
take-read (some m) (suc n) h = ground arith

pub memcpy_s_small :
    (b : Buffer) (dest_size : ℕ) (p : Pointer) (n : ℕ)
    → dest_size < n
    → memcpy_s b dest_size p n ≡ err dest_buffer_to_small
unfolding memcpy_s
memcpy_s_small b dest_size p n h = rw (lt→ltb dest_size n h)
