-- ===== src/Context/Piv/Digits.antt =====
-- The Partial IV holds the digits of the number to the base 256, lowest first, and no more.
use native.Mathlib.Nat.{pow-suc}
use uoscore_uedhoc.Base.{
  ==_iff, All, Bool-cases, [], ap, arith, dest_buffer_to_small, drop, err, if◌then◌else◌, inl, inr,
  length, length-take, le→ltb, ltb, ltb→le, ltb→lt, lt→ltb, ok, refl, some, suc, take, zero, ℕ, ◌%◌,
  ◌*◌, ◌++◌, ◌+◌, ◌/◌, ◌<◌, ◌==◌, ◌^◌, ◌∙◌, ◌∷◌, ◌≡◌, ◌≤◌,
}
use uoscore_uedhoc.Coap.{max_piv_len}
use uoscore_uedhoc.Context.Piv.{le_bytes, piv_loop, sender_seq_num2piv, store_zero}
use uoscore_uedhoc.Memory.{ByteArray, Bytes, IsByte, load_at, memcpy_s_over, room}
use uoscore_uedhoc.Memory.Writes.{read-take}

-- How many bytes a number below 2 ^ 40 takes; 0 takes one.
unfoldable pub byte_count : ℕ → ℕ
byte_count v =
    if ltb v (2 ^ 8)
    then 1
    else if ltb v (2 ^ 16)
    then 2
    else if ltb v (2 ^ 24)
    then 3
    else if ltb v (2 ^ 32)
    then 4
    else 5

unfoldable pub digits_le : ℕ → Bytes
digits_le v = le_bytes (byte_count v) v

-- The number that digits stand for.
unfoldable pub le_value : Bytes → ℕ
le_value [] = 0
le_value (b ∷ bs) = b + 256 * le_value bs

pub length-le_bytes : (n v : ℕ) → length (le_bytes n v) ≡ n
unfolding le_bytes
length-le_bytes zero v = refl
length-le_bytes (suc n) v = ap suc (length-le_bytes n (v / 256))

pub le_bytes-IsByte : (n v : ℕ) → All IsByte (le_bytes n v)
unfolding le_bytes
le_bytes-IsByte zero v = tt
le_bytes-IsByte (suc n) v = (omega arith, le_bytes-IsByte n (v / 256))

pub le_value-le_bytes : (n v : ℕ) → v < 256 ^ n → le_value (le_bytes n v) ≡ v
unfolding le_value le_bytes
le_value-le_bytes zero v h = omega arith
le_value-le_bytes (suc n) v h =
    let k : 256 ^ suc n ≡ 256 ^ n * 256 = pow-suc 256 n in
    omega (arith, le_value-le_bytes n (v / 256) (omega arith))

take-le_bytes : (k n v : ℕ) → k ≤ n → take k (le_bytes n v) ≡ le_bytes k v
unfolding le_bytes
take-le_bytes zero n v h = refl
take-le_bytes (suc k) zero v h = absurd (omega arith)
take-le_bytes (suc k) (suc n) v h = ap (◌∷◌ (v % 256)) (take-le_bytes k n (v / 256) (omega arith))

pub byte_count_bounds : (v : ℕ) → (1 ≤ byte_count v) × (byte_count v ≤ 5)
unfolding byte_count
byte_count_bounds v = ground arith

pub length-digits_le : (v : ℕ) → length (digits_le v) ≡ byte_count v
unfolding digits_le
length-digits_le v = length-le_bytes (byte_count v) v

-- One round of the loop: at a zero byte it goes on, and at any other it copies and stops.
module _ (i : ℕ) (p : Bytes) (piv : ByteArray) where
  round_zero : load_at p i ≡ ok 0 → piv_loop (suc i) p piv ≡ piv_loop i p piv
  unfolding piv_loop
  round_zero e = rw e

  round_copies :
      (b : ℕ) (m : Bytes)
      → load_at p i ≡ ok b
      → 0 < b
      → piv.ptr ≡ some m
      → i + 1 ≤ 5
      → 5 ≤ length m
      → i + 1 ≤ length p
      → piv_loop (suc i) p piv
        ≡ ok (record { len = i + 1; ptr = some (take (i + 1) p ++ drop (i + 1) m) })
  unfolding piv_loop memcpy_s_over
  round_copies b m e pos at few room there =
      let l : length (take (i + 1) p) ≡ i + 1 = omega (arith, length-take (i + 1) p) in
      rw (
        e,
        lt→ltb 0 b pos,
        le→ltb max_piv_len (i + 1) few,
        read-take (some p) (i + 1) there,
        at,
        read-take (some m) (i + 1) (omega arith),
        l,
      )

  round_refuses :
      (b : ℕ)
      → load_at p i ≡ ok b
      → 0 < b
      → 5 < i + 1
      → piv_loop (suc i) p piv ≡ err dest_buffer_to_small
  unfolding piv_loop memcpy_s_over
  round_refuses b e pos many = rw (e, lt→ltb 0 b pos, lt→ltb max_piv_len (i + 1) many)

-- The byte at each position, once the bytes are written out.
abbrev digit : ℕ → ℕ → ℕ
digit zero v = v % 256
digit (suc i) v = digit i (v / 256)

load-le_bytes : (n i v : ℕ) → i < n → load_at (le_bytes n v) i ≡ ok (digit i v)
unfolding le_bytes
load-le_bytes zero i v h = absurd (omega arith)
load-le_bytes (suc n) zero v h = refl
load-le_bytes (suc n) (suc i) v h = load-le_bytes n i (v / 256) (omega arith)

module _ (v : ℕ) (piv : ByteArray) where
  abbrev p : Bytes
  p = le_bytes 8 v

  zero_at : (i : ℕ) → i < 8 → digit i v ≡ 0 → piv_loop (suc i) p piv ≡ piv_loop i p piv
  zero_at i h z = round_zero i p piv (load-le_bytes 8 i v h ∙ ap ok z)

  copies_at :
      (i : ℕ) (m : Bytes)
      → 0 < digit i v
      → piv.ptr ≡ some m
      → i + 1 ≤ 5
      → 5 ≤ length m
      → piv_loop (suc i) p piv
        ≡ ok (record { len = i + 1; ptr = some (le_bytes (i + 1) v ++ drop (i + 1) m) })
  copies_at i m pos at few room =
      round_copies i p piv (digit i v) m (load-le_bytes 8 i v (omega arith)) pos at few room
        (omega (arith, length-le_bytes 8 v))
      ∙ ap (λ (bs : Bytes). ok (record { len = i + 1; ptr = some (bs ++ drop (i + 1) m) }))
          (take-le_bytes (i + 1) 8 v (omega arith))

  -- Below 2 ^ 40 the top three bytes are 0.
  skips : v < 2 ^ 40 → piv_loop 8 p piv ≡ piv_loop 5 p piv
  skips h =
      zero_at 7 (omega arith) (omega arith)
      ∙ zero_at 6 (omega arith) (omega arith)
      ∙ zero_at 5 (omega arith) (omega arith)

  module _ (m : Bytes) (at : piv.ptr ≡ some m) (room : 5 ≤ length m) where
    abbrev Copies : ℕ → Type 0
    Copies n =
        sender_seq_num2piv v piv ≡ ok (record { len = n; ptr = some (le_bytes n v ++ drop n m) })

    Copies-five : 2 ^ 32 ≤ v → v < 2 ^ 40 → Copies 5
    unfolding sender_seq_num2piv
    Copies-five lo hi = skips hi ∙ copies_at 4 m (omega arith) at (omega arith) room

    Copies-four : 2 ^ 24 ≤ v → v < 2 ^ 32 → Copies 4
    unfolding sender_seq_num2piv
    Copies-four lo hi =
        skips (omega arith)
        ∙ zero_at 4 (omega arith) (omega arith)
        ∙ copies_at 3 m (omega arith) at (omega arith) room

    Copies-three : 2 ^ 16 ≤ v → v < 2 ^ 24 → Copies 3
    unfolding sender_seq_num2piv
    Copies-three lo hi =
        skips (omega arith)
        ∙ zero_at 4 (omega arith) (omega arith)
        ∙ zero_at 3 (omega arith) (omega arith)
        ∙ copies_at 2 m (omega arith) at (omega arith) room

    below_two : v < 2 ^ 16 → piv_loop 8 p piv ≡ piv_loop 2 p piv
    below_two hi =
        skips (omega arith)
        ∙ zero_at 4 (omega arith) (omega arith)
        ∙ zero_at 3 (omega arith) (omega arith)
        ∙ zero_at 2 (omega arith) (omega arith)

    Copies-two : 2 ^ 8 ≤ v → v < 2 ^ 16 → Copies 2
    unfolding sender_seq_num2piv
    Copies-two lo hi = below_two hi ∙ copies_at 1 m (omega arith) at (omega arith) room

    Copies-one : 0 < v → v < 2 ^ 8 → Copies 1
    unfolding sender_seq_num2piv
    Copies-one lo hi =
        below_two (omega arith)
        ∙ zero_at 1 (omega arith) (omega arith)
        ∙ copies_at 0 m (omega arith) at (omega arith) room

    Copies-zero : v ≡ 0 → Copies 1
    unfolding sender_seq_num2piv
    Copies-zero z =
        below_two (omega arith)
        ∙ zero_at 1 (omega arith) (omega arith)
        ∙ zero_at 0 (omega arith) (omega arith)
        ∙ stores m at room
      where
        stores :
            (m' : Bytes)
            → piv.ptr ≡ some m'
            → 5 ≤ length m'
            → piv_loop 0 p piv ≡ ok (record { len = 1; ptr = some (le_bytes 1 v ++ drop 1 m') })
        stores [] at' h = absurd (omega arith)
        stores (x ∷ m') at' h = unfold piv_loop store_zero le_bytes in rw (at', z)

-- A sequence number below 2 ^ 40 becomes a Partial IV: its digits to the base 256, lowest first, as many
-- as it has, and one for 0. The bytes of the buffer behind them stay.
pub sender_seq_num2piv-digits_le :
    (v : ℕ) (piv : ByteArray) (m : Bytes)
    → piv.ptr ≡ some m
    → 5 ≤ length m
    → v < 2 ^ 40
    → sender_seq_num2piv v piv
      ≡ ok (record { len = byte_count v; ptr = some (digits_le v ++ drop (byte_count v) m) })
unfolding digits_le byte_count
sender_seq_num2piv-digits_le v piv m at room h = elim (Bool-cases (ltb v (2 ^ 8))) [
  | inl one ↦ rw one (elim (Bool-cases (v == 0)) [
    | inl z ↦ Copies-zero v piv m at room ((==_iff v 0).0 z)
    | inr nz ↦ Copies-one v piv m at room (ground arith) (ltb→lt v (2 ^ 8) one)
  ])
  | inr a ↦ elim (Bool-cases (ltb v (2 ^ 16))) [
    | inl two ↦
        rw (a, two) (Copies-two v piv m at room (ltb→le v (2 ^ 8) a) (ltb→lt v (2 ^ 16) two))
    | inr b ↦ elim (Bool-cases (ltb v (2 ^ 24))) [
      | inl three ↦
          rw (a, b, three)
            (Copies-three v piv m at room (ltb→le v (2 ^ 16) b) (ltb→lt v (2 ^ 24) three))
      | inr c ↦ elim (Bool-cases (ltb v (2 ^ 32))) [
        | inl four ↦
            rw (a, b, c, four)
              (Copies-four v piv m at room (ltb→le v (2 ^ 24) c) (ltb→lt v (2 ^ 32) four))
        | inr d ↦ rw (a, b, c, d) (Copies-five v piv m at room (ltb→le v (2 ^ 32) d) h)
      ]
    ]
  ]
]

-- A sequence number that does not fit in 5 bytes is refused, whatever buffer there is.
pub sender_seq_num2piv_refuses :
    (v : ℕ) (piv : ByteArray)
    → 2 ^ 40 ≤ v
    → v < 2 ^ 64
    → sender_seq_num2piv v piv ≡ err dest_buffer_to_small
unfolding sender_seq_num2piv
sender_seq_num2piv_refuses v piv lo hi = elim (Bool-cases (ltb v (2 ^ 56))) [
  | inr big ↦ refuses 7 (omega arith) (omega (arith, ltb→le v (2 ^ 56) big)) (omega arith)
  | inl a ↦
      zero_at v piv 7 (omega arith) (omega (arith, ltb→lt v (2 ^ 56) a))
      ∙ elim (Bool-cases (ltb v (2 ^ 48))) [
        | inr big ↦
            refuses 6 (omega arith) (omega (arith, ltb→le v (2 ^ 48) big, ltb→lt v (2 ^ 56) a))
              (omega arith)
        | inl b ↦
            zero_at v piv 6 (omega arith) (omega (arith, ltb→lt v (2 ^ 48) b))
            ∙ refuses 5 (omega arith) (omega (arith, ltb→lt v (2 ^ 48) b)) (omega arith)
      ]
]
  where
    refuses :
        (i : ℕ)
        → i < 8
        → 0 < digit i v
        → 5 < i + 1
        → piv_loop (suc i) (le_bytes 8 v) piv ≡ err dest_buffer_to_small
    refuses i h pos many =
        round_refuses i (le_bytes 8 v) piv (digit i v) (load-le_bytes 8 i v h) pos many

lt-pow-byte_count : (v : ℕ) → v < 2 ^ 40 → v < 256 ^ byte_count v
unfolding byte_count
lt-pow-byte_count v h = ground arith

-- The digits determine the number.
pub le_value-digits_le : (v : ℕ) → v < 2 ^ 40 → le_value (digits_le v) ≡ v
unfolding digits_le
le_value-digits_le v h = le_value-le_bytes (byte_count v) v (lt-pow-byte_count v h)
