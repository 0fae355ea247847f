-- ===== src/Unprotect/Reorder/Sort.antt =====
-- The exchange sort of the option numbers.
use uoscore_uedhoc.Base.{
  ==_iff, All, Bool-cases, List, [], ap, arith, if◌then◌else◌, inl, inr, length, ltb, refl, suc,
  zero, ℕ, ◌+◌, ◌<◌, ◌==◌, ◌∙◌, ◌∷◌, ◌≡◌, ◌≤◌,
}
use uoscore_uedhoc.Unprotect.Reorder.{exchange_pass, exchange_sort}

unfoldable pub occurrences : ℕ → List ℕ → ℕ
occurrences a [] = 0
occurrences a (x ∷ xs) = (if a == x then 1 else 0) + occurrences a xs

abbrev pub IsSorted : List ℕ → Type 0
IsSorted [] = Unit
IsSorted (x ∷ xs) = All (λ y. x ≤ y) xs × IsSorted xs

-- The pass leaves the least number in front, and the same numbers as often.
length-exchange_pass : (x : ℕ) (ys : List ℕ) → length (exchange_pass x ys).1 ≡ length ys
unfolding exchange_pass
length-exchange_pass x [] = refl
length-exchange_pass x (y ∷ ys) = ap suc (length-exchange_pass (if ltb y x then y else x) ys)

exchange_pass-le : (x : ℕ) (ys : List ℕ) → (exchange_pass x ys).0 ≤ x
unfolding exchange_pass
exchange_pass-le x [] = omega arith
exchange_pass-le x (y ∷ ys) = ground (arith, exchange_pass-le (if ltb y x then y else x) ys)

exchange_pass-All :
    (x : ℕ) (ys : List ℕ) → All (λ y. (exchange_pass x ys).0 ≤ y) (exchange_pass x ys).1
unfolding exchange_pass
exchange_pass-All x [] = tt
exchange_pass-All x (y ∷ ys) = (
  ground (arith, exchange_pass-le (if ltb y x then y else x) ys),
  exchange_pass-All (if ltb y x then y else x) ys,
)

occurrences-exchange_pass :
    (a x : ℕ) (ys : List ℕ)
    → occurrences a ((exchange_pass x ys).0 ∷ (exchange_pass x ys).1) ≡ occurrences a (x ∷ ys)
unfolding exchange_pass occurrences
occurrences-exchange_pass a x [] = refl
occurrences-exchange_pass a x (y ∷ ys) =
    ground (arith, occurrences-exchange_pass a (if ltb y x then y else x) ys)

-- A lower bound is kept by counting: it holds of every number that occurs.
All-occurrences :
    (m : ℕ) (xs : List ℕ) → ((a : ℕ) → 0 < occurrences a xs → m ≤ a) → All (λ y. m ≤ y) xs
unfolding occurrences
All-occurrences m [] h = tt
All-occurrences m (x ∷ xs) h =
    (h x (ground arith), All-occurrences m xs (λ a p. h a (ground arith)))

occurrences-All :
    (m : ℕ) (xs : List ℕ) → All (λ y. m ≤ y) xs → (a : ℕ) → 0 < occurrences a xs → m ≤ a
unfolding occurrences
occurrences-All m [] h a p = absurd (omega arith)
occurrences-All m (x ∷ xs) h a p = elim (Bool-cases (a == x)) [
  | inl same ↦ omega (arith, (==_iff a x).0 same, h.0)
  | inr other ↦ occurrences-All m xs h.1 a (ground arith)
]

pub occurrences-exchange_sort :
    (a rounds : ℕ) (ns : List ℕ) → occurrences a (exchange_sort rounds ns) ≡ occurrences a ns
unfolding exchange_sort
occurrences-exchange_sort a zero ns = refl
occurrences-exchange_sort a (suc rounds) [] = refl
occurrences-exchange_sort a (suc rounds) (x ∷ xs) =
    let (least, rest) = exchange_pass x xs in
    let ih = occurrences-exchange_sort a rounds rest in
    count_cons a least (exchange_sort rounds rest) rest ih ∙ occurrences-exchange_pass a x xs
  where
    count_cons :
        (b y : ℕ) (us vs : List ℕ)
        → occurrences b us ≡ occurrences b vs
        → occurrences b (y ∷ us) ≡ occurrences b (y ∷ vs)
    count_cons b y us vs e = unfold occurrences in ap (λ (n : ℕ). (if b == y then 1 else 0) + n) e

pub exchange_sort-IsSorted :
    (rounds : ℕ) (ns : List ℕ) → length ns ≤ rounds → IsSorted (exchange_sort rounds ns)
unfolding exchange_sort
exchange_sort-IsSorted zero [] h = tt
exchange_sort-IsSorted zero (x ∷ xs) h = absurd (omega arith)
exchange_sort-IsSorted (suc rounds) [] h = tt
exchange_sort-IsSorted (suc rounds) (x ∷ xs) h =
    let rest = (exchange_pass x xs).1 in
    let low = exchange_pass-All x xs in
    (
      All-occurrences (exchange_pass x xs).0 (exchange_sort rounds rest) (λ a p.
          occurrences-All (exchange_pass x xs).0 rest low a
            (omega (arith, occurrences-exchange_sort a rounds rest))),
      exchange_sort-IsSorted rounds rest (omega (arith, length-exchange_pass x xs)),
    )

-- As many rounds as there are numbers put them in order, each as often as before.
pub exchange_sort_lem :
    (ns : List ℕ)
    → IsSorted (exchange_sort (length ns) ns)
      × ((a : ℕ) → occurrences a (exchange_sort (length ns) ns) ≡ occurrences a ns)
exchange_sort_lem ns = (
  exchange_sort-IsSorted (length ns) ns (omega arith),
  λ a. occurrences-exchange_sort a (length ns) ns,
)
