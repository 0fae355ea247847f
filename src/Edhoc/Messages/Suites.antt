-- ===== src/Edhoc/Messages/Suites.antt =====
-- The look-up of the selected suite, `selected_suite_is_supported` in modules/edhoc/src/responder.c.
use uoscore_uedhoc.Base.{
  ==_iff, Bool, Bool-cases, [], arith, false, fault, inl, inr, length, le→ltb, lt→ltb, min, ok,
  refl, true, ℕ, ◌++◌, ◌<◌, ◌==◌, ◌↔◌, ◌∷◌, ◌≡◌, ◌≤◌, ◌⊎◌,
}
use uoscore_uedhoc.Edhoc.{contents}
use uoscore_uedhoc.Edhoc.Messages.{selected_suite_is_supported, suite_loop}
use uoscore_uedhoc.Edhoc.RetrieveCred.Match.{bytes_at-memory}
use uoscore_uedhoc.Memory.{ByteArray, Bytes, memory}

-- The number stands somewhere in the list.
abbrev pub Contains : ℕ → Bytes → Type 0
Contains selected [] = ⊥
Contains selected (s ∷ suites) = (s ≡ selected) ⊎ Contains selected suites

suite_loop-Contains :
    (selected : ℕ) (suites more : Bytes)
    → (answer : Bool) × (suite_loop selected (length suites) (suites ++ more) false ≡ ok answer)
      × ((answer ≡ true) ↔ Contains selected suites)
unfolding suite_loop
suite_loop-Contains selected [] more = (false, refl, (λ e. cc, λ c. absurd c))
suite_loop-Contains selected (s ∷ suites) more =
    let (answer, returns, right) = suite_loop-Contains selected suites more in
    elim (Bool-cases (s == selected)) [
      | inl same ↦ (true, rw same, (λ e. inl ((==_iff s selected).0 same), λ c. refl))
      | inr other ↦ (
        answer,
        rw other returns,
        (
          λ e. inr (right.0 e),
          λ c. elim c [ inl found ↦ cc ((==_iff s selected).1 found) | inr later ↦ right.1 later ],
        ),
      )
    ]

goes_round :
    (selected : ℕ) (suites more : Bytes)
    → ¬ Contains selected suites
    → suite_loop selected (length suites) (suites ++ more) true ≡ fault
unfolding suite_loop
goes_round selected [] more absent = refl
goes_round selected (s ∷ suites) more absent = elim (Bool-cases (s == selected)) [
  | inl same ↦ absurd (absent (inl ((==_iff s selected).0 same)))
  | inr other ↦ rw other (goes_round selected suites more (λ c. absent (inr c)))
]

-- For at most 255 suites the look-up comes to an end, and says exactly whether the suite is one of them.
pub selected_suite_is_supported-Contains :
    (selected : ℕ) (suites_r : ByteArray) (suites : Bytes)
    → contents suites_r ≡ ok suites
    → suites_r.len ≤ 255
    → (answer : Bool) × (selected_suite_is_supported selected suites_r ≡ ok answer)
      × ((answer ≡ true) ↔ Contains selected suites)
unfolding selected_suite_is_supported
selected_suite_is_supported-Contains selected suites_r suites has few =
    let (more, in_memory, len) = bytes_at-memory suites_r.ptr suites_r.len suites has in
    let (answer, returns, right) = suite_loop-Contains selected suites more in
    let rounds : min suites_r.len 256 ≡ length suites = omega arith in
    let ends = le→ltb 255 suites_r.len few in (answer, rw (rounds, ends, in_memory) returns, right)

-- For more suites, a suite that is not among the first 256 makes the 8-bit counter go round for ever.
pub selected_suite_is_supported-endless :
    (selected : ℕ) (suites_r : ByteArray) (front more : Bytes)
    → memory suites_r.ptr ≡ front ++ more
    → length front ≡ 256
    → 255 < suites_r.len
    → ¬ Contains selected front
    → selected_suite_is_supported selected suites_r ≡ fault
unfolding selected_suite_is_supported
selected_suite_is_supported-endless selected suites_r front more in_memory size many absent =
    let rounds : min suites_r.len 256 ≡ length front = omega arith in
    let endless = lt→ltb 255 suites_r.len many in
    rw (rounds, endless, in_memory) (goes_round selected front more absent)
