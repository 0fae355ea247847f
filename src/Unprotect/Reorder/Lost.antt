-- ===== src/Unprotect/Reorder/Lost.antt =====
-- An OSCORE option stops the copying of the unprotected options.
use uoscore_uedhoc.Base.{
  Bool-cases, Ensures, Ensures-bind, Ensures-ok, List, [], ap, append-nil, arith, drop, false, inl,
  inr, leb, length, map, ok, ok-injective, refl, replicate, suc, true, zero, ℕ, ◌%◌, ◌++◌, ◌+◌, ◌-◌,
  ◌==◌, ◌^◌, ◌∙◌, ◌∷◌, ◌≡◌, ◌≢◌, ◌⊎◌,
}
use uoscore_uedhoc.Coap.{CoapOption, max_option_count}
use uoscore_uedhoc.Coap.Parse.{sub16}
use uoscore_uedhoc.OptionClass.{coap_option_oscore}
use uoscore_uedhoc.Unprotect.Reorder.{
  copy_loop, exchange_sort, numbers_array, options_from_oscore_reorder, other_numbers,
}
use uoscore_uedhoc.Unprotect.Reorder.Sort.{occurrences, occurrences-exchange_sort}

-- The number is that of one of the options.
abbrev pub HasNumber : ℕ → List CoapOption → Type 0
HasNumber n [] = ⊥
HasNumber n (o ∷ os) = (n ≡ o.option_number) ⊎ HasNumber n os

abbrev pub AllNumbersIn : List CoapOption → List CoapOption → Type 0
AllNumbersIn es [] = Unit
AllNumbersIn es (o ∷ os) = HasNumber o.option_number es × AllNumbersIn es os

-- No number of the list is OSCORE's.
abbrev pub NoneIsOscore : List ℕ → Type 0
NoneIsOscore [] = Unit
NoneIsOscore (n ∷ ns) = (n ≢ coap_option_oscore) × NoneIsOscore ns

HasNumber-drop : (n : ℕ) (es : List CoapOption) → HasNumber n (drop 1 es) → HasNumber n es
HasNumber-drop n [] h = h
HasNumber-drop n (e ∷ es) h = inr h

AllNumbersIn-drop : (es os : List CoapOption) → AllNumbersIn (drop 1 es) os → AllNumbersIn es os
AllNumbersIn-drop es [] h = tt
AllNumbersIn-drop es (o ∷ os) h =
    (HasNumber-drop o.option_number es h.0, AllNumbersIn-drop es os h.1)

copy_loop-AllNumbersIn :
    (ns : List ℕ) (u : CoapOption) (us es : List CoapOption) (slots sum : ℕ)
    → u.option_number ≡ coap_option_oscore
    → NoneIsOscore ns
    → Ensures (AllNumbersIn es) (copy_loop ns (u ∷ us) es slots sum)
unfolding copy_loop
copy_loop-AllNumbersIn [] u us es slots sum h none_is = tt
copy_loop-AllNumbersIn (n ∷ ns) u us [] slots sum h none_is =
    let t : (n == u.option_number) ≡ false = ground arith in rw t tt
copy_loop-AllNumbersIn (n ∷ ns) u us (e ∷ es) slots sum h none_is =
    let t : (n == u.option_number) ≡ false = ground arith in
    elim (Bool-cases (n == e.option_number)) [
      | inl taken ↦ elim (Bool-cases (slots == 0)) [
        | inl full ↦ rw (t, taken, full) tt
        | inr free ↦
            rw (t, taken, free)
              (Ensures-bind (AllNumbersIn (e ∷ es))
                (copy_loop ns (u ∷ us) es (slots - 1) ((sum + sub16 e.option_number sum) % 2 ^ 16))
                _
                λ os made.
                  let ih =
                    copy_loop-AllNumbersIn ns u us es (slots - 1)
                      ((sum + sub16 e.option_number sum) % 2 ^ 16) h none_is.1 in
                  (
                    inl refl,
                    AllNumbersIn-drop (e ∷ es) os (Ensures-ok (AllNumbersIn es) _ ih made),
                  ))
      ]
      | inr other ↦ rw (t, other) (copy_loop-AllNumbersIn ns u us (e ∷ es) slots sum h none_is.1)
    ]

NoneIsOscore-occurrences : (ns : List ℕ) → occurrences coap_option_oscore ns ≡ 0 → NoneIsOscore ns
unfolding occurrences
NoneIsOscore-occurrences [] h = tt
NoneIsOscore-occurrences (n ∷ ns) h = (ground arith, NoneIsOscore-occurrences ns (ground arith))

occurrences-append :
    (a : ℕ) (xs ys : List ℕ) → occurrences a (xs ++ ys) ≡ occurrences a xs + occurrences a ys
unfolding occurrences
occurrences-append a [] ys = omega arith
occurrences-append a (x ∷ xs) ys = omega (arith, occurrences-append a xs ys)

occurrences-replicate : (k : ℕ) → occurrences coap_option_oscore (replicate k 0) ≡ 0
unfolding occurrences
occurrences-replicate zero = refl
occurrences-replicate (suc k) = omega (arith, occurrences-replicate k)

occurrences-other_numbers :
    (us : List CoapOption) → occurrences coap_option_oscore (other_numbers us) ≡ 0
unfolding occurrences other_numbers
occurrences-other_numbers [] = refl
occurrences-other_numbers (u ∷ us) = ground (arith, occurrences-other_numbers us)

occurrences-numbers_array :
    (size : ℕ) (ns : List ℕ) {out : List ℕ}
    → numbers_array size ns ≡ ok out
    → occurrences coap_option_oscore out ≡ occurrences coap_option_oscore ns
unfolding numbers_array
occurrences-numbers_array size ns {out} h = elim (Bool-cases (leb (length ns) size)) [
  | inl fits ↦
      let e : ns ++ replicate (size - length ns) 0 ≡ out = ok-injective (rw fits at h) in
      rw (← e) (
        omega (
          arith,
          occurrences-append coap_option_oscore ns (replicate (size - length ns) 0),
          occurrences-replicate (size - length ns),
        ))
  | inr over ↦ cc (rw over at h)
]

-- Where the OSCORE option is the first option of the received packet and no encrypted option has its number,
-- each option of the packet that is made, if one is made, has the number of one of the encrypted options, or
-- of a slot behind them: every unprotected option of another number is lost.
pub options_from_oscore_reorder_lost :
    (oscore : CoapOption) (us u_behind es e_behind : List CoapOption)
    → oscore.option_number ≡ coap_option_oscore
    → occurrences coap_option_oscore (map (λ e. e.option_number) es) ≡ 0
    → Ensures
        (AllNumbersIn (es ++ e_behind))
        (options_from_oscore_reorder (oscore ∷ us) u_behind es e_behind)
unfolding options_from_oscore_reorder
options_from_oscore_reorder_lost oscore us u_behind es e_behind h none_is =
    let total = suc (length us) + length es in
    let t₀ : (total == 0) ≡ false = ground arith in
    let numbers = other_numbers (oscore ∷ us) ++ map (λ e. e.option_number) es in
    elim (Bool-cases (total == 1)) [
      | inl only ↦ rw (t₀, only) tt
      | inr more ↦
          rw (t₀, more)
            (Ensures-bind (AllNumbersIn (es ++ e_behind)) (numbers_array (total - 1) numbers) _
              λ ns made.
                copy_loop-AllNumbersIn (exchange_sort (total - 1) ns) oscore (us ++ u_behind)
                  (es ++ e_behind) max_option_count 0 h
                  (NoneIsOscore-occurrences _ (
                    occurrences-exchange_sort coap_option_oscore (total - 1) ns
                    ∙ occurrences-numbers_array (total - 1) numbers made
                    ∙ omega (
                      arith,
                      occurrences-append coap_option_oscore (other_numbers (oscore ∷ us))
                          (map (λ e. e.option_number) es),
                      occurrences-other_numbers (oscore ∷ us),
                      none_is,
                    ))))
    ]

-- The numbers that are not the number of `e` match no option.
abbrev NoneIs : ℕ → List ℕ → Type 0
NoneIs a [] = Unit
NoneIs a (n ∷ ns) = (n ≢ a) × NoneIs a ns

NoneIs-occurrences : (a : ℕ) (ns : List ℕ) → occurrences a ns ≡ 0 → NoneIs a ns
unfolding occurrences
NoneIs-occurrences a [] h = tt
NoneIs-occurrences a (n ∷ ns) h = (ground arith, NoneIs-occurrences a ns (ground arith))

copy_loop_none :
    (ns : List ℕ) (u e : CoapOption) (us es : List CoapOption) (slots sum : ℕ)
    → NoneIs u.option_number ns
    → NoneIs e.option_number ns
    → copy_loop ns (u ∷ us) (e ∷ es) slots sum ≡ ok []
unfolding copy_loop
copy_loop_none [] u e us es slots sum hu he = refl
copy_loop_none (n ∷ ns) u e us es slots sum hu he =
    let t : (n == u.option_number) ≡ false = ground arith in
    let t' : (n == e.option_number) ≡ false = ground arith in
    rw (t, t', copy_loop_none ns u e us es slots sum hu.1 he.1)

length-other_numbers :
    (us : List CoapOption)
    → occurrences coap_option_oscore (map (λ u. u.option_number) us) ≡ 0
    → other_numbers us ≡ map (λ u. u.option_number) us
unfolding occurrences other_numbers
length-other_numbers [] h = refl
length-other_numbers (u ∷ us) h =
    let t : (u.option_number == coap_option_oscore) ≡ false = ground arith in
    rw t (ap (◌∷◌ u.option_number) (length-other_numbers us (ground arith)))

numbers_of :
    (oscore : CoapOption) (us : List CoapOption)
    → oscore.option_number ≡ coap_option_oscore
    → occurrences coap_option_oscore (map (λ u. u.option_number) us) ≡ 0
    → other_numbers (oscore ∷ us) ++ [] ≡ map (λ u. u.option_number) us
numbers_of oscore us h others =
    let t : (oscore.option_number == coap_option_oscore) ≡ true = ground arith in
    append-nil (other_numbers (oscore ∷ us))
    ∙ (unfold other_numbers in rw t (length-other_numbers us others))

length-map : (us : List CoapOption) → length (map (λ u. u.option_number) us) ≡ length us
length-map [] = refl
length-map (u ∷ us) = ap suc (length-map us)

numbers_array_full : (ns : List ℕ) (n : ℕ) → length ns ≡ n → numbers_array n ns ≡ ok ns
unfolding numbers_array
numbers_array_full ns n e =
    let t : leb (length ns) n ≡ true = ground arith in
    let z : n - length ns ≡ 0 = omega arith in rw (t, z, append-nil)

-- A received packet without encrypted options, whose options are the OSCORE option and behind it one or more
-- with other numbers, comes out with no option at all and without an error, if the slot behind the
-- encrypted options happens to hold none of their numbers.
pub options_from_oscore_reorder_drops :
    (oscore u e : CoapOption) (us u_behind e_behind : List CoapOption)
    → oscore.option_number ≡ coap_option_oscore
    → occurrences coap_option_oscore (map (λ o. o.option_number) (u ∷ us)) ≡ 0
    → occurrences e.option_number (map (λ o. o.option_number) (u ∷ us)) ≡ 0
    → options_from_oscore_reorder (oscore ∷ (u ∷ us)) u_behind [] (e ∷ e_behind) ≡ ok []
unfolding options_from_oscore_reorder
options_from_oscore_reorder_drops oscore u e us u_behind e_behind h others free =
    let ns = map (λ o. o.option_number) (u ∷ us) in
    let n = suc (length us) in
    let total : suc (suc (length us)) + 0 ≡ suc n = omega arith in
    let t₀ : (suc n == 0) ≡ false = ground arith in
    let t₁ : (suc n == 1) ≡ false = ground arith in
    let size : suc n - 1 ≡ n = omega arith in
    rw
      (
        total,
        t₀,
        t₁,
        size,
        numbers_of oscore (u ∷ us) h others,
        numbers_array_full ns n (length-map (u ∷ us)),
      )
      (copy_loop_none (exchange_sort n ns) oscore e (u ∷ (us ++ u_behind)) e_behind max_option_count
        0
        (NoneIs-occurrences oscore.option_number _ (
          occurrences-exchange_sort oscore.option_number n ns
          ∙ ap (λ a. occurrences a ns) h
          ∙ others))
        (NoneIs-occurrences e.option_number _
          (occurrences-exchange_sort e.option_number n ns ∙ free)))
