-- ===== src/Protect/Extract/Split.antt =====
-- The two lists hold the options of the two classes, in order, each numbered anew.
use uoscore_uedhoc.Base.{
  Bool, Bool-cases, List, [], ap, arith, if◌then◌else◌, inl, inr, map, not, refl, ℕ, ◌%◌, ◌+◌, ◌<◌,
  ◌^◌, ◌∷◌, ◌≡◌, ◌≤◌,
}
use uoscore_uedhoc.Coap.{CoapOption, CoapPacket, Field, field}
use uoscore_uedhoc.Coap.Parse.{sub16}
use uoscore_uedhoc.Coap.Parse.Options.{IsNumbered}
use uoscore_uedhoc.OptionClass.{is_class_e}
use uoscore_uedhoc.Protect.Extract.{counted_extra_bytes, e_u_options_extract, extract_loop}

-- The options as their deltas number them, from `nr` on.
unfoldable pub fields : ℕ → List CoapOption → List Field
fields nr [] = []
fields nr (o ∷ os) =
    record { number = nr + o.delta; len = o.len; value = o.value } ∷ fields (nr + o.delta) os

unfoldable pub keep : (ℕ → Bool) → List Field → List Field
keep test [] = []
keep test (f ∷ fs) = if test f.number then f ∷ keep test fs else keep test fs

-- The number of the last option, over that of the first.
abbrev pub delta_sum : List CoapOption → ℕ
delta_sum [] = 0
delta_sum (o ∷ os) = o.delta + delta_sum os

module _ (o : CoapOption) (nr e_sum u_sum : ℕ) (small : nr + o.delta < 256) where
  number_is : (nr + o.delta) % 2 ^ 16 ≡ nr + o.delta
  number_is = omega arith

  sum_is : (s : ℕ) → s ≤ nr → (s + sub16 (nr + o.delta) s) % 256 ≡ nr + o.delta
  sum_is s h = omega arith

extract_loop-fields :
    (os : List CoapOption) (nr e_sum u_sum e_len : ℕ)
    → nr + delta_sum os < 256
    → e_sum ≤ nr
    → u_sum ≤ nr
    → (map field (extract_loop os nr e_sum u_sum e_len).e_options ≡ keep is_class_e (fields nr os))
      × (map field (extract_loop os nr e_sum u_sum e_len).u_options
          ≡ keep (λ n. not (is_class_e n)) (fields nr os))
      × IsNumbered e_sum (extract_loop os nr e_sum u_sum e_len).e_options
      × IsNumbered u_sum (extract_loop os nr e_sum u_sum e_len).u_options
unfolding extract_loop fields keep
extract_loop-fields [] nr e_sum u_sum e_len h he hu = (refl, refl, tt, tt)
extract_loop-fields (o ∷ os) nr e_sum u_sum e_len h he hu =
    let size = 1 + counted_extra_bytes o.delta + counted_extra_bytes o.len + o.len in
    let f : Field = record { number = nr + o.delta; len = o.len; value = o.value } in
    let n = number_is o nr e_sum u_sum (omega arith) in
    let m : (nr + o.delta) % 256 ≡ nr + o.delta = omega arith in
    elim (Bool-cases (is_class_e (nr + o.delta))) [
      | inl yes_e ↦
          let s = sum_is o nr e_sum u_sum (omega arith) e_sum he in
          let ih =
            extract_loop-fields os (nr + o.delta) (nr + o.delta) u_sum ((e_len + size) % 2 ^ 16)
              (omega arith) (omega arith) (omega arith) in
          rw (n, yes_e, s, m) (ap (◌∷◌ f) ih.0, ih.1, (refl, ih.2), ih.3)
      | inr no_e ↦
          let s = sum_is o nr e_sum u_sum (omega arith) u_sum hu in
          let ih =
            extract_loop-fields os (nr + o.delta) e_sum (nr + o.delta) e_len (omega arith)
              (omega arith) (omega arith) in
          rw (n, no_e, s, m) (ih.0, ap (◌∷◌ f) ih.1, ih.2, (refl, ih.3))
    ]

-- For a packet whose option numbers are below 256, the encrypted options are those of class E and the
-- others are the rest, each in the order of the packet and with its number, length and value; and the
-- new deltas of either list number it from 0 again.
pub e_u_options_extract-fields :
    (packet : CoapPacket)
    → delta_sum packet.options < 256
    → (map field (e_u_options_extract packet).e_options ≡ keep is_class_e (fields 0 packet.options))
      × (map field (e_u_options_extract packet).u_options
          ≡ keep (λ n. not (is_class_e n)) (fields 0 packet.options))
      × IsNumbered 0 (e_u_options_extract packet).e_options
      × IsNumbered 0 (e_u_options_extract packet).u_options
unfolding e_u_options_extract
e_u_options_extract-fields packet h =
    extract_loop-fields packet.options 0 0 0 0 (omega arith) (omega arith) (omega arith)
