-- ===== src/Protect/Packet/Order.antt =====
-- The OSCORE option stands among the unprotected options in the order of the numbers.
use uoscore_uedhoc.Base.{
  ==_iff, Bool-cases, List, [], ap, arith, false, holds_below, holds_below_sound, if◌then◌else◌,
  inl, inr, leb, length, ltb, ltb→le, ltb→lt, map, none, ok, refl, suc, sym, true, ℕ, ◌%◌, ◌+◌, ◌<◌,
  ◌==◌, ◌^◌, ◌∷◌, ◌≡◌, ◌≢◌, ◌≤◌,
}
use uoscore_uedhoc.Coap.{CoapOption, CoapPacket, Field, changed, field, post}
use uoscore_uedhoc.Coap.Parse.{sub16}
use uoscore_uedhoc.Coap.Parse.Options.{IsNumbered}
use uoscore_uedhoc.Memory.{Pointer}
use uoscore_uedhoc.OptionClass.{coap_option_oscore}
use uoscore_uedhoc.Protect.Packet.{
  OscoreOption, next_option, oscore_opt_pos, oscore_pkg_generate, outer_code, place, place_loop,
}

-- The numbers do not fall, from `low` on, and fit in a byte.
abbrev pub Ascending : ℕ → List CoapOption → Type 0
Ascending low [] = Unit
Ascending low (u ∷ us) =
    (low ≤ u.option_number) × (u.option_number < 256) × Ascending u.option_number us

-- Insertion in front of the first larger number.
unfoldable pub insert_field : Field → List Field → List Field
insert_field f [] = f ∷ []
insert_field f (g ∷ gs) = if ltb f.number g.number then f ∷ g ∷ gs else g ∷ insert_field f gs

abbrev pub oscore_field : OscoreOption → Field
oscore_field o = record { number = coap_option_oscore; len = o.len; value = o.value }

-- The options behind the OSCORE option.
unfoldable pub placed : ℕ → List CoapOption → List CoapOption
placed sum [] = []
placed sum (u ∷ us) = place sum u.len u.value u.option_number ∷ placed u.option_number us

unfoldable pub placed_with : OscoreOption → ℕ → List CoapOption → List CoapOption
placed_with oscore sum [] = place sum oscore.len oscore.value coap_option_oscore ∷ []
placed_with oscore sum (u ∷ us) =
    if ltb coap_option_oscore u.option_number
    then place sum oscore.len oscore.value coap_option_oscore ∷ placed coap_option_oscore (u ∷ us)
    else place sum u.len u.value u.option_number ∷ placed_with oscore u.option_number us

sum_back : (sum n : ℕ) → sum ≤ n → n < 256 → (sum + sub16 n sum) % 256 ≡ n
sum_back sum n h k = omega arith

length-le-20 : (i n : ℕ) → i + n ≤ 20 → 0 < n → leb 20 i ≡ false
length-le-20 i n h k = ground arith

oscore_opt_pos-ge : (us : List CoapOption) (i : ℕ) → i ≤ oscore_opt_pos us i
unfolding oscore_opt_pos
oscore_opt_pos-ge [] i = omega arith
oscore_opt_pos-ge (u ∷ us) i = ground (arith, oscore_opt_pos-ge us (i + 1))

-- One round, on the slot of the OSCORE option and on any other.
module _ (oscore : OscoreOption) (pos rounds i sum : ℕ) (inside : i < 20)
    (rest : List CoapOption) where
  in_array : leb 20 i ≡ false
  in_array = ground arith

  place_oscore :
      (us : List CoapOption)
      → i ≡ pos
      → place_loop oscore pos rounds (i + 1) us ((sum + sub16 coap_option_oscore sum) % 256)
        ≡ ok rest
      → place_loop oscore pos (suc rounds) i us sum
        ≡ ok (place sum oscore.len oscore.value coap_option_oscore ∷ rest)
  unfolding place_loop next_option
  place_oscore us here later = let t : (i == pos) ≡ true = ground arith in rw (in_array, t, later)

  place_other :
      (u : CoapOption) (us : List CoapOption)
      → i ≢ pos
      → place_loop oscore pos rounds (i + 1) us ((sum + sub16 u.option_number sum) % 256) ≡ ok rest
      → place_loop oscore pos (suc rounds) i (u ∷ us) sum
        ≡ ok (place sum u.len u.value u.option_number ∷ rest)
  unfolding place_loop next_option
  place_other u us elsewhere later =
      let t : (i == pos) ≡ false = ground arith in rw (in_array, t, later)

place_loop-placed :
    (oscore : OscoreOption) (us : List CoapOption) (pos i sum : ℕ)
    → pos < i
    → i + length us ≤ 20
    → Ascending sum us
    → place_loop oscore pos (length us) i us sum ≡ ok (placed sum us)
unfolding placed
place_loop-placed oscore [] pos i sum past fits a = unfold place_loop in refl
place_loop-placed oscore (u ∷ us) pos i sum past fits a =
    let s = sum_back sum u.option_number a.0 a.1 in
    place_other oscore pos (length us) i sum (omega arith) (placed u.option_number us) u us
      (omega arith)
      (rw s
        (place_loop-placed oscore us pos (i + 1) u.option_number (omega arith) (omega arith) a.2))

place_loop-placed_with :
    (oscore : OscoreOption) (us : List CoapOption) (i sum : ℕ)
    → sum ≤ coap_option_oscore
    → i + length us < 20
    → Ascending sum us
    → place_loop oscore (oscore_opt_pos us i) (suc (length us)) i us sum
      ≡ ok (placed_with oscore sum us)
unfolding placed_with oscore_opt_pos
place_loop-placed_with oscore [] i sum low fits a =
    place_oscore oscore i 0 i sum (omega arith) [] [] refl (unfold place_loop in refl)
place_loop-placed_with oscore (u ∷ us) i sum low fits a =
    elim (Bool-cases (ltb coap_option_oscore u.option_number)) [
      | inl above ↦
          let s = sum_back sum coap_option_oscore low (omega arith) in
          let lo = ltb→lt coap_option_oscore u.option_number above in
          rw above (
            place_oscore oscore i (suc (length us)) i sum (omega arith)
              (placed coap_option_oscore (u ∷ us)) (u ∷ us) refl
              (rw s (
                place_loop-placed oscore (u ∷ us) i (i + 1) coap_option_oscore (omega arith)
                  (omega arith) (omega arith, a.1, a.2))))
      | inr below ↦
          let s = sum_back sum u.option_number a.0 a.1 in
          rw below (
            place_other oscore (oscore_opt_pos us (i + 1)) (suc (length us)) i sum (omega arith)
              (placed_with oscore u.option_number us) u us
              (omega (arith, oscore_opt_pos-ge us (i + 1)))
              (rw s (
                place_loop-placed_with oscore us (i + 1) u.option_number
                  (ltb→le coap_option_oscore u.option_number below) (omega arith) a.2)))
    ]

map-field-placed : (sum : ℕ) (us : List CoapOption) → map field (placed sum us) ≡ map field us
unfolding placed
map-field-placed sum [] = refl
map-field-placed sum (u ∷ us) = ap (◌∷◌ (field u)) (map-field-placed u.option_number us)

map-field-placed_with :
    (oscore : OscoreOption) (sum : ℕ) (us : List CoapOption)
    → map field (placed_with oscore sum us) ≡ insert_field (oscore_field oscore) (map field us)
unfolding placed_with insert_field
map-field-placed_with oscore sum [] = refl
map-field-placed_with oscore sum (u ∷ us) =
    elim (Bool-cases (ltb coap_option_oscore u.option_number)) [
      | inl above ↦
          rw above (ap (◌∷◌ (oscore_field oscore)) (map-field-placed coap_option_oscore (u ∷ us)))
      | inr below ↦ rw below (ap (◌∷◌ (field u)) (map-field-placed_with oscore u.option_number us))
    ]

placed-IsNumbered :
    (sum : ℕ) (us : List CoapOption) → Ascending sum us → IsNumbered sum (placed sum us)
unfolding placed
placed-IsNumbered sum [] a = tt
placed-IsNumbered sum (u ∷ us) a =
    let s = sum_back sum u.option_number a.0 a.1 in
    rw s (refl, placed-IsNumbered u.option_number us a.2)

placed_with-IsNumbered :
    (oscore : OscoreOption) (sum : ℕ) (us : List CoapOption)
    → sum ≤ coap_option_oscore
    → Ascending sum us
    → IsNumbered sum (placed_with oscore sum us)
unfolding placed_with
placed_with-IsNumbered oscore sum [] low a =
    (sym (sum_back sum coap_option_oscore low (omega arith)), tt)
placed_with-IsNumbered oscore sum (u ∷ us) low a =
    elim (Bool-cases (ltb coap_option_oscore u.option_number)) [
      | inl above ↦
          let s = sum_back sum coap_option_oscore low (omega arith) in
          let lo = ltb→lt coap_option_oscore u.option_number above in
          rw above
            (rw s (refl, placed-IsNumbered coap_option_oscore (u ∷ us) (omega arith, a.1, a.2)))
      | inr below ↦
          let s = sum_back sum u.option_number a.0 a.1 in
          rw below (
            rw s (
              refl,
              placed_with-IsNumbered oscore u.option_number us
                  (ltb→le coap_option_oscore u.option_number below) a.2,
            ))
    ]

outer_code_table :
    holds_below (λ c. outer_code c == (if ltb c 32 then post else changed)) 256 ≡ true
unfolding holds_below outer_code
outer_code_table = refl

-- The class of a code is its upper three bits.
outer_code_lem : (c : ℕ) → c < 256 → outer_code c ≡ (if ltb c 32 then post else changed)
outer_code_lem c h = (==_iff (outer_code c) (if ltb c 32 then post else changed)).0 (
    holds_below_sound (λ x. outer_code x == (if ltb x 32 then post else changed)) 256
      outer_code_table c h)

-- From fewer than 20 unprotected options in the order of their numbers, a packet is made whose
-- options are these and the OSCORE option, in front of the first that has a larger number than 9; the
-- deltas number them from 0. The payload is the ciphertext, with its length in a uint16_t, the code is
-- POST for a request and Changed for a response, and the token and the rest of the header are kept.
pub oscore_pkg_generate_lem :
    (packet : CoapPacket) (us : List CoapOption) (n : ℕ) (ciphertext : Pointer)
    (oscore : OscoreOption)
    → packet.header.code < 256
    → length us < 20
    → Ascending 0 us
    → (out : CoapPacket) × (oscore_pkg_generate packet us n ciphertext oscore ≡ ok out)
      × (map field out.options ≡ insert_field (oscore_field oscore) (map field us))
      × IsNumbered 0 out.options
      × (out.header
          ≡ record packet.header { code = if ltb packet.header.code 32 then post else changed })
      × (out.payload ≡ ciphertext)
      × (out.payload_len ≡ n % 2 ^ 16)
      × (out.token ≡ (if packet.header.tkl == 0 then none else packet.token))
unfolding oscore_pkg_generate
oscore_pkg_generate_lem packet us n ciphertext oscore byte few a =
    let os = placed_with oscore 0 us in
    let rounds : length us + 1 ≡ suc (length us) = omega arith in
    let loop = place_loop-placed_with oscore us 0 0 (omega arith) (omega arith) a in
    let made = λ (token : Pointer) (code : ℕ). record packet {
      header = record packet.header { code = code };
      token = token;
      options = os;
      payload_len = n % 2 ^ 16;
      payload = ciphertext;
    } in
    (
      made (if packet.header.tkl == 0 then none else packet.token) (outer_code packet.header.code),
      rw (rounds, loop),
      map-field-placed_with oscore 0 us,
      placed_with-IsNumbered oscore 0 us (omega arith) a,
      ap (λ (c : ℕ). record packet.header { code = c }) (outer_code_lem packet.header.code byte),
      refl,
      refl,
      refl,
    )
