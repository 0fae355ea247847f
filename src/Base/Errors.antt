-- ===== src/Base/Errors.antt =====
-- The error codes of the OSCORE module (modules/oscore/inc/error.h) and the outcome of a C function.
use mathlib.Core.Path.{◌≡◌, refl}

-- `enum OscoreError` without `OscoreNoError`, which is the outcome `ok`.
pub data OscoreError : Type 0 where
  tiny_crypt_error unknown_hkdf out_too_long : OscoreError
  invalid_algorithm_aead invalid_algorithm_hkdf : OscoreError
  kid_recipent_id_mismatch authentication_error value_len_to_long_error : OscoreError
  in_pkt_invalid_tkl in_pkt_invalid_option_delta in_pkt_invalid_option_len : OscoreError
  in_pkt_invalid_piv info_to_long dest_buffer_to_small : OscoreError
  delta_extra_byte_error len_extra_byte_error : OscoreError

-- What a call does: it returns without error, with its outputs, it returns an error code, or it
-- reads or writes outside an object or through NULL, which C leaves undefined.
pub data Outcome {ℓ} (E : Type 0) (A : Type ℓ) : Type ℓ where
  fault : Outcome E A
  err : E → Outcome E A
  ok : A → Outcome E A

-- In the OSCORE module `err` holds an `OscoreError`, and `OscoreNoError` is `ok`.
abbrev pub Result {ℓ} : Type ℓ → Type ℓ
Result A = Outcome OscoreError A

infixl 5 ◌>>=◌ ◌>>◌
abbrev pub ◌>>=◌ {ℓ κ} :
    {E : Type 0} {A : Type ℓ} {B : Type κ} → Outcome E A → (A → Outcome E B) → Outcome E B
fault >>= next = fault
err code >>= next = err code
ok out >>= next = next out

abbrev pub ◌>>◌ {ℓ κ} :
    {E : Type 0} {A : Type ℓ} {B : Type κ} → Outcome E A → Outcome E B → Outcome E B
m >> k = m >>= λ _. k

-- A chain that returns without error got a value from its first call.
pub bind-eq-ok {ℓ κ} :
    {E : Type 0} {A : Type ℓ} {B : Type κ} (call : Outcome E A) (next : A → Outcome E B) {out : B}
    → (call >>= next) ≡ ok out
    → (a : A) × (call ≡ ok a) × (next a ≡ ok out)
bind-eq-ok fault next returns = cc
bind-eq-ok (err code) next returns = cc
bind-eq-ok (ok a) next returns = (a, refl, returns)

-- What holds of the outputs of a call that returns without error.
abbrev pub Ensures {ℓ κ} : {E : Type 0} {A : Type ℓ} → (A → Type κ) → Outcome E A → Type κ
Ensures P (ok a) = P a
Ensures P (err e) = Unit
Ensures P fault = Unit

pub Ensures-bind {ℓ κ μ} :
    {E : Type 0} {A : Type ℓ} {B : Type κ} (P : B → Type μ) (m : Outcome E A) (f : A → Outcome E B)
    → ((a : A) → m ≡ ok a → Ensures P (f a))
    → Ensures P (m >>= f)
Ensures-bind P (ok a) f h = h a refl
Ensures-bind P (err e) f h = tt
Ensures-bind P fault f h = tt

pub Ensures-ok {ℓ κ} :
    {E : Type 0} {A : Type ℓ} (P : A → Type κ) (m : Outcome E A) {a : A}
    → Ensures P m
    → m ≡ ok a
    → P a
Ensures-ok P m h e = rw e at h

pub ok-injective {ℓ} :
    {E : Type 0} {A : Type ℓ} {a b : A} → ◌≡◌ {A = Outcome E A} (ok a) (ok b) → a ≡ b
ok-injective e = cc
