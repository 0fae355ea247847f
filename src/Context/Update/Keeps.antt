-- ===== src/Context/Update/Keeps.antt =====
-- What a call of `context_update` leaves as it was.
use uoscore_uedhoc.Base.{List, Result, err, fault, ok, refl, ◌∙◌, ◌≡◌}
use uoscore_uedhoc.Coap.{CoapOption}
use uoscore_uedhoc.Context.{CommonContext, Context, RecipientContext, SenderContext, client}
use uoscore_uedhoc.Context.Update.{
  M, and_then, calculate_aad, calculate_nonce, context_update, fill_aad, role_update, set_aad_len,
  settle, ◌then_do◌,
}
use uoscore_uedhoc.Memory.{ByteArray}
use uoscore_uedhoc.Platform.{Cbor, TinyCrypt}

-- A part of the context that a step keeps.
abbrev pub Keeps : {X A : Type 0} → (Context → X) → M A → Type 0
Keeps part step = (c : Context) → part (step c).1 ≡ part c

pub settle-part :
    {X A : Type 0} (part : Context → X) (set_to : A → Context → Context)
    → ((a : A) (c : Context) → part (set_to a c) ≡ part c)
    → (r : Result A) (c : Context) → part (settle r set_to c).1 ≡ part c
settle-part part set_to h (ok a) c = h a c
settle-part part set_to h (err e) c = refl
settle-part part set_to h fault c = refl

pub and_then-part :
    {X A B : Type 0} (part : Context → X) (r : Result A) (c : Context) (k : M B)
    → Keeps part k
    → part (and_then (r, c) k).1 ≡ part c
and_then-part part (ok a) c k h = h c
and_then-part part (err e) c k h = refl
and_then-part part fault c k h = refl

pub then_do-Keeps :
    {X A B : Type 0} (part : Context → X) (m : M A) (k : M B)
    → Keeps part m
    → Keeps part k
    → Keeps part (m then_do k)
then_do-Keeps part m k hm hk c = and_then-part part (m c).0 (m c).1 k hk ∙ hm c

-- What is left of a context without its nonce and its additional data.
pub record Unshared : Type 0 where
  pub cc : CommonContext
  pub sc : SenderContext
  pub rc : RecipientContext
  pub piv : ByteArray
  pub kid_context : ByteArray
  pub kid : ByteArray

abbrev pub unshared : Context → Unshared
unshared c = record {
  cc = c.cc;
  sc = c.sc;
  rc = c.rc;
  piv = c.rrc.piv;
  kid_context = c.rrc.kid_context;
  kid = c.rrc.kid;
}

pub calculate_nonce-Keeps : Keeps unshared calculate_nonce
unfolding calculate_nonce
calculate_nonce-Keeps = λ c. settle-part unshared _ (λ a c₁. refl) _ c

set_aad_len-Keeps :
    (cbor : Cbor) (options : List CoapOption) → Keeps unshared (set_aad_len cbor options)
unfolding set_aad_len
set_aad_len-Keeps cbor options = λ c. settle-part unshared _ (λ a c₁. refl) _ c

fill_aad-Keeps : (cbor : Cbor) (options : List CoapOption) → Keeps unshared (fill_aad cbor options)
unfolding fill_aad
fill_aad-Keeps cbor options = λ c. settle-part unshared _ (λ a c₁. refl) _ c

pub calculate_aad-Keeps :
    (cbor : Cbor) (options : List CoapOption) → Keeps unshared (calculate_aad cbor options)
unfolding calculate_aad
calculate_aad-Keeps cbor options =
    then_do-Keeps unshared (set_aad_len cbor options) (fill_aad cbor options)
      (set_aad_len-Keeps cbor options) (fill_aad-Keeps cbor options)

-- The call of a client, whether it fails or not, changes nothing of the context but the nonce and the
-- additional data.
pub context_update-client-Keeps :
    (cbor : Cbor) (tc : TinyCrypt) (options : List CoapOption) (new_piv new_kid_context : ByteArray)
    (c : Context)
    → unshared (context_update cbor tc client options new_piv new_kid_context c).1 ≡ unshared c
unfolding context_update role_update
context_update-client-Keeps cbor tc options new_piv new_kid_context c =
    then_do-Keeps unshared (role_update cbor tc client new_piv new_kid_context)
      (calculate_nonce then_do calculate_aad cbor options) (λ c. refl)
      (then_do-Keeps unshared calculate_nonce (calculate_aad cbor options) calculate_nonce-Keeps
        (calculate_aad-Keeps cbor options))
      c
