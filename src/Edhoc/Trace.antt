-- ===== src/Edhoc/Trace.antt =====
-- What a run of a role may exchange: histories of an abstract machine, and the rules by which the code of
-- modules/edhoc/src/initiator.c and modules/edhoc/src/responder.c is followed step by step.
use uoscore_uedhoc.Base.{
  Bool-cases, List, [], err, fault, inl, inr, leb, length, ok, refl, ◌++◌, ◌∷◌, ◌≡◌, ◌≢◌,
}
use uoscore_uedhoc.Edhoc.{EdhocResult, msg_default_size}
use uoscore_uedhoc.Edhoc.Exchange.{
  Exchange, Run, Session, accept_message, continue, receive, run, transmit, ◌>>=◌,
}
use uoscore_uedhoc.Edhoc.Host.{Event, Host, received, sent}
use uoscore_uedhoc.Memory.{Bytes}

-- The events behind `before` that take a machine from its first phase to another. It moves with an event, or
-- silently.
pub data History {Phase : Type 0} (Step : Phase → Event → Phase → Type 0)
    (Silent : Phase → Phase → Type 0) (first : Phase) (before : List Event)
    : List Event → Phase → Type 0 where
  here : History Step Silent first before before first
  next :
      {es : List Event} {p q : Phase} {e : Event}
      → History Step Silent first before es p
      → Step p e q
      → History Step Silent first before (es ++ e ∷ []) q
  silently :
      {es : List Event} {p q : Phase}
      → History Step Silent first before es p
      → Silent p q
      → History Step Silent first before es q

-- What holds of the value and the events of a run that ends without error, and what holds of the events of
-- any other.
abbrev pub EndsWith {ℓ κ} :
    {A : Type ℓ}
    → (A → List Event → Type κ)
    → (List Event → Type κ)
    → EdhocResult A
    → List Event
    → Type κ
EndsWith good bad (ok a) es = good a es
EndsWith good bad (err e) es = bad es
EndsWith good bad fault es = bad es

abbrev pub Ends {ℓ κ} :
    {A : Type ℓ} → (A → List Event → Type κ) → (List Event → Type κ) → Run A → Type κ
Ends good bad r = EndsWith good bad r.outcome r.session.events

module _ {κ} (bad : List Event → Type κ) where
  continue-Ends {ℓ μ} :
      {A : Type ℓ} {B : Type μ} (between : A → List Event → Type κ) (good : B → List Event → Type κ)
      (r : EdhocResult A) (f : A → Exchange B) (s : Session)
      → EndsWith between bad r s.events
      → ((a : A) (s' : Session) → between a s'.events → Ends good bad (f a s'))
      → Ends good bad (continue r s f)
  continue-Ends between good fault f s h k = h
  continue-Ends between good (err e) f s h k = h
  continue-Ends between good (ok a) f s h k = k a s h

  pub Ends-bind {ℓ μ} :
      {A : Type ℓ} {B : Type μ} (between : A → List Event → Type κ) (good : B → List Event → Type κ)
      (m : Exchange A) (f : A → Exchange B) (s : Session)
      → Ends between bad (m s)
      → ((a : A) (s' : Session) → between a s'.events → Ends good bad (f a s'))
      → Ends good bad ((m >>= f) s)
  Ends-bind between good m f s h k = continue-Ends between good (m s).outcome f (m s).session h k

  -- A computation that exchanges nothing: behind it its equation is known.
  pub Ends-run {ℓ μ} :
      {A : Type ℓ} {B : Type μ} (good : B → List Event → Type κ) (r : EdhocResult A)
      (f : A → Exchange B) (s : Session)
      → bad s.events
      → ((a : A) → r ≡ ok a → Ends good bad (f a s))
      → Ends good bad ((run r >>= f) s)
  Ends-run good fault f s b k = b
  Ends-run good (err e) f s b k = b
  Ends-run good (ok a) f s b k = k a refl

  -- The same, where a run may stop only if the computation gives nothing.
  pub Ends-try {ℓ μ} :
      {A : Type ℓ} {B : Type μ} (good : B → List Event → Type κ) (r : EdhocResult A)
      (f : A → Exchange B) (s : Session)
      → (((a : A) → r ≢ ok a) → bad s.events)
      → ((a : A) → r ≡ ok a → Ends good bad (f a s))
      → Ends good bad ((run r >>= f) s)
  Ends-try good fault f s b k = b (λ a e. cc)
  Ends-try good (err e) f s b k = b (λ a is. cc)
  Ends-try good (ok a) f s b k = k a refl

  transmitted {μ} :
      {B : Type μ} (good : B → List Event → Type κ) (r : EdhocResult (Unit {0}))
      (f : Unit {0} → Exchange B) (s : Session)
      → bad s.events
      → Ends good bad (f tt s)
      → Ends good bad (continue r s f)
  transmitted good fault f s b k = b
  transmitted good (err e) f s b k = b
  transmitted good (ok tt) f s b k = k

  -- A message that is sent, with or without an error.
  pub Ends-transmit {μ} :
      {B : Type μ} (good : B → List Event → Type κ) (h : Host) (msg : Bytes)
      (f : Unit {0} → Exchange B) (s : Session)
      → bad (s.events ++ sent msg ∷ [])
      → ((s' : Session) → s'.events ≡ s.events ++ sent msg ∷ [] → Ends good bad (f tt s'))
      → Ends good bad ((transmit h msg >>= f) s)
  unfolding transmit
  Ends-transmit good h msg f s b k =
      let after_it = record s { events = s.events ++ sent msg ∷ [] } in
      transmitted good (h.tx s.events msg) f after_it b (k after_it refl)

  accepted {μ} :
      {B : Type μ} (good : B → List Event → Type κ) (r : EdhocResult Bytes) (f : Bytes → Exchange B)
      (s : Session)
      → bad s.events
      → ((msg : Bytes) (s' : Session)
          → s'.events ≡ s.events ++ received msg ∷ []
          → Ends good bad (f msg s'))
      → Ends good bad (continue (accept_message s r).outcome (accept_message s r).session f)
  accepted good fault f s b k = b
  accepted good (err e) f s b k = b
  accepted good (ok msg) f s b k = elim (Bool-cases (leb (length msg) msg_default_size)) [
    | inl fits ↦ rw fits (k msg (record s { events = s.events ++ received msg ∷ [] }) refl)
    | inr long ↦ rw long b
  ]

  -- A message that is received, if there is one.
  pub Ends-receive {μ} :
      {B : Type μ} (good : B → List Event → Type κ) (h : Host) (f : Bytes → Exchange B)
      (s : Session)
      → bad s.events
      → ((msg : Bytes) (s' : Session)
          → s'.events ≡ s.events ++ received msg ∷ []
          → Ends good bad (f msg s'))
      → Ends good bad ((receive h >>= f) s)
  unfolding receive
  Ends-receive good h f s b k = accepted good (h.rx s.events) f s b k
