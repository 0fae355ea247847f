-- ===== src/Edhoc/Initiator/Refuse.antt =====
-- The rules for the calls by which both roles end early: an error message that is received, and one that is
-- sent because the other party is not authentic.
use uoscore_uedhoc.Base.{
  Bool, Bool-cases, List, [], err, false, fault, if◌then◌else◌, inl, inr, length, ltb, ok, refl,
  true, ℕ, ◌++◌, ◌∷◌, ◌≡◌, ◌≢◌,
}
use uoscore_uedhoc.Edhoc.{
  EdhocError, EdhocResult, err_msg_default_size, error_message_received,
  responder_authentication_failed,
}
use uoscore_uedhoc.Edhoc.Exchange.{
  Exchange, Role, Session, continue, err_msg_crate, has_c_x, run, transmit, ◌>>=◌,
}
use uoscore_uedhoc.Edhoc.Host.{Event, Host, sent}
use uoscore_uedhoc.Edhoc.Initiator.{continue_if, or_provide_error, refuse}
use uoscore_uedhoc.Edhoc.Keys.{narrow}
use uoscore_uedhoc.Edhoc.Trace.{Ends}
use uoscore_uedhoc.Memory.{Bytes}

-- The error message that a role sends.
abbrev pub refusal : Host → Role → ℕ → Bytes → EdhocResult Bytes
refusal h role corr c_x =
    err_msg_crate h (if has_c_x role corr then narrow c_x else []) [] [] err_msg_default_size

module _ {κ} (bad : List Event → Type κ) where
  provided :
      {A : Type 0} {B : Type 0} (good : B → List Event → Type κ) (msg : Bytes) (e : EdhocError)
      (f : A → Exchange B) (s : Session)
      → bad s.events
      → Ends good bad ((or_provide_error msg (err e) >>= f) s)
  unfolding or_provide_error
  provided good msg error_message_received f s b =
      elim (Bool-cases (ltb (length s.err_msg) (length msg))) [
        | inl long ↦ rw long b
        | inr fits ↦ rw fits b
      ]
  provided good msg _ f s b = b

  pub Ends-or_provide_error :
      {A : Type 0} {B : Type 0} (good : B → List Event → Type κ) (msg : Bytes) (r : EdhocResult A)
      (f : A → Exchange B) (s : Session)
      → bad s.events
      → ((a : A) → r ≡ ok a → Ends good bad (f a s))
      → Ends good bad ((or_provide_error msg r >>= f) s)
  unfolding or_provide_error
  Ends-or_provide_error good msg fault f s b k = b
  Ends-or_provide_error good msg (err e) f s b k = provided good msg e f s b
  Ends-or_provide_error good msg (ok a) f s b k = k a refl

  pub Ends-try_or_provide_error :
      {A : Type 0} {B : Type 0} (good : B → List Event → Type κ) (msg : Bytes) (r : EdhocResult A)
      (f : A → Exchange B) (s : Session)
      → (((a : A) → r ≢ ok a) → bad s.events)
      → ((a : A) → r ≡ ok a → Ends good bad (f a s))
      → Ends good bad ((or_provide_error msg r >>= f) s)
  unfolding or_provide_error
  Ends-try_or_provide_error good msg fault f s b k =
      Ends-or_provide_error good msg fault f s (b (λ a e. cc)) k
  Ends-try_or_provide_error good msg (err e) f s b k =
      Ends-or_provide_error good msg (err e) f s (b (λ a is. cc)) k
  Ends-try_or_provide_error good msg (ok a) f s b k = k a refl

  failed_after :
      {B : Type 0} (good : B → List Event → Type κ) (r : EdhocResult (Unit {0})) (e : EdhocError)
      (f : Unit {0} → Exchange B) (s : Session)
      → bad s.events
      → Ends good bad (
          continue {A = Unit {0}}
            (continue {B = Unit {0}} r s (λ _. run (err e))).outcome
            (continue {B = Unit {0}} r s (λ _. run (err e))).session
            f)
  failed_after good fault e f s b = b
  failed_after good (err d) e f s b = b
  failed_after good (ok tt) e f s b = b

  failed :
      {B : Type 0} (good : B → List Event → Type κ) (r : EdhocResult (Unit {0})) (e : EdhocError)
      (s : Session)
      → bad s.events
      → Ends good bad (continue r s (λ _. run (err e)))
  failed good fault e s b = b
  failed good (err d) e s b = b
  failed good (ok tt) e s b = b

  refused_run :
      {B : Type 0} (good : B → List Event → Type κ) (h : Host) (r : EdhocResult Bytes)
      (f : Unit {0} → Exchange B) (s : Session)
      → (((e : Bytes) → r ≢ ok e) → bad s.events)
      → ((e : Bytes) → r ≡ ok e → bad (s.events ++ sent e ∷ []))
      → Ends good bad
          ((((run r >>= transmit h) >>= λ _. run (err responder_authentication_failed)) >>= f) s)
  unfolding transmit
  refused_run good h fault f s b k = b (λ e is. cc)
  refused_run good h (err d) f s b k = b (λ e is. cc)
  refused_run good h (ok msg) f s b k =
      failed_after good (h.tx s.events msg) responder_authentication_failed f
        (record s { events = s.events ++ sent msg ∷ [] }) (k msg refl)

  -- The same for any error code, at the end of a run.
  pub Ends-refusal :
      {B : Type 0} (good : B → List Event → Type κ) (h : Host) (r : EdhocResult Bytes)
      (code : EdhocError) (s : Session)
      → (((e : Bytes) → r ≢ ok e) → bad s.events)
      → ((e : Bytes) → r ≡ ok e → bad (s.events ++ sent e ∷ []))
      → Ends good bad (((run r >>= transmit h) >>= λ _. run (err code)) s)
  unfolding transmit
  Ends-refusal good h fault code s b k = b (λ e is. cc)
  Ends-refusal good h (err d) code s b k = b (λ e is. cc)
  Ends-refusal good h (ok msg) code s b k =
      failed good (h.tx s.events msg) code (record s { events = s.events ++ sent msg ∷ [] })
        (k msg refl)

  -- The test on the other party, with the two ways in which the run ends where it fails.
  pub Ends-continue_if :
      {B : Type 0} (good : B → List Event → Type κ) (h : Host) (role : Role) (corr : ℕ)
      (c_x : Bytes) (test : Bool) (f : Unit {0} → Exchange B) (s : Session)
      → (((e : Bytes) → test ≡ false → refusal h role corr c_x ≢ ok e) → bad s.events)
      → ((e : Bytes)
          → test ≡ false
          → refusal h role corr c_x ≡ ok e
          → bad (s.events ++ sent e ∷ []))
      → (test ≡ true → Ends good bad (f tt s))
      → Ends good bad ((continue_if test (refuse h role corr c_x) >>= f) s)
  unfolding refuse
  Ends-continue_if good h role corr c_x true f s b k t = t refl
  Ends-continue_if good h role corr c_x false f s b k t =
      refused_run good h (refusal h role corr c_x) f s (λ no. b (λ e f. no e)) (λ e. k e refl)
