-- ===== src/Edhoc/Exchange.antt =====
-- Sending and receiving: what a role has exchanged so far and what it has given to its caller as the error
-- message, passed from call to call; and the error message that it sends, modules/edhoc/src/err_msg.c.
use uoscore_uedhoc.Base.{
  Bool, List, [], drop, err, fault, if◌then◌else◌, leb, length, ltb, ok, ℕ, ◌++◌, ◌==◌, ◌||◌, ◌∷◌,
}
use uoscore_uedhoc.Edhoc.{
  EdhocResult, dest_buffer_too_small, err_msg_default_size, error_message_received,
  msg_default_size,
}
use uoscore_uedhoc.Edhoc.Host.{Event, Host, encode_checked, memcpy_checked, received, sent}
use uoscore_uedhoc.Edhoc.Keys.{narrow}
use uoscore_uedhoc.Memory.{Bytes}
use uoscore_uedhoc.Platform.{CborItem, byte_string}

-- `err_msg` is the array of the caller, of which `err_msg_len` bytes are set.
pub record Session : Type 0 where
  pub events : List Event
  pub err_msg : Bytes
  pub err_msg_len : ℕ

pub record Run {ℓ} (A : Type ℓ) : Type ℓ where
  pub outcome : EdhocResult A
  pub session : Session

abbrev pub Exchange {ℓ} : Type ℓ → Type ℓ
Exchange A = Session → Run A

abbrev pub run {ℓ} : {A : Type ℓ} → EdhocResult A → Exchange A
run r s = record { outcome = r; session = s }

abbrev pub continue {ℓ κ} :
    {A : Type ℓ} {B : Type κ} → EdhocResult A → Session → (A → Exchange B) → Run B
continue fault s next = record { outcome = fault; session = s }
continue (err e) s next = record { outcome = err e; session = s }
continue (ok a) s next = next a s

infixl 5 ◌>>=◌ ◌>>◌
abbrev pub ◌>>=◌ {ℓ κ} : {A : Type ℓ} {B : Type κ} → Exchange A → (A → Exchange B) → Exchange B
◌>>=◌ m next s = let r = m s in continue r.outcome r.session next

abbrev pub ◌>>◌ {ℓ κ} : {A : Type ℓ} {B : Type κ} → Exchange A → Exchange B → Exchange B
m >> k = m >>= λ _. k

unfoldable pub transmit : Host → Bytes → Exchange (Unit {0})
transmit h msg s = record {
  outcome = h.tx s.events msg;
  session = record s { events = s.events ++ sent msg ∷ [] };
}

abbrev pub accept_message : Session → EdhocResult Bytes → Run Bytes
accept_message s fault = record { outcome = fault; session = s }
accept_message s (err e) = record { outcome = err e; session = s }
accept_message s (ok msg) =
    if leb (length msg) msg_default_size
    then record { outcome = ok msg; session = record s { events = s.events ++ received msg ∷ [] } }
    else record { outcome = fault; session = s }

-- `rx` into an array of 256 bytes.
unfoldable pub receive : Host → Exchange Bytes
receive h s = accept_message s (h.rx s.events)

pub data Role : Type 0 where
  initiator responder : Role

-- C_x and SUITES_R are left out where they are empty. The error message itself is always empty.
abbrev nonempty_string : Bytes → List CborItem
nonempty_string [] = []
nonempty_string (b ∷ bs) = byte_string (b ∷ bs) ∷ []

unfoldable pub err_msg_crate : Host → Bytes → Bytes → Bytes → ℕ → EdhocResult Bytes
err_msg_crate h c_x err_msg_str suites_r msg_len =
    encode_checked h msg_len
      (nonempty_string c_x ++ (byte_string err_msg_str ∷ nonempty_string suites_r))

-- Whether the error message has a connection identifier.
abbrev pub has_c_x : Role → ℕ → Bool
has_c_x responder corr = corr == 0 || corr == 2
has_c_x initiator corr = corr == 0 || corr == 1

unfoldable pub tx_err_msg : Host → Role → ℕ → Bytes → Bytes → Bytes → Exchange (Unit {0})
unfolding err_msg_crate transmit
tx_err_msg h role corr c_x err_msg_str suites = do
  let c = if has_c_x role corr then narrow c_x else []
  msg ← run (err_msg_crate h c err_msg_str suites err_msg_default_size)
  transmit h msg

-- An error message is copied to the array of the caller.
unfoldable pub provide_error : Bytes → Exchange (Unit {0})
unfolding memcpy_checked
provide_error msg s =
    if ltb (length s.err_msg) (length msg)
    then record { outcome = err dest_buffer_too_small; session = s }
    else record {
      outcome = err error_message_received;
      session = record s { err_msg = msg ++ drop (length msg) s.err_msg; err_msg_len = length msg };
    }
