-- ===== src/Edhoc/Initiator.antt =====
-- The initiator: `edhoc_initiator_run` in modules/edhoc/src/initiator.c, in three parts, up to each message and
-- behind the last one.
pub mod Process
pub mod Refuse
pub mod Machine
use uoscore_uedhoc.Base.{Bool, List, [], err, false, fault, ok, true, ℕ}
use uoscore_uedhoc.Edhoc.{
  Authentication, EdhocInitiatorContext, EdhocResult, OtherPartyCred, authentication_type_get,
  bytes_at, error_message_received, get_suite, msg_default_size, responder_authentication_failed,
}
use uoscore_uedhoc.Edhoc.Decoder.{word_at}
use uoscore_uedhoc.Edhoc.Exchange.{
  Exchange, Role, initiator, provide_error, receive, run, transmit, tx_err_msg, ◌>>=◌, ◌>>◌,
}
use uoscore_uedhoc.Edhoc.Host.{Host, fresh, msg1_local, prefix, store}
use uoscore_uedhoc.Edhoc.Initiator.Process.{
  InitiatorResult, Middle, Start, make_message_3, process_fields_2,
}
use uoscore_uedhoc.Edhoc.Messages.{msg1_encode, msg2_parse}
use uoscore_uedhoc.Edhoc.Steps.{authentic}
use uoscore_uedhoc.Edhoc.Transcript.{th4_calculate}
use uoscore_uedhoc.Memory.{Bytes}

pub send_message_1 : Host → EdhocInitiatorContext → Exchange Start
send_message_1 h c = do
  first ← run (bytes_at c.suites_i.ptr 1)
  suite ← run (get_suite (word_at first))
  encoded ← run (msg1_encode h c (fresh h msg1_local msg_default_size))
  msg1 ← run (prefix encoded.msg_len encoded.msg)
  transmit h msg1
  let none_static : Authentication = record { static_dh_i = false; static_dh_r = false }
  run (
      ok (record {
        suite = suite;
        authentication = authentication_type_get c.method_type none_static;
        msg1 = msg1;
      }))

-- An error message goes to the caller.
unfoldable pub or_provide_error {ℓ} : {A : Type ℓ} → Bytes → EdhocResult A → Exchange A
unfolding provide_error
or_provide_error msg fault = run fault
or_provide_error msg (ok a) = run (ok a)
or_provide_error msg (err error_message_received) = do
  provide_error msg
  run (err error_message_received)
or_provide_error msg (err e) = run (err e)

-- An error message is sent, and then the authentication has failed.
unfoldable pub refuse : Host → Role → ℕ → Bytes → Exchange (Unit {0})
unfolding tx_err_msg
refuse h role corr c_x = do
  tx_err_msg h role corr c_x [] []
  run (err responder_authentication_failed)

abbrev pub continue_if : Bool → Exchange (Unit {0}) → Exchange (Unit {0})
continue_if true otherwise = run (ok tt)
continue_if false otherwise = otherwise

pub process_message_2 :
    Host → EdhocInitiatorContext → List OtherPartyCred → Bytes → Start → Exchange Middle
unfolding process_fields_2
process_message_2 h c cred_r_array ad_2 st = do
  msg2 ← receive h
  m ← or_provide_error msg2 (msg2_parse h c.corr msg2 c.c_i.len c.g_x.len)
  mid ← run (process_fields_2 h c cred_r_array ad_2 st m)
  good ← run (
      authentic h st.authentication.static_dh_r st.suite mid.own_mac mid.responder_pk
        mid.split_plaintext.sign_or_mac)
  continue_if good (refuse h initiator c.corr m.c_r_2)
  run (ok mid)

pub send_message_3 :
    Host → EdhocInitiatorContext → Bytes → Bytes → Start → Middle → Exchange InitiatorResult
unfolding make_message_3
send_message_3 h c prk_4x3m th4 st mid = do
  m ← run (make_message_3 h c prk_4x3m st mid)
  transmit h m.msg3
  hash4 ← run (th4_calculate h st.suite.edhoc_hash m.th3 m.ciphertext_3)
  th4' ← run (store th4 hash4)
  run (
      ok (record {
        prk_4x3m_i = m.prk_4x3m;
        th4_i = th4';
        ad_2_i = mid.split_plaintext.ad;
        ad_2_i_len = mid.split_plaintext.ad_len;
      }))

-- `ad_2`, `prk_4x3m` and `th4` are the arrays of the caller.
unfoldable pub edhoc_initiator_run :
    Host
    → EdhocInitiatorContext
    → List OtherPartyCred
    → Bytes
    → Bytes
    → Bytes
    → Exchange InitiatorResult
unfolding send_message_1 process_message_2 send_message_3
edhoc_initiator_run h c cred_r_array ad_2 prk_4x3m th4 = do
  st ← send_message_1 h c
  mid ← process_message_2 h c cred_r_array ad_2 st
  send_message_3 h c prk_4x3m th4 st mid
