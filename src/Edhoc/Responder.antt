-- ===== src/Edhoc/Responder.antt =====
-- The responder: `edhoc_responder_run` in modules/edhoc/src/responder.c, in three parts, up to each message that
-- it receives or sends and behind the last one.
pub mod Process
pub mod Machine
use uoscore_uedhoc.Base.{List, [], err, ok, ℕ}
use uoscore_uedhoc.Edhoc.{EdhocResponderContext, OtherPartyCred, contents, error_message_sent}
use uoscore_uedhoc.Edhoc.Decoder.{word_at}
use uoscore_uedhoc.Edhoc.Exchange.{
  Exchange, receive, responder, run, transmit, tx_err_msg, ◌>>=◌, ◌>>◌,
}
use uoscore_uedhoc.Edhoc.Host.{Host, prefix, store}
use uoscore_uedhoc.Edhoc.Initiator.{continue_if, or_provide_error, refuse}
use uoscore_uedhoc.Edhoc.Keys.{narrow}
use uoscore_uedhoc.Edhoc.Messages.{Msg1, msg1_parse, msg3_parse, selected_suite_is_supported}
use uoscore_uedhoc.Edhoc.Responder.Process.{
  Accepted, Message2, accept_1, make_message_2, process_ciphertext_3,
}
use uoscore_uedhoc.Edhoc.Steps.{authentic}
use uoscore_uedhoc.Edhoc.Transcript.{th4_calculate}
use uoscore_uedhoc.Memory.{Bytes}

-- After the error message the protocol is discontinued.
unfoldable pub refuse_suite : Host → EdhocResponderContext → Msg1 → Exchange (Unit {0})
unfolding tx_err_msg
refuse_suite h c m = do
  c_i ← run (prefix m.c_i_len m.c_i)
  suites ← run (contents c.suites_r)
  tx_err_msg h responder m.method_corr c_i [] (narrow suites)
  run (err error_message_sent)

-- What message 1 leaves, and the message itself.
pub record First : Type 0 where
  pub accepted : Accepted
  pub msg1 : Bytes

pub receive_message_1 : Host → EdhocResponderContext → Bytes → Exchange First
receive_message_1 h c ad_1 = do
  msg1 ← receive h
  m ← run (msg1_parse h msg1 ad_1)
  selected ← run (prefix 1 m.suites_i)
  supported ← run (selected_suite_is_supported (word_at selected) c.suites_r)
  continue_if supported (refuse_suite h c m)
  accepted ← run (accept_1 h m)
  run (ok (record { accepted = accepted; msg1 = msg1 }))

pub send_message_2 : Host → EdhocResponderContext → First → Exchange Message2
send_message_2 h c first = do
  m ← run (make_message_2 h c first.msg1 first.accepted)
  transmit h m.msg2
  run (ok m)

-- What a run gives that ends without error: the arrays for the exporter, AD_1 and AD_3 with their lengths.
pub record ResponderResult : Type 0 where
  pub prk_4x3m_r : Bytes
  pub th4_r : Bytes
  pub ad_1_r : Bytes
  pub ad_1_r_len : ℕ
  pub ad_3_r : Bytes
  pub ad_3_r_len : ℕ

pub receive_message_3 :
    Host
    → EdhocResponderContext
    → List OtherPartyCred
    → Bytes
    → Bytes
    → Bytes
    → First
    → Message2
    → Exchange ResponderResult
receive_message_3 h c cred_i_array ad_3 prk_4x3m th4 first m2 = do
  let a = first.accepted
  msg3 ← receive h
  ciphertext_3 ← or_provide_error msg3 (msg3_parse h a.corr msg3 c.c_r.len)
  p ← run (process_ciphertext_3 h c cred_i_array ad_3 prk_4x3m a m2 ciphertext_3)
  good ← run (
      authentic h a.authentication.static_dh_i a.suite p.own_mac p.initiator_pk
        p.split_plaintext.sign_or_mac)
  c_i ← run (prefix a.message.c_i_len a.message.c_i)
  continue_if good (refuse h responder a.corr c_i)
  hash4 ← run (th4_calculate h a.suite.edhoc_hash p.th3 ciphertext_3)
  th4' ← run (store th4 hash4)
  run (
      ok (record {
        prk_4x3m_r = p.prk_4x3m;
        th4_r = th4';
        ad_1_r = a.message.ad_1;
        ad_1_r_len = a.message.ad_1_len;
        ad_3_r = p.split_plaintext.ad;
        ad_3_r_len = p.split_plaintext.ad_len;
      }))

-- The arrays of the caller are those of AD_1 and AD_3, PRK_4x3m and TH_4.
unfoldable pub edhoc_responder_run :
    Host
    → EdhocResponderContext
    → List OtherPartyCred
    → Bytes
    → Bytes
    → Bytes
    → Bytes
    → Exchange ResponderResult
unfolding receive_message_1 send_message_2 receive_message_3
edhoc_responder_run h c cred_i_array ad_1 ad_3 prk_4x3m th4 = do
  first ← receive_message_1 h c ad_1
  m2 ← send_message_2 h c first
  receive_message_3 h c cred_i_array ad_3 prk_4x3m th4 first m2
