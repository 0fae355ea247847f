-- ===== src/Edhoc/Responder/Machine.antt =====
-- `edhoc_responder_run` against an abstract machine of the responder.
use uoscore_uedhoc.Base.{
  Bool, List, [], false, if◌then◌else◌, ok, ok-injective, subst, sym, true, ◌∙◌, ◌≡◌,
}
use uoscore_uedhoc.Edhoc.{
  EdhocResponderContext, OtherPartyCred, contents, err_msg_default_size, error_message_sent,
}
use uoscore_uedhoc.Edhoc.Decoder.{word_at}
use uoscore_uedhoc.Edhoc.Exchange.{Session, err_msg_crate, has_c_x, responder}
use uoscore_uedhoc.Edhoc.Host.{Event, Host, prefix, received, sent, store}
use uoscore_uedhoc.Edhoc.Initiator.{continue_if}
use uoscore_uedhoc.Edhoc.Initiator.Refuse.{
  Ends-continue_if, Ends-refusal, Ends-try_or_provide_error, refusal,
}
use uoscore_uedhoc.Edhoc.Keys.{narrow}
use uoscore_uedhoc.Edhoc.Messages.{Msg1, msg1_parse, msg3_parse, selected_suite_is_supported}
use uoscore_uedhoc.Edhoc.Responder.{
  First, ResponderResult, edhoc_responder_run, receive_message_1, receive_message_3, refuse_suite,
  send_message_2,
}
use uoscore_uedhoc.Edhoc.Responder.Process.{
  Initiated, Message2, accept_1, make_message_2, process_ciphertext_3,
}
use uoscore_uedhoc.Edhoc.Steps.{authentic}
use uoscore_uedhoc.Edhoc.Trace.{
  Ends, Ends-bind, Ends-receive, Ends-run, Ends-transmit, Ends-try, History, here, next, silently,
}
use uoscore_uedhoc.Edhoc.Transcript.{th4_calculate}
use uoscore_uedhoc.Memory.{Bytes}

-- Before message 1; message 1 is received; its suite is refused; message 2 is sent; message 3 is received; the
-- initiator is accepted or refused.
pub data Phase : Type 0 where
  idle : Phase
  heard : Bytes → Phase
  discontinued : Phase
  answered : First → Message2 → Phase
  checking : First → Message2 → Bytes → Phase
  finished : Phase
  refused : Phase

module _ (h : Host) (c : EdhocResponderContext) (cred_i_array : List OtherPartyCred)
    (ad_1 ad_3 prk_4x3m : Bytes) where
  -- Whether the suite that message 1 selects, its first, is one of the responder's.
  pub record Selected (msg1 : Bytes) (m : Msg1) (supported : Bool) : Type 0 where
    pub suite_byte : Bytes
    pub parsed : msg1_parse h msg1 ad_1 ≡ ok m
    pub first_suite : prefix 1 m.suites_i ≡ ok suite_byte
    pub looked_up : selected_suite_is_supported (word_at suite_byte) c.suites_r ≡ ok supported

  -- Whether the initiator that sent message 3 is authentic, as far as the message is read without error.
  pub record Checked (first : First) (m2 : Message2) (msg3 : Bytes) (good : Bool) : Type 0 where
    pub ciphertext_3 : Bytes
    pub computed : Initiated
    pub parsed : msg3_parse h first.accepted.corr msg3 c.c_r.len ≡ ok ciphertext_3
    pub processed :
        process_ciphertext_3 h c cred_i_array ad_3 prk_4x3m first.accepted m2 ciphertext_3
        ≡ ok computed
    pub compared :
        authentic h first.accepted.authentication.static_dh_i first.accepted.suite computed.own_mac
          computed.initiator_pk computed.split_plaintext.sign_or_mac
        ≡ ok good

  -- The error message for a suite that is not supported names those that are.
  pub data Step : Phase → Event → Phase → Type 0 where
    receive_1 : (msg1 : Bytes) → Step idle (received msg1) (heard msg1)
    send_suites :
        (msg1 : Bytes) (m : Msg1) (c_i suites e : Bytes)
        → Selected msg1 m false
        → prefix m.c_i_len m.c_i ≡ ok c_i
        → contents c.suites_r ≡ ok suites
        → err_msg_crate h
            (if has_c_x responder m.method_corr then narrow c_i else [])
            []
            (narrow suites)
            err_msg_default_size
          ≡ ok e
        → Step (heard msg1) (sent e) discontinued
    send_2 :
        (m : Msg1) (first : First) (m2 : Message2)
        → Selected first.msg1 m true
        → accept_1 h m ≡ ok first.accepted
        → make_message_2 h c first.msg1 first.accepted ≡ ok m2
        → Step (heard first.msg1) (sent m2.msg2) (answered first m2)
    receive_3 :
        (first : First) (m2 : Message2) (msg3 : Bytes)
        → Step (answered first m2) (received msg3) (checking first m2 msg3)
    send_error :
        (first : First) (m2 : Message2) (msg3 c_i e : Bytes)
        → Checked first m2 msg3 false
        → prefix first.accepted.message.c_i_len first.accepted.message.c_i ≡ ok c_i
        → refusal h responder first.accepted.corr c_i ≡ ok e
        → Step (checking first m2 msg3) (sent e) refused

  -- An authentic initiator is accepted with no further message.
  pub data Silent : Phase → Phase → Type 0 where
    accept :
        (first : First) (m2 : Message2) (msg3 : Bytes)
        → Checked first m2 msg3 true
        → Silent (checking first m2 msg3) finished

  abbrev pub ResponderHistory : List Event → List Event → Phase → Type 0
  ResponderHistory = History Step Silent idle

  -- A message 1 with a suite that is not supported, and the error message for it.
  pub record Unsupported (msg1 : Bytes) : Type 0 where
    pub fields_1 : Msg1
    pub selected : Selected msg1 fields_1 false
    pub c_i_1 : Bytes
    pub suites : Bytes
    pub error_message : Bytes
    pub has_c_i : prefix fields_1.c_i_len fields_1.c_i ≡ ok c_i_1
    pub has_suites : contents c.suites_r ≡ ok suites
    pub made :
        err_msg_crate h
          (if has_c_x responder fields_1.method_corr then narrow c_i_1 else [])
          []
          (narrow suites)
          err_msg_default_size
        ≡ ok error_message

  -- An initiator that is not authentic, and the error message for it.
  pub record Impostor (first : First) (m2 : Message2) (msg3 : Bytes) : Type 0 where
    pub checked : Checked first m2 msg3 false
    pub c_i_1 : Bytes
    pub error_message : Bytes
    pub has_c_i : prefix first.accepted.message.c_i_len first.accepted.message.c_i ≡ ok c_i_1
    pub made : refusal h responder first.accepted.corr c_i_1 ≡ ok error_message

  -- Where a run may stop: not behind a message that has to be refused.
  abbrev pub MayStop : Phase → Type 0
  MayStop idle = Unit
  MayStop (heard msg1) = ¬ Unsupported msg1
  MayStop discontinued = Unit
  MayStop (answered first m2) = Unit
  MayStop (checking first m2 msg3) = ¬ Impostor first m2 msg3
  MayStop finished = Unit
  MayStop refused = Unit

  -- A history that has come to some phase, where the run stops.
  abbrev pub Somewhere : List Event → List Event → Type 0
  Somewhere before es = (p : Phase) × ResponderHistory before es p × MayStop p

  module _ (msg1 : Bytes) (m : Msg1) (parsed : msg1_parse h msg1 ad_1 ≡ ok m)
      (u : Unsupported msg1) where
    same_fields : u.fields_1 ≡ m
    same_fields = ok-injective (sym u.selected.parsed ∙ parsed)

    first_suite_too : prefix 1 m.suites_i ≡ ok u.selected.suite_byte
    first_suite_too =
        subst (λ x. prefix 1 x.suites_i ≡ ok u.selected.suite_byte) same_fields
          u.selected.first_suite

    looked_up_too :
        (b : Bytes)
        → prefix 1 m.suites_i ≡ ok b
        → selected_suite_is_supported (word_at b) c.suites_r ≡ ok false
    looked_up_too b first_byte =
        subst (λ x. selected_suite_is_supported (word_at x) c.suites_r ≡ ok false)
          (ok-injective (sym first_suite_too ∙ first_byte)) u.selected.looked_up

    has_c_i_too : prefix m.c_i_len m.c_i ≡ ok u.c_i_1
    has_c_i_too = subst (λ x. prefix x.c_i_len x.c_i ≡ ok u.c_i_1) same_fields u.has_c_i

    made_too :
        (c_i suites : Bytes)
        → prefix m.c_i_len m.c_i ≡ ok c_i
        → contents c.suites_r ≡ ok suites
        → err_msg_crate h
            (if has_c_x responder m.method_corr then narrow c_i else [])
            []
            (narrow suites)
            err_msg_default_size
          ≡ ok u.error_message
    made_too c_i suites is_c_i are_suites =
        let same_c_i : u.c_i_1 ≡ c_i = ok-injective (sym has_c_i_too ∙ is_c_i) in
        let same_suites : u.suites ≡ suites = ok-injective (sym u.has_suites ∙ are_suites) in
        rw (← same_fields, ← same_c_i, ← same_suites) u.made

  supported-no-Unsupported : (msg1 : Bytes) (m : Msg1) → Selected msg1 m true → ¬ Unsupported msg1
  supported-no-Unsupported msg1 m k u =
      let both : true ≡ false =
        ok-injective
          (sym k.looked_up ∙ looked_up_too msg1 m k.parsed u k.suite_byte k.first_suite) in
      cc

  module _ (first : First) (m2 : Message2) (msg3 ct : Bytes)
      (parsed : msg3_parse h first.accepted.corr msg3 c.c_r.len ≡ ok ct)
      (i : Impostor first m2 msg3) where
    processed_too :
        process_ciphertext_3 h c cred_i_array ad_3 prk_4x3m first.accepted m2 ct
        ≡ ok i.checked.computed
    processed_too =
        subst
          (λ x.
            process_ciphertext_3 h c cred_i_array ad_3 prk_4x3m first.accepted m2 x
            ≡ ok i.checked.computed)
          (ok-injective (sym i.checked.parsed ∙ parsed)) i.checked.processed

    compared_too :
        (p : Initiated)
        → process_ciphertext_3 h c cred_i_array ad_3 prk_4x3m first.accepted m2 ct ≡ ok p
        → authentic h first.accepted.authentication.static_dh_i first.accepted.suite p.own_mac
            p.initiator_pk p.split_plaintext.sign_or_mac
          ≡ ok false
    compared_too p processed =
        subst
          (λ x.
            authentic h first.accepted.authentication.static_dh_i first.accepted.suite x.own_mac
              x.initiator_pk x.split_plaintext.sign_or_mac
            ≡ ok false)
          (ok-injective (sym processed_too ∙ processed)) i.checked.compared

    refusal_too :
        (c_i : Bytes)
        → prefix first.accepted.message.c_i_len first.accepted.message.c_i ≡ ok c_i
        → refusal h responder first.accepted.corr c_i ≡ ok i.error_message
    refusal_too c_i is_c_i =
        subst (λ x. refusal h responder first.accepted.corr x ≡ ok i.error_message)
          (ok-injective (sym i.has_c_i ∙ is_c_i)) i.made

  module _ (before : List Event) where
    abbrev In : Phase → List Event → Type 0
    In p es = ResponderHistory before es p

    -- Message 1 is heard and its suite looked up.
    unsupported :
        (msg1 : Bytes) (m : Msg1) (answer : Bool) (s : Session)
        → Selected msg1 m answer
        → In (heard msg1) s.events
        → Ends
            (λ u es. Selected msg1 m true × In (heard msg1) es)
            (Somewhere before)
            (continue_if answer (refuse_suite h c m) s)
    unfolding refuse_suite
    unsupported msg1 m true s selected at_heard = (selected, at_heard)
    unsupported msg1 m false s selected at_heard =
        let bad = Somewhere before in
        let good = λ (u : Unit {0}) (es : List Event). Selected msg1 m true × In (heard msg1) es in
        let stop : ¬ Unsupported msg1 → bad s.events = λ no. (heard msg1, at_heard, no) in
        Ends-try bad good (prefix m.c_i_len m.c_i) _ s
          (λ no. stop (λ u. no u.c_i_1 (has_c_i_too msg1 m selected.parsed u)))
          λ c_i is_c_i.
            Ends-try bad good (contents c.suites_r) _ s (λ no. stop (λ u. no u.suites u.has_suites))
              λ suites have.
                Ends-refusal bad good h
                  (err_msg_crate h (if has_c_x responder m.method_corr then narrow c_i else []) []
                    (narrow suites) err_msg_default_size)
                  error_message_sent s
                  (λ no. stop (λ u.
                    no u.error_message (made_too msg1 m selected.parsed u c_i suites is_c_i have)))
                  λ e made. (
                    discontinued,
                    next at_heard (send_suites msg1 m c_i suites e selected is_c_i have made),
                    tt,
                  )

    -- The rest of what message 1 leads to.
    abbrev Accepts : First → List Event → Type 0
    Accepts first es =
        (m : Msg1) × Selected first.msg1 m true
        × (accept_1 h m ≡ ok first.accepted)
        × In (heard first.msg1) es

    message_1 :
        (s : Session)
        → ResponderHistory before s.events idle
        → Ends Accepts (Somewhere before) (receive_message_1 h c ad_1 s)
    unfolding receive_message_1
    message_1 s at_idle =
        let bad = Somewhere before in
        let good = λ (first : First). Accepts first in
        Ends-receive bad good h _ s (idle, at_idle, tt)
          λ msg1 s' e.
            let now = subst (λ es. In (heard msg1) es) (sym e) (next at_idle (receive_1 msg1)) in
            let stop : ¬ Unsupported msg1 → bad s'.events = λ no. (heard msg1, now, no) in
            Ends-try bad good (msg1_parse h msg1 ad_1) _ s'
              (λ no. stop (λ u. no u.fields_1 u.selected.parsed))
              λ m parsed.
                Ends-try bad good (prefix 1 m.suites_i) _ s'
                  (λ no. stop (λ u. no u.selected.suite_byte (first_suite_too msg1 m parsed u)))
                  λ b first_byte.
                    Ends-try bad good (selected_suite_is_supported (word_at b) c.suites_r) _ s'
                      (λ no. stop (λ u. no false (looked_up_too msg1 m parsed u b first_byte)))
                      λ answer looked.
                        let selected : Selected msg1 m answer = record {
                          suite_byte = b;
                          parsed = parsed;
                          first_suite = first_byte;
                          looked_up = looked;
                        } in
                        Ends-bind bad _ good (continue_if answer (refuse_suite h c m)) _ s'
                          (unsupported msg1 m answer s' selected now)
                          λ u s'' k.
                            Ends-run bad good (accept_1 h m) _ s''
                              (heard msg1, k.1, supported-no-Unsupported msg1 m k.0)
                              λ a done. (m, k.0, done, k.1)

    message_2 :
        (first : First) (s : Session)
        → Accepts first s.events
        → Ends (λ m2 es. In (answered first m2) es) (Somewhere before) (send_message_2 h c first s)
    unfolding send_message_2
    message_2 first s (m, selected, done, now) =
        let bad = Somewhere before in
        let good = λ (m2 : Message2) (es : List Event). In (answered first m2) es in
        Ends-run bad good (make_message_2 h c first.msg1 first.accepted) _ s
          (heard first.msg1, now, supported-no-Unsupported first.msg1 m selected)
          λ m2 made.
            let sent_it = next now (send_2 m first m2 selected done made) in
            Ends-transmit bad good h m2.msg2 _ s (answered first m2, sent_it, tt)
              λ s' e. subst (λ es. In (answered first m2) es) (sym e) sent_it

    message_3 :
        (th4 : Bytes) (first : First) (m2 : Message2) (s : Session)
        → In (answered first m2) s.events
        → Ends
            (λ r es. In finished es)
            (Somewhere before)
            (receive_message_3 h c cred_i_array ad_3 prk_4x3m th4 first m2 s)
    unfolding receive_message_3
    message_3 th4 first m2 s at_answered =
        let a = first.accepted in
        let bad = Somewhere before in
        let good = λ (r : ResponderResult) (es : List Event). In finished es in
        Ends-receive bad good h _ s (answered first m2, at_answered, tt)
          λ msg3 s' e.
            let now =
              subst (λ es. In (checking first m2 msg3) es) (sym e)
                (next at_answered (receive_3 first m2 msg3)) in
            let stop : ¬ Impostor first m2 msg3 → bad s'.events =
              λ no. (checking first m2 msg3, now, no) in
            Ends-try_or_provide_error bad good msg3 (msg3_parse h a.corr msg3 c.c_r.len) _ s'
              (λ no. stop (λ i. no i.checked.ciphertext_3 i.checked.parsed))
              λ ct parsed.
                Ends-try bad good (process_ciphertext_3 h c cred_i_array ad_3 prk_4x3m a m2 ct) _ s'
                  (λ no.
                    stop (λ i. no i.checked.computed (processed_too first m2 msg3 ct parsed i)))
                  λ p processed.
                    Ends-try bad good
                      (authentic h a.authentication.static_dh_i a.suite p.own_mac p.initiator_pk
                        p.split_plaintext.sign_or_mac)
                      _ s'
                      (λ no.
                        stop (λ i. no false (compared_too first m2 msg3 ct parsed i p processed)))
                      λ answer compared.
                        let checked : Checked first m2 msg3 answer = record {
                          ciphertext_3 = ct;
                          computed = p;
                          parsed = parsed;
                          processed = processed;
                          compared = compared;
                        } in
                        Ends-try bad good (prefix a.message.c_i_len a.message.c_i) _ s'
                          (λ no. stop (λ i. no i.c_i_1 i.has_c_i))
                          λ c_i is_c_i.
                            Ends-continue_if bad good h responder a.corr c_i answer _ s'
                              (λ no. stop (λ i.
                                no i.error_message
                                  (ok-injective (
                                    sym compared
                                    ∙ compared_too first m2 msg3 ct parsed i p processed))
                                  (refusal_too first m2 msg3 ct parsed i c_i is_c_i)))
                              (λ er no made. (
                                refused,
                                next now (
                                    send_error first m2 msg3 c_i er
                                      (subst (Checked first m2 msg3) no checked) is_c_i made),
                                tt,
                              ))
                              (λ is_good.
                                let done = silently now (
                                  accept first m2 msg3
                                    (subst (Checked first m2 msg3) is_good checked)) in
                                Ends-run bad good (th4_calculate h a.suite.edhoc_hash p.th3 ct) _ s'
                                  (finished, done, tt)
                                  λ hash4 _.
                                    Ends-run bad good (store th4 hash4) _ s' (finished, done, tt)
                                      λ out _. done)

  -- Every run of the responder follows the machine. If it returns without error, it has received a message 1
  -- that selects one of its suites, sent message 2, and received a message 3 whose sender is authentic, and
  -- nothing else. If it does not, it has stopped somewhere on the way, but not at a message that is to be
  -- refused: after a message 1 whose suite is not supported it has sent an error message with its suites, and
  -- after a message 3 whose sender turns out not to be authentic it has sent one too, if these can be encoded.
  pub edhoc_responder_run-ResponderHistory :
      (th4 : Bytes) (s : Session)
      → Ends
          (λ (r : ResponderResult) es. ResponderHistory s.events es finished)
          (Somewhere s.events)
          (edhoc_responder_run h c cred_i_array ad_1 ad_3 prk_4x3m th4 s)
  unfolding edhoc_responder_run
  edhoc_responder_run-ResponderHistory th4 s =
      let before = s.events in
      let good = λ (r : ResponderResult) (es : List Event). ResponderHistory before es finished in
      Ends-bind (Somewhere before) (Accepts before) good (receive_message_1 h c ad_1) _ s
        (message_1 before s here)
        λ first s' k.
          Ends-bind (Somewhere before) (λ m2 es. ResponderHistory before es (answered first m2))
            good (send_message_2 h c first) _ s' (message_2 before first s' k)
            λ m2 s'' w. message_3 before th4 first m2 s'' w
