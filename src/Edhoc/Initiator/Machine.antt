-- ===== src/Edhoc/Initiator/Machine.antt =====
-- `edhoc_initiator_run` against an abstract machine of the initiator.
use uoscore_uedhoc.Base.{Bool, List, false, ok, ok-injective, refl, subst, sym, true, ◌∙◌, ◌≡◌}
use uoscore_uedhoc.Edhoc.{
  EdhocInitiatorContext, OtherPartyCred, authentication_type_get, bytes_at, get_suite,
  msg_default_size,
}
use uoscore_uedhoc.Edhoc.Decoder.{word_at}
use uoscore_uedhoc.Edhoc.Exchange.{Session, initiator}
use uoscore_uedhoc.Edhoc.Host.{Event, Host, fresh, msg1_local, prefix, received, sent, store}
use uoscore_uedhoc.Edhoc.Initiator.{
  edhoc_initiator_run, process_message_2, send_message_1, send_message_3,
}
use uoscore_uedhoc.Edhoc.Initiator.Process.{
  InitiatorResult, Message3, Middle, Start, make_message_3, process_fields_2,
}
use uoscore_uedhoc.Edhoc.Initiator.Refuse.{Ends-continue_if, Ends-try_or_provide_error, refusal}
use uoscore_uedhoc.Edhoc.Messages.{Message, Msg2, msg1_encode, msg2_parse}
use uoscore_uedhoc.Edhoc.Steps.{authentic}
use uoscore_uedhoc.Edhoc.Trace.{
  Ends, Ends-bind, Ends-receive, Ends-run, Ends-transmit, Ends-try, History, here, next,
}
use uoscore_uedhoc.Edhoc.Transcript.{th4_calculate}
use uoscore_uedhoc.Memory.{Bytes}

-- Before message 1; message 1 is sent; message 2 is received; message 3 is sent; the responder is refused.
pub data Phase : Type 0 where
  idle : Phase
  waiting : Start → Phase
  checking : Start → Bytes → Phase
  finished : Phase
  refused : Phase

module _ (h : Host) (c : EdhocInitiatorContext) (cred_r_array : List OtherPartyCred)
    (ad_2 prk_4x3m : Bytes) where
  -- What the initiator starts with: the suite is the first of its own, message 1 is the encoded one, and the
  -- method says who authenticates with a static key.
  pub record Started (st : Start) : Type 0 where
    pub first_suite : Bytes
    pub encoded : Message
    pub first : bytes_at c.suites_i.ptr 1 ≡ ok first_suite
    pub selects : get_suite (word_at first_suite) ≡ ok st.suite
    pub encodes : msg1_encode h c (fresh h msg1_local msg_default_size) ≡ ok encoded
    pub message : prefix encoded.msg_len encoded.msg ≡ ok st.msg1
    pub method :
        st.authentication
        ≡ authentication_type_get c.method_type
            (record { static_dh_i = false; static_dh_r = false })

  -- Whether the responder that sent message 2 is authentic, as far as the message is read without error.
  pub record Checked (st : Start) (msg2 : Bytes) (m : Msg2) (mid : Middle) (good : Bool)
      : Type 0 where
    pub parsed : msg2_parse h c.corr msg2 c.c_i.len c.g_x.len ≡ ok m
    pub computed : process_fields_2 h c cred_r_array ad_2 st m ≡ ok mid
    pub compared :
        authentic h st.authentication.static_dh_r st.suite mid.own_mac mid.responder_pk
          mid.split_plaintext.sign_or_mac
        ≡ ok good

  -- Message 3 is sent to an authentic responder only, an error message to any other.
  pub data Step : Phase → Event → Phase → Type 0 where
    send_1 : (st : Start) → Started st → Step idle (sent st.msg1) (waiting st)
    receive_2 : (st : Start) (msg2 : Bytes) → Step (waiting st) (received msg2) (checking st msg2)
    send_3 :
        (st : Start) (msg2 : Bytes) (m : Msg2) (mid : Middle) (m3 : Message3)
        → Checked st msg2 m mid true
        → make_message_3 h c prk_4x3m st mid ≡ ok m3
        → Step (checking st msg2) (sent m3.msg3) finished
    send_error :
        (st : Start) (msg2 : Bytes) (m : Msg2) (mid : Middle) (e : Bytes)
        → Checked st msg2 m mid false
        → refusal h initiator c.corr m.c_r_2 ≡ ok e
        → Step (checking st msg2) (sent e) refused

  abbrev pub InitiatorHistory : List Event → List Event → Phase → Type 0
  InitiatorHistory = History Step (λ p q. ⊥) idle

  -- A responder that is not authentic, and the error message for it.
  pub record Impostor (st : Start) (msg2 : Bytes) : Type 0 where
    pub fields : Msg2
    pub computed : Middle
    pub checked : Checked st msg2 fields computed false
    pub error_message : Bytes
    pub made : refusal h initiator c.corr fields.c_r_2 ≡ ok error_message

  -- Where a run may stop: not behind a message 2 that has to be refused.
  abbrev pub MayStop : Phase → Type 0
  MayStop idle = Unit
  MayStop (waiting st) = Unit
  MayStop (checking st msg2) = ¬ Impostor st msg2
  MayStop finished = Unit
  MayStop refused = Unit

  -- A history that has come to some phase, where the run stops.
  abbrev pub Somewhere : List Event → List Event → Type 0
  Somewhere before es = (p : Phase) × InitiatorHistory before es p × MayStop p

  module _ (st : Start) (msg2 : Bytes) (m : Msg2)
      (parsed : msg2_parse h c.corr msg2 c.c_i.len c.g_x.len ≡ ok m) (i : Impostor st msg2) where
    same_fields : i.fields ≡ m
    same_fields = ok-injective (sym i.checked.parsed ∙ parsed)

    computed_too : process_fields_2 h c cred_r_array ad_2 st m ≡ ok i.computed
    computed_too =
        subst (λ x. process_fields_2 h c cred_r_array ad_2 st x ≡ ok i.computed) same_fields
          i.checked.computed

    compared_too :
        (mid : Middle)
        → process_fields_2 h c cred_r_array ad_2 st m ≡ ok mid
        → authentic h st.authentication.static_dh_r st.suite mid.own_mac mid.responder_pk
            mid.split_plaintext.sign_or_mac
          ≡ ok false
    compared_too mid computed =
        subst
          (λ x.
            authentic h st.authentication.static_dh_r st.suite x.own_mac x.responder_pk
              x.split_plaintext.sign_or_mac
            ≡ ok false)
          (ok-injective (sym computed_too ∙ computed)) i.checked.compared

    made_too : refusal h initiator c.corr m.c_r_2 ≡ ok i.error_message
    made_too =
        subst (λ x. refusal h initiator c.corr x.c_r_2 ≡ ok i.error_message) same_fields i.made

  authentic-no-Impostor :
      (st : Start) (msg2 : Bytes) (m : Msg2) (mid : Middle)
      → Checked st msg2 m mid true
      → ¬ Impostor st msg2
  authentic-no-Impostor st msg2 m mid k i =
      let both : true ≡ false =
        ok-injective (sym k.compared ∙ compared_too st msg2 m k.parsed i mid k.computed) in
      cc

  module _ (before : List Event) where
    abbrev In : Phase → List Event → Type 0
    In p es = InitiatorHistory before es p

    message_1 :
        (s : Session)
        → InitiatorHistory before s.events idle
        → Ends (λ st. In (waiting st)) (Somewhere before) (send_message_1 h c s)
    unfolding send_message_1
    message_1 s at_idle =
        let bad = Somewhere before in
        let good = λ (st : Start). In (waiting st) in
        let stuck : Somewhere before s.events = (idle, at_idle, tt) in
        Ends-run bad good (bytes_at c.suites_i.ptr 1) _ s stuck λ first is_first.
          Ends-run bad good (get_suite (word_at first)) _ s stuck λ suite selects.
            Ends-run bad good (msg1_encode h c (fresh h msg1_local msg_default_size)) _ s stuck
              λ encoded encodes.
                Ends-run bad good (prefix encoded.msg_len encoded.msg) _ s stuck λ msg1 message.
                  let st : Start = record {
                    suite = suite;
                    authentication =
                        authentication_type_get c.method_type
                          (record { static_dh_i = false; static_dh_r = false });
                    msg1 = msg1;
                  } in
                  let started : Started st = record {
                    first_suite = first;
                    encoded = encoded;
                    first = is_first;
                    selects = selects;
                    encodes = encodes;
                    message = message;
                    method = refl;
                  } in
                  let sent_it = next at_idle (send_1 st started) in
                  Ends-transmit bad good h msg1 _ s (waiting st, sent_it, tt)
                    λ s' e. subst (λ es. In (waiting st) es) (sym e) sent_it

    message_2 :
        (st : Start) (s : Session)
        → In (waiting st) s.events
        → Ends
            (λ mid es.
              (msg2 : Bytes) × (m : Msg2) × Checked st msg2 m mid true × In (checking st msg2) es)
            (Somewhere before)
            (process_message_2 h c cred_r_array ad_2 st s)
    unfolding process_message_2
    message_2 st s at_waiting =
        let bad = Somewhere before in
        let good = λ (mid : Middle) (es : List Event).
          (msg2 : Bytes) × (m : Msg2) × Checked st msg2 m mid true × In (checking st msg2) es in
        Ends-receive bad good h _ s (waiting st, at_waiting, tt)
          λ msg2 s' e.
            let here_now =
              subst (λ es. In (checking st msg2) es) (sym e)
                (next at_waiting (receive_2 st msg2)) in
            let stop : ¬ Impostor st msg2 → bad s'.events =
              λ no. (checking st msg2, here_now, no) in
            Ends-try_or_provide_error bad good msg2 (msg2_parse h c.corr msg2 c.c_i.len c.g_x.len) _
              s' (λ no. stop (λ i. no i.fields i.checked.parsed))
              λ m parsed.
                Ends-try bad good (process_fields_2 h c cred_r_array ad_2 st m) _ s'
                  (λ no. stop (λ i. no i.computed (computed_too st msg2 m parsed i)))
                  λ mid computed.
                    Ends-try bad good
                      (authentic h st.authentication.static_dh_r st.suite mid.own_mac
                        mid.responder_pk mid.split_plaintext.sign_or_mac)
                      _ s'
                      (λ no. stop (λ i. no false (compared_too st msg2 m parsed i mid computed)))
                      λ answer compared.
                        let checked : Checked st msg2 m mid answer = record {
                          parsed = parsed;
                          computed = computed;
                          compared = compared;
                        } in
                        Ends-continue_if bad good h initiator c.corr m.c_r_2 answer _ s'
                          (λ no. stop (λ i.
                            no i.error_message
                              (ok-injective
                                (sym compared ∙ compared_too st msg2 m parsed i mid computed))
                              (made_too st msg2 m parsed i)))
                          (λ e no made. (
                            refused,
                            next here_now (
                                send_error st msg2 m mid e
                                  (subst (Checked st msg2 m mid) no checked) made),
                            tt,
                          ))
                          (λ is_good.
                            (msg2, m, subst (Checked st msg2 m mid) is_good checked, here_now))

    message_3 :
        (th4 : Bytes) (st : Start) (mid : Middle) (s : Session) (msg2 : Bytes) (m : Msg2)
        → Checked st msg2 m mid true
        → In (checking st msg2) s.events
        → Ends (λ r. In finished) (Somewhere before) (send_message_3 h c prk_4x3m th4 st mid s)
    unfolding send_message_3
    message_3 th4 st mid s msg2 m checked at_checking =
        let bad = Somewhere before in
        let good = λ (r : InitiatorResult). In finished in
        Ends-run bad good (make_message_3 h c prk_4x3m st mid) _ s
          (checking st msg2, at_checking, authentic-no-Impostor st msg2 m mid checked)
          λ m3 made.
            let sent_it = next at_checking (send_3 st msg2 m mid m3 checked made) in
            Ends-transmit bad good h m3.msg3 _ s (finished, sent_it, tt)
              λ s' e.
                let now = subst (λ es. In finished es) (sym e) sent_it in
                Ends-run bad good (th4_calculate h st.suite.edhoc_hash m3.th3 m3.ciphertext_3) _ s'
                  (finished, now, tt)
                  λ hash4 _.
                    Ends-run bad good (store th4 hash4) _ s' (finished, now, tt) λ out _. now

  -- Every run of the initiator follows the machine. If it returns without error, it has sent message 1, which is
  -- encoded for its context and its first suite, received a message 2 whose sender is authentic under that suite
  -- and method, and sent message 3, and nothing else. If it does not, it has stopped somewhere on the way, but not
  -- at a message 2 whose sender turns out not to be authentic: then, and only then, it has sent the error message,
  -- if that can be encoded.
  pub edhoc_initiator_run-InitiatorHistory :
      (th4 : Bytes) (s : Session)
      → Ends
          (λ (r : InitiatorResult) es. InitiatorHistory s.events es finished)
          (Somewhere s.events)
          (edhoc_initiator_run h c cred_r_array ad_2 prk_4x3m th4 s)
  unfolding edhoc_initiator_run
  edhoc_initiator_run-InitiatorHistory th4 s =
      let before = s.events in
      let good = λ (r : InitiatorResult) (es : List Event). InitiatorHistory before es finished in
      Ends-bind (Somewhere before) (λ st es. InitiatorHistory before es (waiting st)) good
        (send_message_1 h c) _ s (message_1 before s here)
        λ st s' w.
          Ends-bind (Somewhere before) _ good (process_message_2 h c cred_r_array ad_2 st) _ s'
            (message_2 before st s' w)
            λ mid s'' k.
              let (msg2, m, checked, now) = k in message_3 before th4 st mid s'' msg2 m checked now
