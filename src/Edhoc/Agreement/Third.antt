-- ===== src/Edhoc/Agreement/Third.antt =====
-- TH_3 and PRK_4x3m of both roles: `make_message_3` against `process_ciphertext_3`.
use uoscore_uedhoc.Base.{
  Ensures, Ensures-bind, Ensures-ok, List, [], ap, arith, if◌then◌else◌, length, ok, ok-injective,
  refl, sym, take-length, true, ◌%◌, ◌++◌, ◌+◌, ◌<◌, ◌==◌, ◌^◌, ◌||◌, ◌∙◌, ◌≡◌, ◌≤◌,
}
use uoscore_uedhoc.Edhoc.{
  EdhocInitiatorContext, EdhocResponderContext, EdhocResult, HashAlg, OtherPartyCred, Suite,
  a_2m_default_size, contents, id_cred_default_size, sgn_or_mac_default_size, sha256, x25519,
}
use uoscore_uedhoc.Edhoc.Agreement.Second.{peer, prk_derive-static}
use uoscore_uedhoc.Edhoc.CryptoWrapper.{aead_decrypt, hash}
use uoscore_uedhoc.Edhoc.Host.{
  Event, Host, Local, fresh, id_cred_local, prefix, split_sign_or_mac, store,
}
use uoscore_uedhoc.Edhoc.Initiator.Process.{
  Message3, Middle, Start, c_r_front, encrypt_3, make_message_3, plaintext_3,
}
use uoscore_uedhoc.Edhoc.Keys.{narrow, prk_derive}
use uoscore_uedhoc.Edhoc.Mac.{encode_byte_string, signature_or_mac_msg_create}
use uoscore_uedhoc.Edhoc.Plaintext.{plaintext_split}
use uoscore_uedhoc.Edhoc.Responder.Process.{
  Accepted, Initiated, Message2, plaintext_3_len, process_ciphertext_3,
}
use uoscore_uedhoc.Edhoc.RetrieveCred.{Credential, retrieve_cred}
use uoscore_uedhoc.Edhoc.Steps.{derive_keys_3, label_iv_3m, label_k_3m, sign_or_mac_of}
use uoscore_uedhoc.Edhoc.Transcript.{th3_calculate, th3_input_encode}
use uoscore_uedhoc.Memory.{Bytes}

-- What `make_message_3` computes on its way.
record InitiatorKeys3 (h : Host) (c : EdhocInitiatorContext) (prk_4x3m : Bytes) (st : Start)
    (mid : Middle) (m3 : Message3) : Type 0 where
  secret_i : Bytes
  derived : Bytes
  hashes :
      th3_calculate h st.suite.edhoc_hash mid.th2 mid.fields.ciphertext_2
        (if c.corr == 2 || c.corr == 3 then [] else mid.fields.c_r_2)
      ≡ ok m3.th3
  has_i : contents c.i ≡ ok secret_i
  derives :
      prk_derive h st.authentication.static_dh_i st.suite mid.prk_3e2m mid.fields.g_y_2 secret_i
      ≡ ok derived
  stores : store prk_4x3m derived ≡ ok m3.prk_4x3m

make_message_3-InitiatorKeys3 :
    (h : Host) (c : EdhocInitiatorContext) (prk_4x3m : Bytes) (st : Start) (mid : Middle)
    → Ensures (InitiatorKeys3 h c prk_4x3m st mid) (make_message_3 h c prk_4x3m st mid)
unfolding make_message_3
make_message_3-InitiatorKeys3 h c prk_4x3m st mid =
    let P = InitiatorKeys3 h c prk_4x3m st mid in
    let static_dh = st.authentication.static_dh_i in
    Ensures-bind P _ _ λ th3 hashes. Ensures-bind P _ _ λ i has_i.
      Ensures-bind P _ _ λ derived derives. Ensures-bind P _ _ λ prk stores.
        Ensures-bind P (contents c.id_cred_i) _ λ id_cred_i _.
          Ensures-bind P (contents c.cred_i) _ λ cred_i _.
            Ensures-bind P (contents c.ad_3) _ λ ad_3 _.
              Ensures-bind P
                (signature_or_mac_msg_create h static_dh st.suite label_k_3m label_iv_3m prk th3
                  id_cred_i cred_i ad_3 a_2m_default_size)
                _
                λ own _.
                  Ensures-bind P (sign_or_mac_of h static_dh st.suite c.sk_i c.pk_i own) _ λ sgn _.
                    Ensures-bind P (plaintext_3 h c sgn) _ λ p_3ae _.
                      Ensures-bind P (derive_keys_3 h st.suite mid.prk_3e2m th3) _ λ key3 _.
                        Ensures-bind P (encrypt_3 h st.suite key3 p_3ae) _ λ ct _.
                          Ensures-bind P (encode_byte_string h ct (length ct + 2)) _ λ enc _.
                            Ensures-bind P (c_r_front h mid.fields.c_r_2) _ λ front _.
                              let m3 : Message3 = record {
                                msg3 = front ++ enc;
                                th3 = th3;
                                ciphertext_3 = ct;
                                prk_4x3m = prk;
                              } in
                              let facts : InitiatorKeys3 h c prk_4x3m st mid m3 = record {
                                secret_i = i;
                                derived = derived;
                                hashes = hashes;
                                has_i = has_i;
                                derives = derives;
                                stores = stores;
                              } in
                              facts

-- What `process_ciphertext_3` computes on its way.
record ResponderKeys3 (h : Host) (c : EdhocResponderContext) (creds : List OtherPartyCred)
    (prk_4x3m : Bytes) (a : Accepted) (m2 : Message2) (p : Initiated) : Type 0 where
  own_c_r : Bytes
  secret_y : Bytes
  key_g : Bytes
  derived : Bytes
  found : Credential
  has_c_r : contents c.c_r ≡ ok own_c_r
  hashes : th3_calculate h a.suite.edhoc_hash m2.th2 m2.ciphertext_2 (narrow own_c_r) ≡ ok p.th3
  finds :
      retrieve_cred h a.authentication.static_dh_i creds p.split_plaintext.id_cred_x
        (p.split_plaintext.id_cred_x_len % 2 ^ 8)
      ≡ ok found
  has_g : contents found.g_other ≡ ok key_g
  has_y : contents c.y ≡ ok secret_y
  derives :
      prk_derive h a.authentication.static_dh_i a.suite m2.prk_3e2m key_g secret_y ≡ ok derived
  stores : store prk_4x3m derived ≡ ok p.prk_4x3m

process_ciphertext_3-ResponderKeys3 :
    (h : Host) (c : EdhocResponderContext) (creds : List OtherPartyCred) (ad_3 prk_4x3m : Bytes)
    (a : Accepted) (m2 : Message2) (ct : Bytes)
    → Ensures
        (ResponderKeys3 h c creds prk_4x3m a m2)
        (process_ciphertext_3 h c creds ad_3 prk_4x3m a m2 ct)
unfolding process_ciphertext_3
process_ciphertext_3-ResponderKeys3 h c creds ad_3 prk_4x3m a m2 ct =
    let P = ResponderKeys3 h c creds prk_4x3m a m2 in
    let static_dh = a.authentication.static_dh_i in
    Ensures-bind P _ _ λ c_r has_c_r. Ensures-bind P _ _ λ th3 hashes.
      Ensures-bind P (derive_keys_3 h a.suite m2.prk_3e2m th3) _ λ key3 _.
        Ensures-bind P (plaintext_3_len a.suite.edhoc_aead ct) _ λ len _.
          Ensures-bind P (aead_decrypt h ct key3.k_3ae key3.iv_3ae key3.a_3ae len) _ λ p_3ae _.
            Ensures-bind P
              (plaintext_split h p_3ae (fresh h id_cred_local id_cred_default_size)
                (fresh h split_sign_or_mac sgn_or_mac_default_size) ad_3)
              _
              λ split _.
                Ensures-bind P
                  (retrieve_cred h static_dh creds split.id_cred_x (split.id_cred_x_len % 2 ^ 8)) _
                  λ found finds. Ensures-bind P _ _ λ key_g has_g. Ensures-bind P _ _ λ y has_y.
                    Ensures-bind P _ _ λ derived derives. Ensures-bind P _ _ λ prk stores.
                      Ensures-bind P (prefix split.id_cred_x_len split.id_cred_x) _ λ id_cred_i _.
                        Ensures-bind P (contents found.credential) _ λ cred_i _.
                          Ensures-bind P (prefix split.ad_len split.ad) _ λ ad _.
                            Ensures-bind P
                              (signature_or_mac_msg_create h static_dh a.suite label_k_3m
                                label_iv_3m (narrow prk) th3 id_cred_i cred_i ad a_2m_default_size)
                              _
                              λ own _.
                                let p : Initiated = record {
                                  th3 = th3;
                                  prk_4x3m = prk;
                                  split_plaintext = split;
                                  initiator_pk = found.pk_other;
                                  own_mac = own;
                                } in
                                let facts : ResponderKeys3 h c creds prk_4x3m a m2 p = record {
                                  own_c_r = c_r;
                                  secret_y = y;
                                  key_g = key_g;
                                  derived = derived;
                                  found = found;
                                  has_c_r = has_c_r;
                                  hashes = hashes;
                                  finds = finds;
                                  has_g = has_g;
                                  has_y = has_y;
                                  derives = derives;
                                  stores = stores;
                                } in
                                facts

module _ (h : Host) (unset : Local → Bytes) (rx : List Event → EdhocResult Bytes)
    (tx : List Event → Bytes → EdhocResult (Unit {0})) (public : Bytes → Bytes)
    (dh : (a b : Bytes) → h.c25519_smult (public a) b ≡ h.c25519_smult (public b) a) where
  th3_calculate-peer :
      (alg : HashAlg) (th2 ciphertext_2 data_3 : Bytes)
      → th3_calculate (peer h unset rx tx) alg th2 ciphertext_2 data_3
        ≡ th3_calculate h alg th2 ciphertext_2 data_3
  unfolding th3_calculate th3_input_encode hash
  th3_calculate-peer sha256 th2 ciphertext_2 data_3 = refl

  -- With CORR 0 or 1, an initiator that sends message 3 and a responder that takes it apart come to the same TH_3
  -- and the same PRK_4x3m, whatever the method is, if they have the same TH_2, PRK_3e2m and CIPHERTEXT_2, the same
  -- suite on the curve 25519, the initiator has G_Y and C_R of the responder, C_R is at most 255 bytes long, the
  -- credential that the responder finds has the static key of the initiator if the method is one where it has
  -- any, and both are given the same array for
  -- PRK_4x3m. `dh` is what the curve gives. Locals and network may differ.
  pub make_message_3-process_ciphertext_3 :
      (ci : EdhocInitiatorContext) (cr : EdhocResponderContext) (creds : List OtherPartyCred)
      (ad_3 prk_4x3m ct : Bytes) (st : Start) (mid : Middle) (a : Accepted) (m2 : Message2)
      (m3 : Message3) (p : Initiated) (i y key_g : Bytes) (cred : Credential)
      → ci.corr < 2
      → st.suite ≡ a.suite
      → a.suite.edhoc_ecdh_curve ≡ x25519
      → st.authentication.static_dh_i ≡ a.authentication.static_dh_i
      → mid.th2 ≡ m2.th2
      → mid.prk_3e2m ≡ m2.prk_3e2m
      → mid.fields.ciphertext_2 ≡ m2.ciphertext_2
      → contents ci.i ≡ ok i
      → contents cr.y ≡ ok y
      → mid.fields.g_y_2 ≡ public y
      → contents cr.c_r ≡ ok mid.fields.c_r_2
      → length mid.fields.c_r_2 ≤ 255
      → retrieve_cred
          (peer h unset rx tx)
          a.authentication.static_dh_i
          creds
          p.split_plaintext.id_cred_x
          (p.split_plaintext.id_cred_x_len % 2 ^ 8)
        ≡ ok cred
      → contents cred.g_other ≡ ok key_g
      → (a.authentication.static_dh_i ≡ true → key_g ≡ public i)
      → make_message_3 h ci prk_4x3m st mid ≡ ok m3
      → process_ciphertext_3 (peer h unset rx tx) cr creds ad_3 prk_4x3m a m2 ct ≡ ok p
      → (m3.th3 ≡ p.th3) × (m3.prk_4x3m ≡ p.prk_4x3m)
  make_message_3-process_ciphertext_3 ci cr creds ad_3 prk_4x3m ct st mid a m2 m3 p i y key_g cred
        corr suites curve static th2_eq prk_eq ct_eq has_i has_y g_y_is c_r_is short found_is g_is
        static_key made done =
      let other = peer h unset rx tx in
      let ki = Ensures-ok _ _ (make_message_3-InitiatorKeys3 h ci prk_4x3m st mid) made in
      let kr =
        Ensures-ok _ _ (process_ciphertext_3-ResponderKeys3 other cr creds ad_3 prk_4x3m a m2 ct)
          done in
      let i_eq : ki.secret_i ≡ i = ok-injective (sym ki.has_i ∙ has_i) in
      let y_eq : kr.secret_y ≡ y = ok-injective (sym kr.has_y ∙ has_y) in
      let c_r_eq : kr.own_c_r ≡ mid.fields.c_r_2 = ok-injective (sym kr.has_c_r ∙ c_r_is) in
      let key_eq : kr.key_g ≡ key_g = ok-injective (
        sym kr.has_g
        ∙ ap (λ (c : Credential). contents c.g_other) (ok-injective (sym kr.finds ∙ found_is))
        ∙ g_is) in
      let hash_eq : st.suite.edhoc_hash ≡ a.suite.edhoc_hash =
        ap (λ (s : Suite). s.edhoc_hash) suites in
      let with_c_r : (if ci.corr == 2 || ci.corr == 3 then [] else mid.fields.c_r_2)
          ≡ mid.fields.c_r_2 =
        ground arith in
      let whole : length mid.fields.c_r_2 % 2 ^ 8 ≡ length mid.fields.c_r_2 = omega arith in
      let narrow_eq : narrow mid.fields.c_r_2 ≡ mid.fields.c_r_2 =
        rw whole (take-length mid.fields.c_r_2) in
      let narrow_own : narrow kr.own_c_r ≡ mid.fields.c_r_2 = ap narrow c_r_eq ∙ narrow_eq in
      let th3_ok : ◌≡◌ {A = EdhocResult Bytes} (ok m3.th3) (ok p.th3) = cc (
        ki.hashes,
        kr.hashes,
        th3_calculate-peer a.suite.edhoc_hash m2.th2 m2.ciphertext_2 mid.fields.c_r_2,
      ) in
      let derived_ok : ◌≡◌ {A = EdhocResult Bytes} (ok ki.derived) (ok kr.derived) = cc (
        ki.derives,
        kr.derives,
        prk_derive-static h unset rx tx public dh a.authentication.static_dh_i a.suite m2.prk_3e2m i
            y key_g curve static_key,
      ) in
      let derived_eq = ok-injective derived_ok in
      let prk_ok : ◌≡◌ {A = EdhocResult Bytes} (ok m3.prk_4x3m) (ok p.prk_4x3m) =
        sym ki.stores ∙ ap (λ (d : Bytes). store prk_4x3m d) derived_eq ∙ kr.stores in
      (ok-injective th3_ok, ok-injective prk_ok)
