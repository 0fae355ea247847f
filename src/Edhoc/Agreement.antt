-- ===== src/Edhoc/Agreement.antt =====
-- What the two roles derive from the same messages, in modules/edhoc/src/initiator.c and
-- modules/edhoc/src/responder.c: TH_2 and PRK_3e2m of message 2, TH_3 and PRK_4x3m of message 3.
pub mod Second
pub mod Third
use uoscore_uedhoc.Base.{Ensures, Ensures-bind, List, [], length, ok, refl, ◌%◌, ◌+◌, ◌^◌, ◌≡◌}
use uoscore_uedhoc.Context.Init.{own}
use uoscore_uedhoc.Edhoc.{
  EdhocInitiatorContext, EdhocResponderContext, OtherPartyCred, a_2m_default_size, contents,
  id_cred_default_size, msg_default_size, sgn_or_mac_default_size,
}
use uoscore_uedhoc.Edhoc.CryptoWrapper.{hkdf_extract, shared_secret_derive}
use uoscore_uedhoc.Edhoc.Host.{Host, ecdh_secret, fresh, id_cred_local, prefix, split_sign_or_mac}
use uoscore_uedhoc.Edhoc.Initiator.Process.{Middle, Start, decrypt_ciphertext_2, process_fields_2}
use uoscore_uedhoc.Edhoc.Keys.{prk_derive}
use uoscore_uedhoc.Edhoc.Mac.{signature_or_mac_msg_create}
use uoscore_uedhoc.Edhoc.Messages.{Msg2, msg2_encode}
use uoscore_uedhoc.Edhoc.Plaintext.{plaintext_encode, plaintext_split}
use uoscore_uedhoc.Edhoc.Responder.Process.{
  Accepted, Message2, c_i_in_th2, encrypt_plaintext_2, in_ciphertext_array, make_message_2,
}
use uoscore_uedhoc.Edhoc.RetrieveCred.{Credential, retrieve_cred}
use uoscore_uedhoc.Edhoc.Steps.{derive_prk_2e, label_iv_2m, label_k_2m, sign_or_mac_of}
use uoscore_uedhoc.Edhoc.Transcript.{th2_calculate}
use uoscore_uedhoc.Memory.{Bytes}
use uoscore_uedhoc.Protect.Extract.Split.{fields}

-- What `process_fields_2` computes on its way.
pub record InitiatorKeys (h : Host) (c : EdhocInitiatorContext) (creds : List OtherPartyCred)
    (st : Start) (m : Msg2) (mid : Middle) : Type 0 where
  pub secret_x : Bytes
  pub g_xy : Bytes
  pub prk_2e : Bytes
  pub key_g : Bytes
  pub found : Credential
  pub has_x : contents c.x ≡ ok secret_x
  pub shares :
      shared_secret_derive h st.suite.edhoc_ecdh_curve secret_x m.g_y_2 (fresh h ecdh_secret 32)
      ≡ ok g_xy
  pub hashes : th2_calculate h st.suite.edhoc_hash st.msg1 m.c_i_2 m.g_y_2 m.c_r_2 ≡ ok mid.th2
  pub extracts : hkdf_extract h st.suite.edhoc_hash [] g_xy ≡ ok prk_2e
  pub finds :
      retrieve_cred h st.authentication.static_dh_r creds mid.split_plaintext.id_cred_x
        (mid.split_plaintext.id_cred_x_len % 2 ^ 8)
      ≡ ok found
  pub has_g : contents found.g_other ≡ ok key_g
  pub derives :
      prk_derive h st.authentication.static_dh_r st.suite prk_2e key_g secret_x ≡ ok mid.prk_3e2m
  pub keeps : mid.fields ≡ m

pub process_fields_2-InitiatorKeys :
    (h : Host) (c : EdhocInitiatorContext) (creds : List OtherPartyCred) (ad_2 : Bytes) (st : Start)
    (m : Msg2)
    → Ensures (InitiatorKeys h c creds st m) (process_fields_2 h c creds ad_2 st m)
unfolding process_fields_2
process_fields_2-InitiatorKeys h c creds ad_2 st m =
    let P = InitiatorKeys h c creds st m in
    Ensures-bind P _ _ λ x has_x. Ensures-bind P _ _ λ g_xy shares. Ensures-bind P _ _ λ th2 hashes.
      Ensures-bind P _ _ λ prk_2e extracts.
        Ensures-bind P (decrypt_ciphertext_2 h st.suite prk_2e th2 m.ciphertext_2) _ λ p_2e _.
          Ensures-bind P
            (plaintext_split h p_2e (fresh h id_cred_local id_cred_default_size)
              (fresh h split_sign_or_mac sgn_or_mac_default_size) ad_2)
            _
            λ split _. Ensures-bind P _ _ λ found finds. Ensures-bind P _ _ λ key_g has_g.
              Ensures-bind P _ _ λ prk derives.
                Ensures-bind P (prefix split.id_cred_x_len split.id_cred_x) _ λ id_cred_r _.
                  Ensures-bind P (contents found.credential) _ λ cred_r _.
                    Ensures-bind P (prefix split.ad_len split.ad) _ λ ad _.
                      Ensures-bind P
                        (signature_or_mac_msg_create h st.authentication.static_dh_r st.suite
                          label_k_2m label_iv_2m prk th2 id_cred_r cred_r ad a_2m_default_size)
                        _
                        λ own _.
                          let mid : Middle = record {
                            fields = m;
                            th2 = th2;
                            prk_3e2m = prk;
                            split_plaintext = split;
                            responder_pk = found.pk_other;
                            own_mac = own;
                          } in
                          let facts : InitiatorKeys h c creds st m mid = record {
                            secret_x = x;
                            g_xy = g_xy;
                            prk_2e = prk_2e;
                            key_g = key_g;
                            found = found;
                            has_x = has_x;
                            shares = shares;
                            hashes = hashes;
                            extracts = extracts;
                            finds = finds;
                            has_g = has_g;
                            derives = derives;
                            keeps = refl;
                          } in
                          facts

-- What `make_message_2` computes on its way.
pub record ResponderKeys (h : Host) (c : EdhocResponderContext) (msg1 : Bytes) (a : Accepted)
    (m2 : Message2) : Type 0 where
  pub own_g_y : Bytes
  pub own_c_r : Bytes
  pub their_c_i : Bytes
  pub secret_y : Bytes
  pub their_g_x : Bytes
  pub prk_2e : Bytes
  pub secret_r : Bytes
  pub has_g_y : contents c.g_y ≡ ok own_g_y
  pub has_c_r : contents c.c_r ≡ ok own_c_r
  pub hashes :
      th2_calculate h a.suite.edhoc_hash msg1
        (c_i_in_th2 (a.message.method_corr % 4) their_c_i)
        own_g_y
        own_c_r
      ≡ ok m2.th2
  pub has_y : contents c.y ≡ ok secret_y
  pub has_g_x : prefix a.message.g_x_len a.message.g_x ≡ ok their_g_x
  pub extracts : derive_prk_2e h a.suite secret_y their_g_x ≡ ok prk_2e
  pub has_r : contents c.r ≡ ok secret_r
  pub encodes :
      msg2_encode h a.corr their_c_i own_g_y c.c_r m2.ciphertext_2 msg_default_size ≡ ok m2.msg2
  pub derives :
      prk_derive h a.authentication.static_dh_r a.suite prk_2e their_g_x secret_r ≡ ok m2.prk_3e2m

pub make_message_2-ResponderKeys :
    (h : Host) (c : EdhocResponderContext) (msg1 : Bytes) (a : Accepted)
    → Ensures (ResponderKeys h c msg1 a) (make_message_2 h c msg1 a)
unfolding make_message_2
make_message_2-ResponderKeys h c msg1 a =
    let P = ResponderKeys h c msg1 a in
    Ensures-bind P _ _ λ g_y has_g_y. Ensures-bind P _ _ λ c_r has_c_r.
      Ensures-bind P (prefix a.message.c_i_len a.message.c_i) _ λ c_i _.
        Ensures-bind P _ _ λ th2 hashes. Ensures-bind P _ _ λ y has_y.
          Ensures-bind P _ _ λ g_x has_g_x. Ensures-bind P _ _ λ prk_2e extracts.
            Ensures-bind P _ _ λ r has_r. Ensures-bind P _ _ λ prk derives.
              Ensures-bind P (contents c.id_cred_r) _ λ id_cred_r _.
                Ensures-bind P (contents c.cred_r) _ λ cred_r _.
                  Ensures-bind P (contents c.ad_2) _ λ ad_2 _.
                    Ensures-bind P
                      (signature_or_mac_msg_create h a.authentication.static_dh_r a.suite label_k_2m
                        label_iv_2m prk th2 id_cred_r cred_r ad_2 a_2m_default_size)
                      _
                      λ own _.
                        Ensures-bind P
                          (sign_or_mac_of h a.authentication.static_dh_r a.suite c.sk_r c.pk_r own)
                          _
                          λ sgn _.
                            Ensures-bind P
                              (plaintext_encode h id_cred_r sgn ad_2
                                ((length id_cred_r + length sgn + 2 + length ad_2) % 2 ^ 16))
                              _
                              λ p_2e _.
                                Ensures-bind P (encrypt_plaintext_2 h a.suite prk_2e th2 p_2e) _
                                  λ ct _.
                                    Ensures-bind P (in_ciphertext_array ct) _ λ ciphertext_2 _.
                                      Ensures-bind P
                                        (msg2_encode h a.corr c_i g_y c.c_r ciphertext_2
                                          msg_default_size)
                                        _
                                        λ msg2 encodes.
                                          let answer_2 : Message2 = record {
                                            msg2 = msg2;
                                            th2 = th2;
                                            prk_3e2m = prk;
                                            ciphertext_2 = ciphertext_2;
                                          } in
                                          let facts : ResponderKeys h c msg1 a answer_2 = record {
                                            own_g_y = g_y;
                                            own_c_r = c_r;
                                            their_c_i = c_i;
                                            secret_y = y;
                                            their_g_x = g_x;
                                            prk_2e = prk_2e;
                                            secret_r = r;
                                            has_g_y = has_g_y;
                                            has_c_r = has_c_r;
                                            hashes = hashes;
                                            has_y = has_y;
                                            has_g_x = has_g_x;
                                            extracts = extracts;
                                            has_r = has_r;
                                            encodes = encodes;
                                            derives = derives;
                                          } in
                                          facts
