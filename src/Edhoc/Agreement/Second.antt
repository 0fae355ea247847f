-- ===== src/Edhoc/Agreement/Second.antt =====
-- TH_2 and PRK_3e2m of both roles: `process_fields_2` against `make_message_2`.
use uoscore_uedhoc.Base.{
  Bool, Bool-cases, Ensures-ok, List, [], ap, false, inl, inr, ok, ok-injective, refl, sym, true, ℕ,
  ◌%◌, ◌==◌, ◌^◌, ◌∙◌, ◌∷◌, ◌≡◌,
}
use uoscore_uedhoc.Edhoc.{
  EcdhCurve, EdhocInitiatorContext, EdhocResponderContext, EdhocResult, HashAlg, OtherPartyCred,
  Suite, contents, sha256, x25519,
}
use uoscore_uedhoc.Edhoc.Agreement.{make_message_2-ResponderKeys, process_fields_2-InitiatorKeys}
use uoscore_uedhoc.Edhoc.CryptoWrapper.{hash, hkdf_extract, shared_secret_derive}
use uoscore_uedhoc.Edhoc.Host.{Event, Host, Local, ecdh_secret, fresh, prefix}
use uoscore_uedhoc.Edhoc.Initiator.Process.{Middle, Start, process_fields_2}
use uoscore_uedhoc.Edhoc.Keys.{prk_derive}
use uoscore_uedhoc.Edhoc.Messages.{Msg2}
use uoscore_uedhoc.Edhoc.Responder.Process.{
  Accepted, Message2, assigned_corr, c_i_in_th2, make_message_2,
}
use uoscore_uedhoc.Edhoc.RetrieveCred.{Credential, retrieve_cred}
use uoscore_uedhoc.Edhoc.Steps.{derive_prk_2e}
use uoscore_uedhoc.Edhoc.Transcript.{th2_calculate, th2_input_encode}
use uoscore_uedhoc.Memory.{Bytes}

-- The other party: the same libraries, and locals and a network of its own.
abbrev pub peer :
    Host
    → (Local → Bytes)
    → (List Event → EdhocResult Bytes)
    → (List Event → Bytes → EdhocResult (Unit {0}))
    → Host
peer h unset rx tx = record h { unset = unset; rx = rx; tx = tx }

-- The test on CORR holds whatever CORR was, so C_I is not hashed.
pub c_i_in_th2_empty : (corr : ℕ) (c_i : Bytes) → c_i_in_th2 corr c_i ≡ []
unfolding c_i_in_th2 assigned_corr
c_i_in_th2_empty corr c_i = elim (Bool-cases (corr == 1)) [
  | inl one ↦ rw one
  | inr other ↦ rw other
]

module _ (h : Host) (unset : Local → Bytes) (rx : List Event → EdhocResult Bytes)
    (tx : List Event → Bytes → EdhocResult (Unit {0})) (public : Bytes → Bytes)
    (dh : (a b : Bytes) → h.c25519_smult (public a) b ≡ h.c25519_smult (public b) a) where
  abbrev other : Host
  other = peer h unset rx tx

  th2_calculate-peer :
      (alg : HashAlg) (msg1 c_i g_y c_r : Bytes)
      → th2_calculate other alg msg1 c_i g_y c_r ≡ th2_calculate h alg msg1 c_i g_y c_r
  unfolding th2_calculate th2_input_encode hash
  th2_calculate-peer sha256 msg1 c_i g_y c_r = refl

  hkdf_extract-peer :
      (alg : HashAlg) (salt ikm : Bytes)
      → hkdf_extract other alg salt ikm ≡ hkdf_extract h alg salt ikm
  unfolding hkdf_extract
  hkdf_extract-peer sha256 [] ikm = refl
  hkdf_extract-peer sha256 (s ∷ salt) ikm = refl

  -- On the curve 25519 the ephemeral keys give both roles the same PRK_2e.
  derive_prk_2e-dh :
      (suite : Suite) (x y : Bytes)
      → suite.edhoc_ecdh_curve ≡ x25519
      → derive_prk_2e other suite y (public x)
        ≡ hkdf_extract h suite.edhoc_hash [] (h.c25519_smult (public y) x)
  unfolding derive_prk_2e shared_secret_derive
  derive_prk_2e-dh suite x y curve =
      rw (curve, dh y x) (hkdf_extract-peer suite.edhoc_hash [] (h.c25519_smult (public x) y))

  -- And so do a static key and an ephemeral one, where the method has a static key.
  prk_derive-dh :
      (static_dh : Bool) (suite : Suite) (prk x r key_g : Bytes)
      → suite.edhoc_ecdh_curve ≡ x25519
      → (static_dh ≡ true → key_g ≡ public r)
      → prk_derive other static_dh suite prk (public x) r ≡ prk_derive h static_dh suite prk key_g x
  unfolding prk_derive shared_secret_derive
  prk_derive-dh false suite prk x r key_g curve is_static = refl
  prk_derive-dh true suite prk x r key_g curve is_static =
      rw (curve, is_static refl, dh r x)
        (hkdf_extract-peer suite.edhoc_hash prk (h.c25519_smult (public x) r))

  -- The same where the responder has the static key of the initiator.
  pub prk_derive-static :
      (static_dh : Bool) (suite : Suite) (prk i y key_g : Bytes)
      → suite.edhoc_ecdh_curve ≡ x25519
      → (static_dh ≡ true → key_g ≡ public i)
      → prk_derive h static_dh suite prk (public y) i ≡ prk_derive other static_dh suite prk key_g y
  unfolding prk_derive shared_secret_derive
  prk_derive-static false suite prk i y key_g curve is_static = refl
  prk_derive-static true suite prk i y key_g curve is_static =
      rw (curve, is_static refl, dh y i)
        (sym (hkdf_extract-peer suite.edhoc_hash prk (h.c25519_smult (public i) y)))

  same_secret :
      (curve : EcdhCurve) (x y g_xy old : Bytes)
      → curve ≡ x25519
      → shared_secret_derive h curve x (public y) old ≡ ok g_xy
      → h.c25519_smult (public y) x ≡ g_xy
  unfolding shared_secret_derive
  same_secret curve x y g_xy old on e = ok-injective (rw on at e)

  -- The responder of `make_message_2` and the initiator of `process_fields_2` come to the same TH_2 and the same
  -- PRK_3e2m, whatever the method is, if they use the same suite on the curve 25519 and the same message 1, the
  -- initiator has G_Y and C_R of the responder and no C_I in message 2, the responder has G_X of the initiator,
  -- and the credential that the initiator finds has the static key of the responder
  -- if the method is one where it has any. `dh` is what the curve
  -- gives: the secret of two keys does not depend on whose is the secret one. Locals and network may differ.
  pub process_fields_2-make_message_2 :
      (ci : EdhocInitiatorContext) (cr : EdhocResponderContext) (creds : List OtherPartyCred)
      (ad_2 : Bytes) (st : Start) (m : Msg2) (mid : Middle) (a : Accepted) (m2 : Message2)
      (x y r key_g : Bytes) (cred : Credential)
      → st.suite ≡ a.suite
      → a.suite.edhoc_ecdh_curve ≡ x25519
      → st.authentication.static_dh_r ≡ a.authentication.static_dh_r
      → contents ci.x ≡ ok x
      → contents cr.y ≡ ok y
      → contents cr.r ≡ ok r
      → prefix a.message.g_x_len a.message.g_x ≡ ok (public x)
      → contents cr.g_y ≡ ok (public y)
      → m.g_y_2 ≡ public y
      → contents cr.c_r ≡ ok m.c_r_2
      → m.c_i_2 ≡ []
      → retrieve_cred h st.authentication.static_dh_r creds mid.split_plaintext.id_cred_x
          (mid.split_plaintext.id_cred_x_len % 2 ^ 8)
        ≡ ok cred
      → contents cred.g_other ≡ ok key_g
      → (a.authentication.static_dh_r ≡ true → key_g ≡ public r)
      → make_message_2 other cr st.msg1 a ≡ ok m2
      → process_fields_2 h ci creds ad_2 st m ≡ ok mid
      → (mid.th2 ≡ m2.th2) × (mid.prk_3e2m ≡ m2.prk_3e2m)
  process_fields_2-make_message_2 ci cr creds ad_2 st m mid a m2 x y r key_g cred suites curve
        static has_x has_y has_r has_g_x has_g_y g_y_is c_r_is no_c_i found_is g_is static_key made
        done =
      let ki = Ensures-ok _ _ (process_fields_2-InitiatorKeys h ci creds ad_2 st m) done in
      let kr = Ensures-ok _ _ (make_message_2-ResponderKeys other cr st.msg1 a) made in
      let g_y_eq : kr.own_g_y ≡ public y = ok-injective (sym kr.has_g_y ∙ has_g_y) in
      let c_r_eq : kr.own_c_r ≡ m.c_r_2 = ok-injective (sym kr.has_c_r ∙ c_r_is) in
      let y_eq : kr.secret_y ≡ y = ok-injective (sym kr.has_y ∙ has_y) in
      let r_eq : kr.secret_r ≡ r = ok-injective (sym kr.has_r ∙ has_r) in
      let g_x_eq : kr.their_g_x ≡ public x = ok-injective (sym kr.has_g_x ∙ has_g_x) in
      let x_eq : ki.secret_x ≡ x = ok-injective (sym ki.has_x ∙ has_x) in
      let key_eq : ki.key_g ≡ key_g = ok-injective (
        sym ki.has_g
        ∙ ap (λ (c : Credential). contents c.g_other) (ok-injective (sym ki.finds ∙ found_is))
        ∙ g_is) in
      let st_curve : st.suite.edhoc_ecdh_curve ≡ x25519 =
        ap (λ (s : Suite). s.edhoc_ecdh_curve) suites ∙ curve in
      let hash_eq : st.suite.edhoc_hash ≡ a.suite.edhoc_hash =
        ap (λ (s : Suite). s.edhoc_hash) suites in
      let secret : h.c25519_smult (public y) x ≡ ki.g_xy =
        same_secret st.suite.edhoc_ecdh_curve x y ki.g_xy (fresh h ecdh_secret 32) st_curve
          (cc (ki.shares, x_eq, g_y_is)) in
      let th2_ok : ◌≡◌ {A = EdhocResult Bytes} (ok mid.th2) (ok m2.th2) = cc (
        ki.hashes,
        kr.hashes,
        th2_calculate-peer a.suite.edhoc_hash st.msg1 [] (public y) m.c_r_2,
        c_i_in_th2_empty (a.message.method_corr % 4) kr.their_c_i,
      ) in
      let prk_2e_ok : ◌≡◌ {A = EdhocResult Bytes} (ok ki.prk_2e) (ok kr.prk_2e) =
        cc (ki.extracts, kr.extracts, derive_prk_2e-dh a.suite x y curve) in
      let prk_2e_eq = ok-injective prk_2e_ok in
      let prk_ok : ◌≡◌ {A = EdhocResult Bytes} (ok mid.prk_3e2m) (ok m2.prk_3e2m) = cc (
        ki.derives,
        kr.derives,
        prk_derive-dh a.authentication.static_dh_r a.suite kr.prk_2e x r key_g curve static_key,
      ) in
      (ok-injective th2_ok, ok-injective prk_ok)
