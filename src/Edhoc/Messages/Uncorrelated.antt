-- ===== src/Edhoc/Messages/Uncorrelated.antt =====
-- Message 2 where the transport does not correlate it, between modules/edhoc/src/responder.c and
-- modules/edhoc/src/initiator.c.
use uoscore_uedhoc.Base.{
  Ensures, Ensures-bind, Ensures-ok, List, [], arith, bind-eq-ok, err, false, if◌then◌else◌, length,
  ok, ok-injective, refl, sym, ℕ, ◌%◌, ◌<◌, ◌==◌, ◌^◌, ◌||◌, ◌∙◌, ◌∷◌, ◌≡◌,
}
use uoscore_uedhoc.Edhoc.{
  EdhocResponderContext, bytes_at, cbor_byte_string_buffer_to_small, contents, get_suite,
  msg_default_size,
}
use uoscore_uedhoc.Edhoc.Agreement.{ResponderKeys, make_message_2-ResponderKeys}
use uoscore_uedhoc.Edhoc.Decoder.{word_at}
use uoscore_uedhoc.Edhoc.Host.{Host, bstr_identifier, c_i_local, fresh, prefix}
use uoscore_uedhoc.Edhoc.Keys.{narrow}
use uoscore_uedhoc.Edhoc.Messages.{Msg1, msg2_encode, msg2_parse, parse_c_i_2}
use uoscore_uedhoc.Edhoc.Messages.Fields.{
  DecodesItems, decode_field_small, encoded-fits, length-fresh,
}
use uoscore_uedhoc.Edhoc.Messages.Second.{narrow-short}
use uoscore_uedhoc.Edhoc.Responder.Process.{
  Accepted, Message2, accept_1, assigned_corr, make_message_2,
}
use uoscore_uedhoc.Memory.{ByteArray, Bytes}
use uoscore_uedhoc.Platform.{CborItem, byte_string}

accept_1-corr :
    (h : Host) (m : Msg1) → Ensures (λ a. a.corr ≡ assigned_corr (m.method_corr % 4)) (accept_1 h m)
unfolding accept_1
accept_1-corr h m =
    let P = λ (a : Accepted). a.corr ≡ assigned_corr (m.method_corr % 4) in
    Ensures-bind P (prefix 1 m.suites_i) _
      λ first _. Ensures-bind P (get_suite (word_at first)) _ λ suite _. refl

-- For CORR 3 the message starts with G_Y.
msg2_encode-byte_string :
    (h : Host) (size : ℕ) (c_i g_y cipher msg2 : Bytes) (c_r : ByteArray)
    → length g_y < 2 ^ 8
    → msg2_encode h 3 c_i g_y c_r cipher size ≡ ok msg2
    → (is : List CborItem) × (h.cbor.encode (byte_string g_y ∷ is) ≡ msg2)
unfolding msg2_encode
msg2_encode-byte_string h size c_i g_y cipher msg2 c_r short e =
    let (c_r_bytes, had, encoded) =
      bind-eq-ok (bytes_at c_r.ptr (if c_r.len % 2 ^ 8 == 1 then 1 else length (narrow c_i))) _ e in
    let is =
      (if c_r.len % 2 ^ 8 == 1 then bstr_identifier c_r_bytes else byte_string c_r_bytes)
      ∷ byte_string cipher
      ∷ [] in
    (is, encoded-fits h size (byte_string g_y ∷ is) msg2 (rw (narrow-short g_y short) at encoded))

-- Where the transport does not correlate message 2, CORR 0 or 2, the initiator looks for C_I in front of it. The
-- responder, whose test on CORR assigns 3 to the variable, never writes it there: the initiator takes G_Y for C_I
-- and refuses each message 2 that the responder makes, if the parser reads the items that the encoder wrote, G_Y
-- has fewer than 256 bytes, and the array for C_I is shorter than G_Y.
pub msg2_parse-make_message_2 :
    (h : Host) (c : EdhocResponderContext) (msg1 : Bytes) (m : Msg1) (a : Accepted) (m2 : Message2)
    (g_y : Bytes) (c_i_size g_y_size : ℕ)
    → DecodesItems h
    → (m.method_corr % 4 == 1 || m.method_corr % 4 == 3) ≡ false
    → contents c.g_y ≡ ok g_y
    → length g_y < 2 ^ 8
    → c_i_size < length g_y
    → accept_1 h m ≡ ok a
    → make_message_2 h c msg1 a ≡ ok m2
    → msg2_parse h (m.method_corr % 4) m2.msg2 c_i_size g_y_size
      ≡ err cbor_byte_string_buffer_to_small
unfolding msg2_parse parse_c_i_2 assigned_corr
msg2_parse-make_message_2 h c msg1 m a m2 g_y c_i_size g_y_size law uncorrelated has_g_y short small
      accepted made =
    let kr =
      Ensures-ok (ResponderKeys h c msg1 a) (make_message_2 h c msg1 a)
        (make_message_2-ResponderKeys h c msg1 a) made in
    let same_g_y : kr.own_g_y ≡ g_y = ok-injective (sym kr.has_g_y ∙ has_g_y) in
    let not_one : (m.method_corr % 4 == 1) ≡ false = ground arith in
    let corr : a.corr ≡ 3 =
      Ensures-ok (λ x. x.corr ≡ assigned_corr (m.method_corr % 4)) (accept_1 h m)
        (accept_1-corr h m) accepted
      ∙ rw not_one refl in
    let (is, starts) =
      msg2_encode-byte_string h msg_default_size kr.their_c_i g_y m2.ciphertext_2 m2.msg2 c.c_r
        short (rw (corr, same_g_y) at kr.encodes) in
    let old = fresh h c_i_local c_i_size in
    rw
      (
        ← starts,
        uncorrelated,
        decode_field_small h law old g_y is (omega (arith, length-fresh h c_i_local c_i_size)),
      )
      refl
