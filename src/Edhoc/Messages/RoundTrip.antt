-- ===== src/Edhoc/Messages/RoundTrip.antt =====
-- Messages 1 and 2 through the encoder of one role and the parser of the other, in modules/edhoc/src/initiator.c
-- and modules/edhoc/src/responder.c.
use uoscore_uedhoc.Base.{
  All, Bool-cases, List, [], ap, arith, bind-eq-ok, drop, false, inl, inr, leb, length, ok,
  ok-injective, refl, sym, ℕ, ◌%◌, ◌*◌, ◌++◌, ◌+◌, ◌==◌, ◌^◌, ◌∙◌, ◌∷◌, ◌≡◌, ◌≤◌,
}
use uoscore_uedhoc.Coap.Parse.Options.{parsed}
use uoscore_uedhoc.Edhoc.{EdhocInitiatorContext, c_i_default_size, contents, g_x_default_size}
use uoscore_uedhoc.Edhoc.CryptoWrapper.{word_bytes}
use uoscore_uedhoc.Edhoc.Decoder.{word_at}
use uoscore_uedhoc.Edhoc.Host.{
  Host, bstr_identifier, byte_string_type, c_i_local, fresh, g_x_local, identifier_item, int_local,
  integer_type, map_label_len_local, prefix, suites_i_local,
}
use uoscore_uedhoc.Edhoc.Messages.{
  Field, Message, Msg1, encode_or_error, msg1_encode, msg1_parse, parse_ad_1, parse_c_i,
}
use uoscore_uedhoc.Edhoc.Messages.Fields.{
  DecodesItems, decode_field-byte_string, decode_field-number, decode_int-number,
  identifier_item-Reads, length-fresh, prefix-front,
}
use uoscore_uedhoc.Memory.{Bytes, IsByte}
use uoscore_uedhoc.Platform.{CborItem, byte_string, int}

encode_or_error-ok :
    (h : Host) (size : ℕ) (items : List CborItem) (bs : Bytes)
    → encode_or_error h size items ≡ ok bs
    → h.cbor.encode items ≡ bs
encode_or_error-ok h size items bs e = elim (Bool-cases (leb (length (h.cbor.encode items)) size)) [
  | inl fits ↦ ok-injective (rw fits at e)
  | inr long ↦ cc (rw long at e)
]

-- The fields of message 1 for one suite.
abbrev fields_1 : ℕ → ℕ → Bytes → Bytes → List CborItem
fields_1 method_corr suite g_x c_i =
    int method_corr ∷ int suite ∷ byte_string g_x ∷ bstr_identifier c_i ∷ []

msg1_encode-fields_1 :
    (h : Host) (c : EdhocInitiatorContext) (old : Bytes) (suite : ℕ) (g_x c_i : Bytes) (m : Message)
    → contents c.suites_i ≡ ok (suite ∷ [])
    → contents c.g_x ≡ ok g_x
    → contents c.c_i ≡ ok c_i
    → contents c.ad_1 ≡ ok []
    → msg1_encode h c old ≡ ok m
    → prefix m.msg_len m.msg
      ≡ ok (h.cbor.encode (fields_1 (4 * c.method_type + c.corr) suite g_x c_i))
unfolding msg1_encode
msg1_encode-fields_1 h c old suite g_x c_i m has_suite has_g_x has_c_i no_ad e =
    let items = fields_1 (4 * c.method_type + c.corr) suite g_x c_i in
    let (front, encoded, made) =
      bind-eq-ok (encode_or_error h (length old) items) _
        (rw (has_suite, has_g_x, has_c_i, no_ad) at e) in
    let is_front = encode_or_error-ok h (length old) items front encoded in
    rw (← ok-injective made) (prefix-front front (drop (length front) old) ∙ ap ok (sym is_front))

-- C_I as the parser of message 1 has it.
parse_c_i-bstr_identifier :
    (h : Host) (law : DecodesItems h) (c_i : Bytes)
    → All IsByte c_i
    → length c_i ≤ c_i_default_size
    → (f : Field) × (parse_c_i h (h.cbor.encode (bstr_identifier c_i ∷ [])) ≡ ok f)
      × (prefix f.len_f f.bytes_f ≡ ok c_i)
      × (f.rest_f ≡ h.cbor.encode [])
unfolding parse_c_i
parse_c_i-bstr_identifier h law [] b fits =
    let old = fresh h c_i_local c_i_default_size in
    let f : Field = record {
      bytes_f = old;
      len_f = 0;
      type_f = byte_string_type;
      rest_f = h.cbor.encode [];
    } in
    (f, rw (decode_field-byte_string h law old [] [] (omega arith)) refl, prefix-front [] old, refl)
parse_c_i-bstr_identifier h law (c ∷ []) b fits =
    let (v, reads, small, is_c) = identifier_item-Reads h law c [] b.0 in
    let old = fresh h c_i_local c_i_default_size in
    let room = length-fresh h c_i_local c_i_default_size in
    let f : Field = record {
      bytes_f = (v + 24) % 2 ^ 8 ∷ drop 1 (word_bytes v ++ drop 4 old);
      len_f = 1;
      type_f = integer_type;
      rest_f = h.cbor.encode [];
    } in
    (
      f,
      rw
          (
            decode_field-number h law old (identifier_item c ∷ []) [] v reads (omega (arith, room)),
            decode_int-number h law (fresh h int_local 4) (identifier_item c ∷ []) [] v 4 reads
                (length-fresh h int_local 4) small,
          )
          refl,
      prefix-front ((v + 24) % 2 ^ 8 ∷ []) (drop 1 (word_bytes v ++ drop 4 old))
          ∙ ap (λ (x : ℕ). ok (x ∷ [])) is_c,
      refl,
    )
parse_c_i-bstr_identifier h law (c ∷ d ∷ cs) b fits =
    let old = fresh h c_i_local c_i_default_size in
    let room = length-fresh h c_i_local c_i_default_size in
    let not_one : (length (c ∷ d ∷ cs) == 1) ≡ false = ground arith in
    let f : Field = record {
      bytes_f = (c ∷ d ∷ cs) ++ drop (length (c ∷ d ∷ cs)) old;
      len_f = length (c ∷ d ∷ cs);
      type_f = byte_string_type;
      rest_f = h.cbor.encode [];
    } in
    (
      f,
      rw (decode_field-byte_string h law old (c ∷ d ∷ cs) [] (omega (arith, room)), not_one) refl,
      prefix-front (c ∷ d ∷ cs) (drop (length (c ∷ d ∷ cs)) old),
      refl,
    )

-- What the responder finds in a message 1 that the initiator made for one suite and without AD_1, if the parser
-- reads the items that the encoder wrote: METHOD_CORR, the suite, G_X and C_I; its array for AD_1 stays as it was.
-- METHOD_CORR and the suite fit in a byte, C_I holds bytes, G_X has at most 32 of them and C_I at most 8.
pub msg1_parse-msg1_encode :
    (h : Host) (c : EdhocInitiatorContext) (old ad_1 : Bytes) (suite : ℕ) (g_x c_i : Bytes)
    (m : Message)
    → DecodesItems h
    → contents c.suites_i ≡ ok (suite ∷ [])
    → contents c.g_x ≡ ok g_x
    → contents c.c_i ≡ ok c_i
    → contents c.ad_1 ≡ ok []
    → IsByte (4 * c.method_type + c.corr)
    → IsByte suite
    → length g_x ≤ g_x_default_size
    → All IsByte c_i
    → length c_i ≤ c_i_default_size
    → msg1_encode h c old ≡ ok m
    → (msg1 : Bytes) × (p : Msg1) × (prefix m.msg_len m.msg ≡ ok msg1)
      × (msg1_parse h msg1 ad_1 ≡ ok p)
      × (p.method_corr ≡ 4 * c.method_type + c.corr)
      × (prefix 1 p.suites_i ≡ ok (suite ∷ []))
      × (prefix p.g_x_len p.g_x ≡ ok g_x)
      × (prefix p.c_i_len p.c_i ≡ ok c_i)
      × (p.ad_1 ≡ ad_1)
unfolding msg1_parse parse_ad_1
msg1_parse-msg1_encode h c old ad_1 suite g_x c_i m law has_suite has_g_x has_c_i no_ad method_small
      suite_small g_x_fits c_i_bytes c_i_fits e =
    let method_corr = 4 * c.method_type + c.corr in
    let behind_g_x = bstr_identifier c_i ∷ [] in
    let behind_suite = byte_string g_x ∷ behind_g_x in
    let old_suites = fresh h suites_i_local 5 in
    let old_g_x = fresh h g_x_local g_x_default_size in
    let (f, parsed, is_c_i, rest) = parse_c_i-bstr_identifier h law c_i c_i_bytes c_i_fits in
    let byte : suite % 256 ≡ suite = omega arith in
    let p : Msg1 = record {
      method_corr = method_corr % 2 ^ 8;
      suites_i = word_bytes suite ++ drop 4 old_suites;
      suites_i_len = 1;
      g_x = g_x ++ drop (length g_x) old_g_x;
      g_x_len = length g_x;
      c_i = f.bytes_f;
      c_i_len = f.len_f;
      ad_1 = ad_1;
      ad_1_len = length ad_1;
    } in
    (
      h.cbor.encode (fields_1 method_corr suite g_x c_i),
      p,
      msg1_encode-fields_1 h c old suite g_x c_i m has_suite has_g_x has_c_i no_ad e,
      rw
          (
            decode_int-number h law (fresh h int_local 4)
                (int method_corr ∷ int suite ∷ behind_suite) (int suite ∷ behind_suite) method_corr
                (word_at (fresh h map_label_len_local 8))
                (law.parse-int method_corr (int suite ∷ behind_suite) (omega arith))
                (length-fresh h int_local 4) (omega arith),
            decode_field-number h law old_suites (int suite ∷ behind_suite) behind_suite suite
                (law.parse-int suite behind_suite (omega arith))
                (omega (arith, length-fresh h suites_i_local 5)),
            decode_field-byte_string h law old_g_x g_x behind_g_x
                (omega (arith, length-fresh h g_x_local g_x_default_size)),
            parsed,
            rest,
            law.encode-nothing,
          )
          refl,
      omega arith,
      prefix-front (suite % 256 ∷ []) (drop 1 (word_bytes suite) ++ drop 4 old_suites)
          ∙ ap (λ (x : ℕ). ok (x ∷ [])) byte,
      prefix-front g_x (drop (length g_x) old_g_x),
      is_c_i,
      refl,
    )
