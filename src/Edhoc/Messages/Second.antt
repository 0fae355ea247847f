-- ===== src/Edhoc/Messages/Second.antt =====
-- Message 2 through `msg2_encode` of modules/edhoc/src/responder.c and `msg2_parse` of
-- modules/edhoc/src/initiator.c.
use uoscore_uedhoc.Base.{
  All, Bool, Bool-cases, List, [], append-nil, arith, drop, false, fault, if◌then◌else◌, inl, inr,
  length, ok, refl, take-length, ℕ, ◌%◌, ◌++◌, ◌<◌, ◌==◌, ◌>>=◌, ◌>>◌, ◌^◌, ◌||◌, ◌∷◌, ◌≡◌, ◌≤◌,
}
use uoscore_uedhoc.Edhoc.{
  EdhocResult, bytes_at, c_r_default_size, ciphertext_default_size, contents,
}
use uoscore_uedhoc.Edhoc.Host.{
  Host, bstr_identifier, byte_string_type, c_i_local, c_r_local, ciphertext_local, fresh, g_y_local,
  identifier_item, int_local, integer_type, prefix,
}
use uoscore_uedhoc.Edhoc.Keys.{narrow}
use uoscore_uedhoc.Edhoc.Messages.{
  Field, Msg2, decode_field, msg2_encode, msg2_parse, parse_c_i_2, parse_c_r, text_is_error,
}
use uoscore_uedhoc.Edhoc.Messages.Fields.{
  DecodesItems, decode_field-byte_string, decode_field_overflow, decode_int-number, drop-all,
  encoded-fits, identifier_item-Reads, length-fresh, prefix-front,
}
use uoscore_uedhoc.Edhoc.RetrieveCred.Match.{bytes_at-memory}
use uoscore_uedhoc.Memory.{ByteArray, Bytes, IsByte, room}
use uoscore_uedhoc.Platform.{CborItem, byte_string}

pub narrow-short : (bs : Bytes) → length bs < 2 ^ 8 → narrow bs ≡ bs
narrow-short bs short =
    let same : length bs % 2 ^ 8 ≡ length bs = omega arith in rw (same, take-length bs) refl

abbrev back_2 : Bytes → ℕ → Bytes → List CborItem
back_2 g_y r cipher = byte_string g_y ∷ identifier_item r ∷ byte_string cipher ∷ []

-- The fields of message 2; the flag says whether the transport correlates it.
abbrev fields_2 : Bool → Bytes → Bytes → ℕ → Bytes → List CborItem
fields_2 correlated c_i g_y r cipher =
    if correlated then back_2 g_y r cipher else bstr_identifier c_i ∷ back_2 g_y r cipher

msg2_encode-fields_2 :
    (h : Host) (corr r size : ℕ) (c_i g_y cipher msg2 : Bytes) (c_r : ByteArray)
    → contents c_r ≡ ok (r ∷ [])
    → length c_i < 2 ^ 8
    → length g_y < 2 ^ 8
    → msg2_encode h corr c_i g_y c_r cipher size ≡ ok msg2
    → h.cbor.encode (fields_2 (corr == 1 || corr == 3) c_i g_y r cipher) ≡ msg2
unfolding msg2_encode
msg2_encode-fields_2 h corr r size c_i g_y cipher msg2 c_r has_c_r c_i_short g_y_short e =
    let items = fields_2 (corr == 1 || corr == 3) c_i g_y r cipher in
    let (rest, in_memory, len) = bytes_at-memory c_r.ptr c_r.len (r ∷ []) has_c_r in
    let one : bytes_at c_r.ptr 1 ≡ ok (r ∷ []) = rw (← len) at has_c_r in
    encoded-fits h size items msg2
      (rw (← len, one, narrow-short c_i c_i_short, narrow-short g_y g_y_short) at e)

parse_c_r-identifier_item :
    (h : Host) (law : DecodesItems h) (old : Bytes) (r : ℕ) (is : List CborItem)
    → length old ≡ 1
    → IsByte r
    → parse_c_r h old (h.cbor.encode (identifier_item r ∷ is))
      ≡ ok
          (record { bytes_f = r ∷ []; len_f = 1; type_f = integer_type; rest_f = h.cbor.encode is })
unfolding parse_c_r
parse_c_r-identifier_item h law old r is size small =
    let (v, reads, word, is_r) = identifier_item-Reads h law r is small in
    rw
      (
        size,
        decode_int-number h law (fresh h int_local 4) (identifier_item r ∷ is) is v 1 reads
            (length-fresh h int_local 4) word,
        is_r,
        drop-all 1 old (omega arith),
      )
      refl

module _ (h : Host) (law : DecodesItems h) (g_y cipher : Bytes) (r : ℕ)
    (g_y_bytes : length g_y < 2 ^ 8) (r_small : IsByte r)
    (cipher_fits : length cipher ≤ ciphertext_default_size) where
  -- The message from G_Y on.
  abbrev parse_back_2 : Field → Bytes → EdhocResult Msg2
  parse_back_2 c_i input = do
    g ← decode_field h (fresh h g_y_local (length g_y)) input
    text_is_error g.type_f
    c_r ← parse_c_r h (fresh h c_r_local c_r_default_size) g.rest_f
    ciphertext ← decode_field h (fresh h ciphertext_local ciphertext_default_size) c_r.rest_f
    c_i_bytes ← prefix c_i.len_f c_i.bytes_f
    c_r_bytes ← prefix c_r.len_f c_r.bytes_f
    ciphertext_bytes ← prefix ciphertext.len_f ciphertext.bytes_f
    ok (record {
      c_i_2 = c_i_bytes;
      g_y_2 = g.bytes_f;
      c_r_2 = c_r_bytes;
      ciphertext_2 = ciphertext_bytes;
    })

  parse_back_2-back_2 :
      (c_i : Bytes) (f : Field)
      → prefix f.len_f f.bytes_f ≡ ok c_i
      → parse_back_2 f (h.cbor.encode (back_2 g_y r cipher))
        ≡ ok (record { c_i_2 = c_i; g_y_2 = g_y; c_r_2 = r ∷ []; ciphertext_2 = cipher })
  parse_back_2-back_2 c_i f is_c_i =
      let old_g_y = fresh h g_y_local (length g_y) in
      let old_cipher = fresh h ciphertext_local ciphertext_default_size in
      let room = length-fresh h g_y_local (length g_y) in
      rw
        (
          decode_field-byte_string h law old_g_y g_y (identifier_item r ∷ byte_string cipher ∷ [])
              (omega (arith, room)),
          parse_c_r-identifier_item h law (fresh h c_r_local c_r_default_size) r
              (byte_string cipher ∷ []) (length-fresh h c_r_local c_r_default_size) r_small,
          decode_field-byte_string h law old_cipher cipher []
              (omega (arith, length-fresh h ciphertext_local ciphertext_default_size)),
          is_c_i,
          prefix-front cipher (drop (length cipher) old_cipher),
          drop-all (length g_y) old_g_y (omega (arith, room)),
          append-nil g_y,
        )
        refl

  carried_c_i :
      (c_i old : Bytes)
      → length old ≡ length c_i
      → All IsByte c_i
      → (decode_field h old (h.cbor.encode (bstr_identifier c_i ∷ back_2 g_y r cipher)) >>= λ f.
          parse_back_2 f f.rest_f)
        ≡ (if length c_i == 1
            then fault
            else ok (record { c_i_2 = c_i; g_y_2 = g_y; c_r_2 = r ∷ []; ciphertext_2 = cipher }))
  carried_c_i [] old room b =
      let f : Field = record {
        bytes_f = old;
        len_f = 0;
        type_f = byte_string_type;
        rest_f = h.cbor.encode (back_2 g_y r cipher);
      } in
      rw (decode_field-byte_string h law old [] (back_2 g_y r cipher) (omega arith))
        (parse_back_2-back_2 [] f (prefix-front [] old))
  carried_c_i (c ∷ []) old room b =
      let (v, reads, word, is_c) = identifier_item-Reads h law c (back_2 g_y r cipher) b.0 in
      rw
        (decode_field_overflow h law old (identifier_item c ∷ back_2 g_y r cipher)
          (back_2 g_y r cipher) v reads (omega arith))
        refl
  carried_c_i (c ∷ d ∷ cs) old room b =
      let c_i = c ∷ d ∷ cs in
      let not_one : (length c_i == 1) ≡ false = ground arith in
      let f : Field = record {
        bytes_f = c_i ++ drop (length c_i) old;
        len_f = length c_i;
        type_f = byte_string_type;
        rest_f = h.cbor.encode (back_2 g_y r cipher);
      } in
      rw (decode_field-byte_string h law old c_i (back_2 g_y r cipher) (omega arith), not_one)
        (parse_back_2-back_2 c_i f (prefix-front c_i (drop (length c_i) old)))

  -- What `msg2_parse` finds in a message 2 that `msg2_encode` made for the same CORR and a C_R of one byte, if the
  -- parser reads the items that the encoder wrote and the arrays for C_I and G_Y are as long as C_I and G_Y: G_Y, C_R,
  -- the ciphertext, and nothing or C_I, as CORR says. Only a C_I of one byte that the message carries is a fault: the
  -- `int` that it is decoded into does not fit in the array. C_I and G_Y have fewer than 256 bytes, the ciphertext at
  -- most 256.
  pub msg2_parse-msg2_encode :
      (corr size : ℕ) (c_i msg2 : Bytes) (c_r : ByteArray)
      → contents c_r ≡ ok (r ∷ [])
      → All IsByte c_i
      → length c_i < 2 ^ 8
      → msg2_encode h corr c_i g_y c_r cipher size ≡ ok msg2
      → msg2_parse h corr msg2 (length c_i) (length g_y) ≡ (
          let found : Bytes → EdhocResult Msg2 =
            λ c. ok (record { c_i_2 = c; g_y_2 = g_y; c_r_2 = r ∷ []; ciphertext_2 = cipher }) in
          if corr == 1 || corr == 3
          then found []
          else (if length c_i == 1 then fault else found c_i))
  unfolding msg2_parse parse_c_i_2
  msg2_parse-msg2_encode corr size c_i msg2 c_r has_c_r c_i_bytes c_i_short e =
      let old = fresh h c_i_local (length c_i) in
      let is_msg2 =
        msg2_encode-fields_2 h corr r size c_i g_y cipher msg2 c_r has_c_r c_i_short g_y_bytes e in
      elim (Bool-cases (corr == 1 || corr == 3)) [
        | inl correlated ↦
            let f : Field = record {
              bytes_f = old;
              len_f = 0;
              type_f = byte_string_type;
              rest_f = h.cbor.encode (back_2 g_y r cipher);
            } in
            rw (← is_msg2, correlated) (parse_back_2-back_2 [] f (prefix-front [] old))
        | inr carried ↦
            rw (← is_msg2, carried)
              (carried_c_i c_i old (length-fresh h c_i_local (length c_i)) c_i_bytes)
      ]
