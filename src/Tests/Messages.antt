-- ===== src/Tests/Messages.antt =====
-- Messages 1 and 2 through encoder and parser on the toy host.
use uoscore_uedhoc.Base.{
  [], arith, drop, drop-append, err, leb, length, ok, refl, replicate, suc, take-append, true, ℕ,
  ◌%◌, ◌*◌, ◌++◌, ◌+◌, ◌-◌, ◌/◌, ◌^◌, ◌∙◌, ◌∷◌, ◌≡◌, ◌≤◌,
}
use uoscore_uedhoc.Edhoc.{
  EdhocResult, authentication_type_get, bytes_at, cbor_byte_string_buffer_to_small, get_suite,
}
use uoscore_uedhoc.Edhoc.CryptoWrapper.{
  aead_decrypt, aead_encrypt, hash, hkdf_expand, hkdf_extract, shared_secret_derive,
}
use uoscore_uedhoc.Edhoc.Decoder.{cbor_decoder, decode_int}
use uoscore_uedhoc.Edhoc.Host.{integer_value, memcmp_equal, memcpy_checked, prefix}
use uoscore_uedhoc.Edhoc.Initiator.Process.{decrypt_ciphertext_2, make_message_3, process_fields_2}
use uoscore_uedhoc.Edhoc.Keys.{a_xae_encode, create_hkdf_info, okm_calc, prk_derive}
use uoscore_uedhoc.Edhoc.Mac.{encode_byte_string, signature_or_mac_msg_create}
use uoscore_uedhoc.Edhoc.Messages.{
  Message, Msg1, c_x_bstr_identifier_encode, decode_field, msg1_encode, msg1_parse, msg2_encode,
  msg2_parse,
}
use uoscore_uedhoc.Edhoc.Messages.Fields.{DecodesItems}
use uoscore_uedhoc.Edhoc.Messages.RoundTrip.{msg1_parse-msg1_encode}
use uoscore_uedhoc.Edhoc.Messages.Second.{msg2_parse-msg2_encode}
use uoscore_uedhoc.Edhoc.Messages.Uncorrelated.{msg2_parse-make_message_2}
use uoscore_uedhoc.Edhoc.Plaintext.{
  id_cred2kid, kid2id_cred, kid_ignoring_error, plaintext_encode, plaintext_split,
}
use uoscore_uedhoc.Edhoc.Responder.Process.{
  Accepted, Message2, accept_1, assigned_corr, c_i_in_th2, encrypt_plaintext_2, make_message_2,
  process_ciphertext_3,
}
use uoscore_uedhoc.Edhoc.RetrieveCred.{retrieve_cred}
use uoscore_uedhoc.Edhoc.Steps.{derive_keys_3, derive_prk_2e, sign_or_mac_of}
use uoscore_uedhoc.Edhoc.Transcript.{
  th2_calculate, th2_input_encode, th3_calculate, th3_input_encode,
}
use uoscore_uedhoc.Memory.{Bytes}
use uoscore_uedhoc.Tests.Handshake.{value, value_lem}
use uoscore_uedhoc.Tests.Toy.{
  bytes_array, item_bytes, number, string_value, toy, toy_encode, toy_initiator, toy_parse,
  toy_responder,
}

-- The number that an item of the toy encoder stands for.
number_even : (n : ℕ) → number (100 + 2 * n) ≡ integer_value n 1
unfolding number
number_even n =
    let even : (100 + 2 * n) % 2 ≡ 0 = omega arith in
    let half : (100 + 2 * n - 100) / 2 ≡ n = omega arith in rw (even, half) refl

number_odd : (n : ℕ) → number (101 + 2 * n) ≡ integer_value (2 ^ 32 - 1 - n) 1
unfolding number
number_odd n =
    let odd : (101 + 2 * n) % 2 ≡ 1 = omega arith in
    let half : (101 + 2 * n - 101) / 2 ≡ n = omega arith in rw (odd, half) refl

toy_parse_number : (b : ℕ) (rest : Bytes) → 100 ≤ b → toy_parse (b ∷ rest) ≡ number b
unfolding toy_parse
toy_parse_number b [] big = let t : leb 100 b ≡ true = ground arith in rw t refl
toy_parse_number b (n ∷ rest) big = let t : leb 100 b ≡ true = ground arith in rw t refl

behind_string : (bs rest : Bytes) → drop (2 + length bs) (2 ∷ length bs ∷ (bs ++ rest)) ≡ rest
behind_string bs rest =
    let two : 2 + length bs ≡ suc (suc (length bs)) = omega arith in
    rw two (drop-append (length bs) bs rest refl)

toy-DecodesItems : DecodesItems toy
unfolding toy toy_encode toy_parse item_bytes string_value
toy-DecodesItems = record {
  encode-nothing = refl;
  parse-byte_string = λ bs is. (
    2 + length bs,
    rw (take-append (length bs) bs (toy_encode is) refl) refl,
    behind_string bs (toy_encode is),
  );
  parse-int = λ n is small.
      (1, toy_parse_number (100 + 2 * n) (toy_encode is) (omega arith) ∙ number_even n, refl);
  parse-negint = λ n is small.
      (1, toy_parse_number (101 + 2 * n) (toy_encode is) (omega arith) ∙ number_odd n, refl);
}

unfoldable encoded_1 : EdhocResult Message
unfolding toy msg1_encode
encoded_1 = msg1_encode toy toy_initiator (replicate 256 0)

unfoldable message_1 : Message
unfolding encoded_1 bytes_at
message_1 = value encoded_1 tt

msg1_parse-msg1_encode_example :
    (msg1 : Bytes) × (p : Msg1) × (prefix message_1.msg_len message_1.msg ≡ ok msg1)
    × (msg1_parse toy msg1 [] ≡ ok p)
    × (p.method_corr ≡ 13)
    × (prefix 1 p.suites_i ≡ ok (0 ∷ []))
    × (prefix p.g_x_len p.g_x ≡ ok (replicate 32 1))
    × (prefix p.c_i_len p.c_i ≡ ok (7 ∷ []))
    × (p.ad_1 ≡ [])
unfolding message_1 encoded_1 bytes_at
msg1_parse-msg1_encode_example =
    msg1_parse-msg1_encode toy toy_initiator (replicate 256 0) [] 0 (replicate 32 1) (7 ∷ [])
      message_1 toy-DecodesItems refl refl refl refl (omega arith) (omega arith) (omega arith)
      (omega arith, tt) (omega arith) (value_lem encoded_1 tt)

-- A C_I of two bytes, which the message carries.
msg2_parse-msg2_encode_example :
    msg2_parse toy 0 (2 ∷ 2 ∷ 7 ∷ 8 ∷ 2 ∷ 2 ∷ 1 ∷ 2 ∷ 129 ∷ 2 ∷ 1 ∷ 5 ∷ []) 2 2
    ≡ ok (record { c_i_2 = 7 ∷ 8 ∷ []; g_y_2 = 1 ∷ 2 ∷ []; c_r_2 = 9 ∷ []; ciphertext_2 = 5 ∷ [] })
unfolding toy toy_encode msg2_encode bytes_at
msg2_parse-msg2_encode_example =
    msg2_parse-msg2_encode toy toy-DecodesItems (1 ∷ 2 ∷ []) (5 ∷ []) 9 (omega arith) (omega arith)
      (omega arith) 0 256 (7 ∷ 8 ∷ []) (2 ∷ 2 ∷ 7 ∷ 8 ∷ 2 ∷ 2 ∷ 1 ∷ 2 ∷ 129 ∷ 2 ∷ 1 ∷ 5 ∷ [])
      (bytes_array (9 ∷ [])) refl (omega arith, (omega arith, tt)) (omega arith) refl

-- A message 1 with the method 3 and CORR 0, and what the responder answers.
abbrev uncorrelated : Msg1
uncorrelated = record {
  method_corr = 12;
  suites_i = replicate 5 0;
  suites_i_len = 1;
  g_x = replicate 32 1;
  g_x_len = 32;
  c_i = 7 ∷ replicate 7 0;
  c_i_len = 1;
  ad_1 = [];
  ad_1_len = 0;
}

unfoldable accept_0 : EdhocResult Accepted
accept_0 = accept_1 toy uncorrelated

unfoldable accepted_0 : Accepted
unfolding accept_0 toy msg1_encode msg1_parse accept_1 make_message_2 decode_int decode_field
    cbor_decoder get_suite authentication_type_get assigned_corr c_i_in_th2 bytes_at th2_calculate
    th3_calculate th2_input_encode th3_input_encode memcpy_checked hash derive_prk_2e
    shared_secret_derive hkdf_extract prk_derive signature_or_mac_msg_create okm_calc
    create_hkdf_info hkdf_expand aead_encrypt aead_decrypt sign_or_mac_of plaintext_encode
    encode_byte_string kid_ignoring_error id_cred2kid encrypt_plaintext_2 decrypt_ciphertext_2
    msg2_encode msg2_parse process_fields_2 plaintext_split retrieve_cred memcmp_equal
    make_message_3 derive_keys_3 a_xae_encode c_x_bstr_identifier_encode process_ciphertext_3
    kid2id_cred
accepted_0 = value accept_0 tt

unfoldable answer_0 : EdhocResult Message2
answer_0 = make_message_2 toy toy_responder (1 ∷ []) accepted_0

unfoldable answered_0 : Message2
unfolding answer_0 accepted_0 accept_0 toy msg1_encode msg1_parse accept_1 make_message_2 decode_int
    decode_field cbor_decoder get_suite authentication_type_get assigned_corr c_i_in_th2 bytes_at
    th2_calculate th3_calculate th2_input_encode th3_input_encode memcpy_checked hash derive_prk_2e
    shared_secret_derive hkdf_extract prk_derive signature_or_mac_msg_create okm_calc
    create_hkdf_info hkdf_expand aead_encrypt aead_decrypt sign_or_mac_of plaintext_encode
    encode_byte_string kid_ignoring_error id_cred2kid encrypt_plaintext_2 decrypt_ciphertext_2
    msg2_encode msg2_parse process_fields_2 plaintext_split retrieve_cred memcmp_equal
    make_message_3 derive_keys_3 a_xae_encode c_x_bstr_identifier_encode process_ciphertext_3
    kid2id_cred
answered_0 = value answer_0 tt

msg2_parse-make_message_2_example :
    msg2_parse toy 0 answered_0.msg2 1 32 ≡ err cbor_byte_string_buffer_to_small
unfolding accept_0 accepted_0 answer_0 answered_0 bytes_at
msg2_parse-make_message_2_example =
    msg2_parse-make_message_2 toy toy_responder (1 ∷ []) uncorrelated accepted_0 answered_0
      (replicate 32 3) 1 32 toy-DecodesItems refl refl (omega arith) (omega arith)
      (value_lem accept_0 tt) (value_lem answer_0 tt)
