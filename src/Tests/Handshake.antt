-- ===== src/Tests/Handshake.antt =====
-- The messages of one handshake on the toy host, and what each role computes from them.
use uoscore_uedhoc.Base.{[], err, fault, ok, refl, replicate, true, ◌%◌, ◌^◌, ◌≡◌}
use uoscore_uedhoc.Edhoc.{EdhocResult, authentication_type_get, bytes_at, get_suite}
use uoscore_uedhoc.Edhoc.CryptoWrapper.{
  aead_decrypt, aead_encrypt, hash, hkdf_expand, hkdf_extract, shared_secret_derive,
}
use uoscore_uedhoc.Edhoc.Decoder.{cbor_decoder, decode_int}
use uoscore_uedhoc.Edhoc.Host.{memcmp_equal, memcpy_checked}
use uoscore_uedhoc.Edhoc.Initiator.Process.{
  Message3, Middle, Start, decrypt_ciphertext_2, make_message_3, process_fields_2,
}
use uoscore_uedhoc.Edhoc.Keys.{a_xae_encode, create_hkdf_info, okm_calc, prk_derive}
use uoscore_uedhoc.Edhoc.Mac.{encode_byte_string, signature_or_mac_msg_create}
use uoscore_uedhoc.Edhoc.Messages.{
  Msg2, c_x_bstr_identifier_encode, decode_field, msg1_encode, msg1_parse, msg2_encode, msg2_parse,
}
use uoscore_uedhoc.Edhoc.Plaintext.{
  id_cred2kid, kid2id_cred, kid_ignoring_error, plaintext_encode, plaintext_split,
}
use uoscore_uedhoc.Edhoc.Responder.Process.{
  Accepted, Initiated, Message2, accept_1, assigned_corr, c_i_in_th2, encrypt_plaintext_2,
  make_message_2, process_ciphertext_3,
}
use uoscore_uedhoc.Edhoc.RetrieveCred.{Credential, retrieve_cred}
use uoscore_uedhoc.Edhoc.Steps.{derive_keys_3, derive_prk_2e, sign_or_mac_of}
use uoscore_uedhoc.Edhoc.Transcript.{
  th2_calculate, th2_input_encode, th3_calculate, th3_input_encode,
}
use uoscore_uedhoc.Memory.{Bytes}
use uoscore_uedhoc.Tests.Toy.{
  toy, toy_accepted, toy_creds_i, toy_creds_r, toy_initiator, toy_msg1, toy_responder,
}

-- A call that returns without error, and its value.
abbrev pub Okay : {A : Type 0} → EdhocResult A → Type 0
Okay (ok a) = Unit {0}
Okay (err e) = ⊥
Okay fault = ⊥

abbrev pub value : {A : Type 0} (r : EdhocResult A) → Okay r → A
value (ok a) o = a
value (err e) o = absurd o
value fault o = absurd o

pub value_lem : {A : Type 0} (r : EdhocResult A) (o : Okay r) → r ≡ ok (value r o)
value_lem (ok a) o = refl
value_lem (err e) o = absurd o
value_lem fault o = absurd o

unfoldable pub hs_msg1 : Bytes
unfolding toy_msg1 toy msg1_encode msg1_parse accept_1 make_message_2 decode_int decode_field
    cbor_decoder get_suite authentication_type_get assigned_corr c_i_in_th2 bytes_at th2_calculate
    th3_calculate th2_input_encode th3_input_encode memcpy_checked hash derive_prk_2e
    shared_secret_derive hkdf_extract prk_derive signature_or_mac_msg_create okm_calc
    create_hkdf_info hkdf_expand aead_encrypt aead_decrypt sign_or_mac_of plaintext_encode
    encode_byte_string kid_ignoring_error id_cred2kid encrypt_plaintext_2 decrypt_ciphertext_2
    msg2_encode msg2_parse process_fields_2 plaintext_split retrieve_cred memcmp_equal
    make_message_3 derive_keys_3 a_xae_encode c_x_bstr_identifier_encode process_ciphertext_3
    kid2id_cred
hs_msg1 = value toy_msg1 tt

unfoldable pub hs_accepted : Accepted
unfolding toy_accepted toy_msg1 toy msg1_encode msg1_parse accept_1 make_message_2 decode_int
    decode_field cbor_decoder get_suite authentication_type_get assigned_corr c_i_in_th2 bytes_at
    th2_calculate th3_calculate th2_input_encode th3_input_encode memcpy_checked hash derive_prk_2e
    shared_secret_derive hkdf_extract prk_derive signature_or_mac_msg_create okm_calc
    create_hkdf_info hkdf_expand aead_encrypt aead_decrypt sign_or_mac_of plaintext_encode
    encode_byte_string kid_ignoring_error id_cred2kid encrypt_plaintext_2 decrypt_ciphertext_2
    msg2_encode msg2_parse process_fields_2 plaintext_split retrieve_cred memcmp_equal
    make_message_3 derive_keys_3 a_xae_encode c_x_bstr_identifier_encode process_ciphertext_3
    kid2id_cred
hs_accepted = value toy_accepted tt

unfoldable pub make_2 : EdhocResult Message2
unfolding hs_msg1 hs_accepted
make_2 = make_message_2 toy toy_responder hs_msg1 hs_accepted

unfoldable pub hs_message_2 : Message2
unfolding make_2 toy msg1_encode msg1_parse accept_1 make_message_2 decode_int decode_field
    cbor_decoder get_suite authentication_type_get assigned_corr c_i_in_th2 bytes_at th2_calculate
    th3_calculate th2_input_encode th3_input_encode memcpy_checked hash derive_prk_2e
    shared_secret_derive hkdf_extract prk_derive signature_or_mac_msg_create okm_calc
    create_hkdf_info hkdf_expand aead_encrypt aead_decrypt sign_or_mac_of plaintext_encode
    encode_byte_string kid_ignoring_error id_cred2kid encrypt_plaintext_2 decrypt_ciphertext_2
    msg2_encode msg2_parse process_fields_2 plaintext_split retrieve_cred memcmp_equal
    make_message_3 derive_keys_3 a_xae_encode c_x_bstr_identifier_encode process_ciphertext_3
    kid2id_cred
hs_message_2 = value make_2 tt

unfoldable pub hs_start : Start
unfolding hs_accepted hs_msg1
hs_start = record {
  suite = hs_accepted.suite;
  authentication = record { static_dh_i = true; static_dh_r = true };
  msg1 = hs_msg1;
}

unfoldable pub parse_2 : EdhocResult Msg2
unfolding hs_message_2
parse_2 = msg2_parse toy 1 hs_message_2.msg2 1 32

unfoldable pub hs_fields : Msg2
unfolding parse_2 toy msg1_encode msg1_parse accept_1 make_message_2 decode_int decode_field
    cbor_decoder get_suite authentication_type_get assigned_corr c_i_in_th2 bytes_at th2_calculate
    th3_calculate th2_input_encode th3_input_encode memcpy_checked hash derive_prk_2e
    shared_secret_derive hkdf_extract prk_derive signature_or_mac_msg_create okm_calc
    create_hkdf_info hkdf_expand aead_encrypt aead_decrypt sign_or_mac_of plaintext_encode
    encode_byte_string kid_ignoring_error id_cred2kid encrypt_plaintext_2 decrypt_ciphertext_2
    msg2_encode msg2_parse process_fields_2 plaintext_split retrieve_cred memcmp_equal
    make_message_3 derive_keys_3 a_xae_encode c_x_bstr_identifier_encode process_ciphertext_3
    kid2id_cred
hs_fields = value parse_2 tt

unfoldable pub process_2 : EdhocResult Middle
unfolding hs_start hs_fields
process_2 = process_fields_2 toy toy_initiator toy_creds_r [] hs_start hs_fields

unfoldable pub hs_middle : Middle
unfolding process_2 toy msg1_encode msg1_parse accept_1 make_message_2 decode_int decode_field
    cbor_decoder get_suite authentication_type_get assigned_corr c_i_in_th2 bytes_at th2_calculate
    th3_calculate th2_input_encode th3_input_encode memcpy_checked hash derive_prk_2e
    shared_secret_derive hkdf_extract prk_derive signature_or_mac_msg_create okm_calc
    create_hkdf_info hkdf_expand aead_encrypt aead_decrypt sign_or_mac_of plaintext_encode
    encode_byte_string kid_ignoring_error id_cred2kid encrypt_plaintext_2 decrypt_ciphertext_2
    msg2_encode msg2_parse process_fields_2 plaintext_split retrieve_cred memcmp_equal
    make_message_3 derive_keys_3 a_xae_encode c_x_bstr_identifier_encode process_ciphertext_3
    kid2id_cred
hs_middle = value process_2 tt

unfoldable pub retrieve_r : EdhocResult Credential
unfolding hs_middle
retrieve_r =
    retrieve_cred toy true toy_creds_r hs_middle.split_plaintext.id_cred_x
      (hs_middle.split_plaintext.id_cred_x_len % 2 ^ 8)

unfoldable pub hs_cred_r : Credential
unfolding retrieve_r toy msg1_encode msg1_parse accept_1 make_message_2 decode_int decode_field
    cbor_decoder get_suite authentication_type_get assigned_corr c_i_in_th2 bytes_at th2_calculate
    th3_calculate th2_input_encode th3_input_encode memcpy_checked hash derive_prk_2e
    shared_secret_derive hkdf_extract prk_derive signature_or_mac_msg_create okm_calc
    create_hkdf_info hkdf_expand aead_encrypt aead_decrypt sign_or_mac_of plaintext_encode
    encode_byte_string kid_ignoring_error id_cred2kid encrypt_plaintext_2 decrypt_ciphertext_2
    msg2_encode msg2_parse process_fields_2 plaintext_split retrieve_cred memcmp_equal
    make_message_3 derive_keys_3 a_xae_encode c_x_bstr_identifier_encode process_ciphertext_3
    kid2id_cred
hs_cred_r = value retrieve_r tt

unfoldable pub make_3 : EdhocResult Message3
unfolding hs_start hs_middle
make_3 = make_message_3 toy toy_initiator (replicate 32 0) hs_start hs_middle

unfoldable pub hs_message_3 : Message3
unfolding make_3 toy msg1_encode msg1_parse accept_1 make_message_2 decode_int decode_field
    cbor_decoder get_suite authentication_type_get assigned_corr c_i_in_th2 bytes_at th2_calculate
    th3_calculate th2_input_encode th3_input_encode memcpy_checked hash derive_prk_2e
    shared_secret_derive hkdf_extract prk_derive signature_or_mac_msg_create okm_calc
    create_hkdf_info hkdf_expand aead_encrypt aead_decrypt sign_or_mac_of plaintext_encode
    encode_byte_string kid_ignoring_error id_cred2kid encrypt_plaintext_2 decrypt_ciphertext_2
    msg2_encode msg2_parse process_fields_2 plaintext_split retrieve_cred memcmp_equal
    make_message_3 derive_keys_3 a_xae_encode c_x_bstr_identifier_encode process_ciphertext_3
    kid2id_cred
hs_message_3 = value make_3 tt

unfoldable pub process_3 : EdhocResult Initiated
unfolding hs_message_3 hs_accepted hs_message_2
process_3 =
    process_ciphertext_3 toy toy_responder toy_creds_i [] (replicate 32 0) hs_accepted hs_message_2
      hs_message_3.ciphertext_3

unfoldable pub hs_initiated : Initiated
unfolding process_3 toy msg1_encode msg1_parse accept_1 make_message_2 decode_int decode_field
    cbor_decoder get_suite authentication_type_get assigned_corr c_i_in_th2 bytes_at th2_calculate
    th3_calculate th2_input_encode th3_input_encode memcpy_checked hash derive_prk_2e
    shared_secret_derive hkdf_extract prk_derive signature_or_mac_msg_create okm_calc
    create_hkdf_info hkdf_expand aead_encrypt aead_decrypt sign_or_mac_of plaintext_encode
    encode_byte_string kid_ignoring_error id_cred2kid encrypt_plaintext_2 decrypt_ciphertext_2
    msg2_encode msg2_parse process_fields_2 plaintext_split retrieve_cred memcmp_equal
    make_message_3 derive_keys_3 a_xae_encode c_x_bstr_identifier_encode process_ciphertext_3
    kid2id_cred
hs_initiated = value process_3 tt

unfoldable pub retrieve_i : EdhocResult Credential
unfolding hs_initiated
retrieve_i =
    retrieve_cred toy true toy_creds_i hs_initiated.split_plaintext.id_cred_x
      (hs_initiated.split_plaintext.id_cred_x_len % 2 ^ 8)

unfoldable pub hs_cred_i : Credential
unfolding retrieve_i toy msg1_encode msg1_parse accept_1 make_message_2 decode_int decode_field
    cbor_decoder get_suite authentication_type_get assigned_corr c_i_in_th2 bytes_at th2_calculate
    th3_calculate th2_input_encode th3_input_encode memcpy_checked hash derive_prk_2e
    shared_secret_derive hkdf_extract prk_derive signature_or_mac_msg_create okm_calc
    create_hkdf_info hkdf_expand aead_encrypt aead_decrypt sign_or_mac_of plaintext_encode
    encode_byte_string kid_ignoring_error id_cred2kid encrypt_plaintext_2 decrypt_ciphertext_2
    msg2_encode msg2_parse process_fields_2 plaintext_split retrieve_cred memcmp_equal
    make_message_3 derive_keys_3 a_xae_encode c_x_bstr_identifier_encode process_ciphertext_3
    kid2id_cred
hs_cred_i = value retrieve_i tt
