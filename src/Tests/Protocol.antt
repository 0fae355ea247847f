-- ===== src/Tests/Protocol.antt =====
-- The theorems on EDHOC at concrete inputs, most of them messages of a handshake on the toy host.
use uoscore_uedhoc.Edhoc.Initiator.Machine.{InitiatorHistory, edhoc_initiator_run-InitiatorHistory}
use uoscore_uedhoc.Edhoc.Responder.Machine.{ResponderHistory, edhoc_responder_run-ResponderHistory}
use uoscore_uedhoc.Edhoc.Initiator.Machine as Initiating
use uoscore_uedhoc.Edhoc.Responder.Machine as Responding
use uoscore_uedhoc.Base.{
  All, Bool, [], ap, arith, cons-injective, err, false, fault, if◌then◌else◌, leb, length,
  length-replicate, none, ok, refl, replicate, some, suc, true, zero, ℕ, ◌%◌, ◌*◌, ◌+◌, ◌↔◌, ◌∷◌,
  ◌≡◌, ◌≢◌,
}
use uoscore_uedhoc.Crypto.Expand.{hkdf}
use uoscore_uedhoc.Edhoc.{
  EdhocResult, OtherPartyCred, authentication_type_get, bytes_at, error_during_hkdf_calculation,
  get_suite, no_such_ca, sha256,
}
use uoscore_uedhoc.Edhoc.Agreement.Second.{process_fields_2-make_message_2}
use uoscore_uedhoc.Edhoc.Agreement.Third.{make_message_3-process_ciphertext_3}
use uoscore_uedhoc.Edhoc.CryptoWrapper.{
  aead_decrypt, aead_encrypt, hash, hkdf_expand, hkdf_extract, shared_secret_derive,
}
use uoscore_uedhoc.Edhoc.CryptoWrapper.Expand.{hkdf_expand-hkdf}
use uoscore_uedhoc.Edhoc.Decoder.{cbor_decoder, decode_int}
use uoscore_uedhoc.Edhoc.Host.{memcmp_equal, memcpy_checked}
use uoscore_uedhoc.Edhoc.Initiator.{edhoc_initiator_run}
use uoscore_uedhoc.Edhoc.Initiator.Process.{
  InitiatorResult, decrypt_ciphertext_2, make_message_3, process_fields_2,
}
use uoscore_uedhoc.Edhoc.Keys.{a_xae_encode, create_hkdf_info, okm_calc, prk_derive}
use uoscore_uedhoc.Edhoc.Mac.{encode_byte_string, signature_or_mac_msg_create}
use uoscore_uedhoc.Edhoc.Messages.{
  c_x_bstr_identifier_encode, decode_field, msg1_encode, msg1_parse, msg2_encode, msg2_parse,
  selected_suite_is_supported,
}
use uoscore_uedhoc.Edhoc.Messages.Suites.{Contains, selected_suite_is_supported-Contains}
use uoscore_uedhoc.Edhoc.Plaintext.{
  id_cred2kid, kid2id_cred, kid_ignoring_error, plaintext_encode, plaintext_split,
}
use uoscore_uedhoc.Edhoc.Responder.{ResponderResult, edhoc_responder_run}
use uoscore_uedhoc.Edhoc.Responder.Process.{
  accept_1, assigned_corr, c_i_in_th2, encrypt_plaintext_2, make_message_2, process_ciphertext_3,
}
use uoscore_uedhoc.Edhoc.RetrieveCred.{find_ca, retrieve_cred}
use uoscore_uedhoc.Edhoc.RetrieveCred.Match.{find_ca_inverted, retrieve_cred_prefix}
use uoscore_uedhoc.Edhoc.Steps.{derive_keys_3, derive_prk_2e, sign_or_mac_of}
use uoscore_uedhoc.Edhoc.Steps.Keystream.{decrypt_ciphertext_2-encrypt_plaintext_2}
use uoscore_uedhoc.Edhoc.Trace.{Ends}
use uoscore_uedhoc.Edhoc.Transcript.{
  th2_calculate, th2_input_encode, th3_calculate, th3_input_encode,
}
use uoscore_uedhoc.Memory.{Bytes, IsByte, null_array}
use uoscore_uedhoc.Tests.Handshake.{
  hs_accepted, hs_cred_i, hs_cred_r, hs_fields, hs_initiated, hs_message_2, hs_message_3, hs_middle,
  hs_msg1, hs_start, make_2, make_3, parse_2, process_2, process_3, retrieve_i, retrieve_r, value,
  value_lem,
}
use uoscore_uedhoc.Tests.Toy.{
  initiator_host, no_events, responder_host, toy, toy_accepted, toy_creds_i, toy_creds_r,
  toy_initiator, toy_msg1, toy_responder,
}

edhoc_initiator_run-InitiatorHistory_example :
    Ends
      (λ (r : InitiatorResult) es.
        InitiatorHistory initiator_host toy_initiator toy_creds_r []
          (replicate 32 0)
          []
          es
          Initiating.finished)
      (Initiating.Somewhere initiator_host toy_initiator toy_creds_r [] (replicate 32 0) [])
      (edhoc_initiator_run initiator_host toy_initiator toy_creds_r []
        (replicate 32 0)
        (replicate 32 0)
        no_events)
edhoc_initiator_run-InitiatorHistory_example =
    edhoc_initiator_run-InitiatorHistory initiator_host toy_initiator toy_creds_r []
      (replicate 32 0) (replicate 32 0) no_events

edhoc_responder_run-ResponderHistory_example :
    Ends
      (λ (r : ResponderResult) es.
        ResponderHistory responder_host toy_responder toy_creds_i [] []
          (replicate 32 0)
          []
          es
          Responding.finished)
      (Responding.Somewhere responder_host toy_responder toy_creds_i [] [] (replicate 32 0) [])
      (edhoc_responder_run responder_host toy_responder toy_creds_i [] []
        (replicate 32 0)
        (replicate 32 0)
        no_events)
edhoc_responder_run-ResponderHistory_example =
    edhoc_responder_run-ResponderHistory responder_host toy_responder toy_creds_i [] []
      (replicate 32 0) (replicate 32 0) no_events

toy_dh : (a b : Bytes) → toy.c25519_smult a b ≡ toy.c25519_smult b a
unfolding toy
toy_dh a b = ap (λ (n : ℕ). replicate 32 (n % 256)) (omega arith)

process_fields_2-make_message_2_example :
    (hs_middle.th2 ≡ hs_message_2.th2) × (hs_middle.prk_3e2m ≡ hs_message_2.prk_3e2m)
unfolding toy_msg1 toy_accepted hs_msg1 hs_accepted hs_message_2 make_2 hs_start hs_fields parse_2
    hs_middle process_2 hs_cred_r retrieve_r make_3 hs_message_3 process_3 hs_initiated retrieve_i
    hs_cred_i toy msg1_encode msg1_parse accept_1 make_message_2 decode_int decode_field
    cbor_decoder get_suite authentication_type_get assigned_corr c_i_in_th2 bytes_at th2_calculate
    th3_calculate th2_input_encode th3_input_encode memcpy_checked hash derive_prk_2e
    shared_secret_derive hkdf_extract prk_derive signature_or_mac_msg_create okm_calc
    create_hkdf_info hkdf_expand aead_encrypt aead_decrypt sign_or_mac_of plaintext_encode
    encode_byte_string kid_ignoring_error id_cred2kid encrypt_plaintext_2 decrypt_ciphertext_2
    msg2_encode msg2_parse process_fields_2 plaintext_split retrieve_cred memcmp_equal
    make_message_3 derive_keys_3 a_xae_encode c_x_bstr_identifier_encode process_ciphertext_3
    kid2id_cred
process_fields_2-make_message_2_example =
    process_fields_2-make_message_2 toy toy.unset toy.rx toy.tx (λ a. a) toy_dh toy_initiator
      toy_responder toy_creds_r [] hs_start hs_fields hs_middle hs_accepted hs_message_2
      (replicate 32 1) (replicate 32 3) (replicate 32 4) (replicate 32 4) hs_cred_r refl refl refl
      refl refl refl refl refl refl refl refl (value_lem retrieve_r tt) refl (λ e. refl)
      (value_lem make_2 tt) (value_lem process_2 tt)

make_message_3-process_ciphertext_3_example :
    (hs_message_3.th3 ≡ hs_initiated.th3) × (hs_message_3.prk_4x3m ≡ hs_initiated.prk_4x3m)
unfolding toy_msg1 toy_accepted hs_msg1 hs_accepted hs_message_2 make_2 hs_start hs_fields parse_2
    hs_middle process_2 hs_cred_r retrieve_r make_3 hs_message_3 process_3 hs_initiated retrieve_i
    hs_cred_i toy msg1_encode msg1_parse accept_1 make_message_2 decode_int decode_field
    cbor_decoder get_suite authentication_type_get assigned_corr c_i_in_th2 bytes_at th2_calculate
    th3_calculate th2_input_encode th3_input_encode memcpy_checked hash derive_prk_2e
    shared_secret_derive hkdf_extract prk_derive signature_or_mac_msg_create okm_calc
    create_hkdf_info hkdf_expand aead_encrypt aead_decrypt sign_or_mac_of plaintext_encode
    encode_byte_string kid_ignoring_error id_cred2kid encrypt_plaintext_2 decrypt_ciphertext_2
    msg2_encode msg2_parse process_fields_2 plaintext_split retrieve_cred memcmp_equal
    make_message_3 derive_keys_3 a_xae_encode c_x_bstr_identifier_encode process_ciphertext_3
    kid2id_cred
make_message_3-process_ciphertext_3_example =
    make_message_3-process_ciphertext_3 toy toy.unset toy.rx toy.tx (λ a. a) toy_dh toy_initiator
      toy_responder toy_creds_i [] (replicate 32 0) hs_message_3.ciphertext_3 hs_start hs_middle
      hs_accepted hs_message_2 hs_message_3 hs_initiated (replicate 32 2) (replicate 32 3)
      (replicate 32 2) hs_cred_i (omega arith) refl refl refl refl refl refl refl refl refl refl
      (omega arith) (value_lem retrieve_i tt) refl (λ e. refl) (value_lem make_3 tt)
      (value_lem process_3 tt)

toy_digest_size : (k m : Bytes) → length (toy.hmac_digest k m) ≡ 32
unfolding toy
toy_digest_size k m = length-replicate 32 ((length k + length m) % 256)

hkdf_expand-hkdf_example : hkdf_expand toy sha256 (replicate 32 34) (5 ∷ []) 40 ≡ (
    if leb 40 (254 * 32)
    then ok (hkdf toy.hmac_digest (replicate 32 0) (1 ∷ 2 ∷ []) (5 ∷ []) 40)
    else (if leb 40 (255 * 32) then fault else err error_during_hkdf_calculation))
unfolding toy hkdf_extract
hkdf_expand-hkdf_example =
    hkdf_expand-hkdf toy toy_digest_size [] (1 ∷ 2 ∷ []) (5 ∷ []) (replicate 32 34) 40 refl
      (omega arith)

All-replicate : (n b : ℕ) → IsByte b → All IsByte (replicate n b)
All-replicate zero b small = tt
All-replicate (suc n) b small = (small, All-replicate n b small)

toy_digest-IsByte : (k m : Bytes) → All IsByte (toy.hmac_digest k m)
unfolding toy
toy_digest-IsByte k m = All-replicate 32 ((length k + length m) % 256) (omega arith)

-- Three bytes under the key stream of the toy host.
unfoldable encrypt_three : EdhocResult Bytes
unfolding hs_accepted
encrypt_three =
    encrypt_plaintext_2 toy hs_accepted.suite (replicate 32 64) (replicate 32 72) (1 ∷ 2 ∷ 3 ∷ [])

unfoldable three : Bytes
unfolding encrypt_three encrypt_plaintext_2 okm_calc create_hkdf_info hkdf_expand toy toy_accepted
    toy_msg1 hs_accepted accept_1 msg1_encode msg1_parse decode_int decode_field cbor_decoder
    get_suite bytes_at
three = value encrypt_three tt

decrypt_ciphertext_2-encrypt_plaintext_2_example :
    (length three ≡ 3)
    × (decrypt_ciphertext_2 toy hs_accepted.suite (replicate 32 64) (replicate 32 72) three
        ≡ ok (1 ∷ 2 ∷ 3 ∷ []))
unfolding encrypt_three three
decrypt_ciphertext_2-encrypt_plaintext_2_example =
    decrypt_ciphertext_2-encrypt_plaintext_2 toy toy_digest-IsByte hs_accepted.suite
      (replicate 32 64) (replicate 32 72) (1 ∷ 2 ∷ 3 ∷ []) three (omega arith)
      (value_lem encrypt_three tt)

selected_suite_is_supported-Contains_example :
    (answer : Bool) × (selected_suite_is_supported 2 toy_responder.suites_r ≡ ok answer)
    × ((answer ≡ true) ↔ Contains 2 (0 ∷ []))
unfolding bytes_at
selected_suite_is_supported-Contains_example =
    selected_suite_is_supported-Contains 2 toy_responder.suites_r (0 ∷ []) refl (omega arith)

-- A CA with the name "CA" and a key of one byte.
abbrev with_ca : OtherPartyCred
with_ca = record {
  id_cred = record { len = 3; ptr = some (5 ∷ 108 ∷ 8 ∷ []) };
  cred = null_array;
  pk = record { len = 1; ptr = some (6 ∷ []) };
  g = null_array;
  ca = record { len = 2; ptr = some (b'C' ∷ b'A' ∷ []) };
  ca_pk = record { len = 1; ptr = some (7 ∷ []) };
}

not_c : ◌≢◌ {A = Bytes} (b'X' ∷ b'Y' ∷ []) (b'C' ∷ b'A' ∷ [])
not_c e = absurd (omega (arith, (cons-injective e).0))

find_ca_inverted_example :
    (find_ca (with_ca ∷ []) (b'C' ∷ b'A' ∷ 1 ∷ []) ≡ err no_such_ca)
    × (find_ca (with_ca ∷ []) (b'X' ∷ b'Y' ∷ 1 ∷ []) ≡ ok with_ca.ca_pk)
unfolding bytes_at
find_ca_inverted_example =
    find_ca_inverted with_ca [] (b'C' ∷ b'A' ∷ []) (1 ∷ []) (b'X' ∷ b'Y' ∷ 1 ∷ []) refl
      (omega arith) not_c

retrieve_cred_prefix_example :
    retrieve_cred toy false (with_ca ∷ []) (5 ∷ 9 ∷ []) 1
    ≡ ok (record {
      credential = with_ca.cred;
      pk_other = with_ca.pk;
      g_other = record { len = 0; ptr = none };
    })
unfolding bytes_at
retrieve_cred_prefix_example =
    retrieve_cred_prefix toy false with_ca [] (5 ∷ []) (108 ∷ 8 ∷ []) (9 ∷ []) refl
