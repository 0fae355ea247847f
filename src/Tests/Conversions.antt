-- ===== src/Tests/Conversions.antt =====
-- The theorems on the conversions at concrete packets.
use uoscore_uedhoc.Base.{
  [], arith, authentication_error, drop, err, none, ok, refl, replicate, some, ℕ, ◌∷◌, ◌≡◌,
}
use uoscore_uedhoc.Coap.{CoapPacket, CompressedOscoreOption}
use uoscore_uedhoc.Coap.Encode.{options_into_byte_string}
use uoscore_uedhoc.Coap.Parse.{
  buf2coap, buf2options, buf2options_header, option_header_parse, options_end, options_parse_loop,
  read_extension, read_header, read_options, read_token,
}
use uoscore_uedhoc.Coap.Serialize.{option_bytes, put_payload, worst_length}
use uoscore_uedhoc.Memory.{Bytes, Pointer, memcpy_s, null_array, put, read}
use uoscore_uedhoc.OptionClass.{is_class_e}
use uoscore_uedhoc.Protect.Convert.{Scratch, coap2oscore, prepare}
use uoscore_uedhoc.Protect.Convert.Counts.{coap2oscore-request-lasting, counted_on, lasting}
use uoscore_uedhoc.Protect.Extract.{counted_extra_bytes, e_u_options_extract, extract_loop}
use uoscore_uedhoc.Protect.Plaintext.{plaintext_length, plaintext_setup}
use uoscore_uedhoc.Tests.Data.{array_of, closed_crypt, short_context, zeroes_cbor}
use uoscore_uedhoc.Tests.Handshake.{value}
use uoscore_uedhoc.Unprotect.Convert.{Found, oscore2coap, oscore_received}
use uoscore_uedhoc.Unprotect.Convert.Guards.{oscore2coap_forged}
use uoscore_uedhoc.Unprotect.OptionValue.{
  option_parser_loop, oscore_option_parser, parse_kid_context, parse_piv, parse_value,
}

-- The request of the tests and its answer 2.05 with the same options, on the wire.
abbrev request_bytes : Bytes
request_bytes = 0x51 ∷ 1 ∷ 0x12 ∷ 0x34 ∷ 0xAB ∷ 0xB3 ∷ 116 ∷ 118 ∷ 49 ∷ 0x60 ∷ 0xFF ∷ 1 ∷ 2 ∷ []

abbrev response_bytes : Bytes
response_bytes = 0x51 ∷ 0x45 ∷ 0x12 ∷ 0x34 ∷ 0xAB ∷ 0xB3 ∷ 116 ∷ 118 ∷ 49 ∷ 0x60 ∷ 0xFF ∷ 1 ∷ 2 ∷ []

abbrev parsed_from : ℕ → Bytes → CoapPacket
parsed_from code bytes = record {
  header = record { ver = 1; type = 1; tkl = 1; code = code; mid = 0x1234 };
  token = some (drop 4 bytes);
  options =
      record { delta = 11; len = 3; value = some (drop 6 bytes); option_number = 11 }
      ∷ record { delta = 6; len = 0; value = none; option_number = 17 }
      ∷ [];
  payload_len = 2;
  payload = some (drop 11 bytes);
}

abbrev message_of : ℕ → Bytes
message_of code = code ∷ 0xB3 ∷ 116 ∷ 118 ∷ 49 ∷ 0x60 ∷ 0xFF ∷ 1 ∷ 2 ∷ []

abbrev scratch : Scratch
scratch = record { plaintext_bytes = replicate 9 0; option_buf = replicate 22 0 }

request_parsed : buf2coap (array_of request_bytes) ≡ ok (parsed_from 1 request_bytes)
unfolding buf2coap read_header read_token read_options options_end buf2options options_parse_loop
    buf2options_header option_header_parse read_extension
request_parsed = refl

response_parsed : buf2coap (array_of response_bytes) ≡ ok (parsed_from 0x45 response_bytes)
unfolding buf2coap read_header read_token read_options options_end buf2options options_parse_loop
    buf2options_header option_header_parse read_extension
response_parsed = refl

request_prepared :
    prepare scratch (array_of request_bytes) ≡ ok (parsed_from 1 request_bytes, [], message_of 1)
unfolding prepare e_u_options_extract extract_loop is_class_e counted_extra_bytes plaintext_length
    plaintext_setup put option_bytes options_into_byte_string worst_length memcpy_s read put_payload
request_prepared = rw request_parsed refl

coap2oscore-request-lasting_example :
    lasting
      (coap2oscore zeroes_cbor closed_crypt scratch (array_of request_bytes) 64 short_context).1
    ≡ lasting (counted_on short_context)
coap2oscore-request-lasting_example =
    coap2oscore-request-lasting zeroes_cbor closed_crypt scratch (array_of request_bytes) 64
      short_context (parsed_from 1 request_bytes) [] (message_of 1) request_prepared refl

abbrev no_option : CompressedOscoreOption
no_option = record {
  h = 0;
  k = 0;
  n = 0;
  piv = null_array;
  kid_context = null_array;
  kid = null_array;
}

abbrev found : Found
found = record { oscore_option = no_option; u_behind = []; e_behind = [] }

-- OSCORE packets with a ciphertext of 9 bytes: a request with the Partial IV 20 and the KID 9, and a response.
abbrev protected_request : Bytes
protected_request =
    0x50 ∷ 2 ∷ 0x12 ∷ 0x34 ∷ 0x93 ∷ 9 ∷ 20 ∷ 9 ∷ 0xFF ∷ 1 ∷ 2 ∷ 3 ∷ 4 ∷ 5 ∷ 6 ∷ 7 ∷ 8 ∷ 9 ∷ []

abbrev protected_response : Bytes
protected_response =
    0x50 ∷ 0x44 ∷ 0x12 ∷ 0x34 ∷ 0x90 ∷ 0xFF ∷ 1 ∷ 2 ∷ 3 ∷ 4 ∷ 5 ∷ 6 ∷ 7 ∷ 8 ∷ 9 ∷ []

abbrev oscore_packet : ℕ → ℕ → Pointer → Bytes → CoapPacket
oscore_packet code len value payload = record {
  header = record { ver = 1; type = 1; tkl = 0; code = code; mid = 0x1234 };
  token = none;
  options = record { delta = 9; len = len; value = value; option_number = 9 } ∷ [];
  payload_len = 9;
  payload = some payload;
}

abbrev kid_option : CompressedOscoreOption
kid_option = record {
  h = 0;
  k = 1;
  n = 1;
  piv = record { len = 1; ptr = some (drop 6 protected_request) };
  kid_context = null_array;
  kid = record { len = 1; ptr = some (drop 7 protected_request) };
}

oscore_received-protected_request :
    oscore_received no_option (array_of protected_request)
    ≡ ok (
        some (
          oscore_packet 2 3 (some (drop 5 protected_request)) (drop 9 protected_request),
          kid_option,
        ))
unfolding oscore_received buf2coap read_header read_token read_options options_end buf2options
    options_parse_loop buf2options_header option_header_parse read_extension oscore_option_parser
    option_parser_loop parse_value parse_piv parse_kid_context
oscore_received-protected_request = refl

oscore_received-protected_response :
    oscore_received no_option (array_of protected_response)
    ≡ ok (some (oscore_packet 0x44 0 none (drop 6 protected_response), no_option))
unfolding oscore_received buf2coap read_header read_token read_options options_end buf2options
    options_parse_loop buf2options_header option_header_parse read_extension oscore_option_parser
    option_parser_loop parse_value parse_piv parse_kid_context
oscore_received-protected_response = refl

nine_bytes : read (some (drop 6 protected_response)) 9 ≡ ok (drop 6 protected_response)
unfolding read
nine_bytes = refl

nonce_bytes : read (some (replicate 13 0)) 13 ≡ ok (replicate 13 0)
unfolding read
nonce_bytes = refl

aad_bytes : read (some (replicate 30 0)) 30 ≡ ok (replicate 30 0)
unfolding read
aad_bytes = refl

key_bytes : read (some (replicate 16 4)) 16 ≡ ok (replicate 16 4)
unfolding read
key_bytes = refl

oscore2coap_forged_example :
    oscore2coap zeroes_cbor closed_crypt found (array_of protected_response) 64 short_context
    ≡ (err authentication_error, short_context)
oscore2coap_forged_example =
    oscore2coap_forged zeroes_cbor closed_crypt found (array_of protected_response) 64 short_context
      (oscore_packet 0x44 0 none (drop 6 protected_response)) no_option (drop 6 protected_response)
      (replicate 13 0) (replicate 30 0) (replicate 16 4) oscore_received-protected_response refl
      (omega arith) nine_bytes nonce_bytes aad_bytes key_bytes refl (λ n external. refl)
