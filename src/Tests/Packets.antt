-- ===== src/Tests/Packets.antt =====
-- The theorems on packets, options and buffers at concrete inputs.
use uoscore_uedhoc.Base.{
  List, [], arith, dest_buffer_to_small, err, fault, if◌then◌else◌, leb, length, ltb, map, none,
  not, ok, refl, replicate, some, true, ◌&&◌, ◌++◌, ◌+◌, ◌==◌, ◌>>=◌, ◌||◌, ◌∷◌, ◌≡◌,
}
use uoscore_uedhoc.Coap.{CoapOption, CoapPacket, content, field, post}
use uoscore_uedhoc.Coap.Encode.{options_into_byte_string}
use uoscore_uedhoc.Coap.Encode.Render.{IsEncodable, render}
use uoscore_uedhoc.Coap.Parse.{buf2coap}
use uoscore_uedhoc.Coap.Parse.Options.{IsNumbered}
use uoscore_uedhoc.Coap.RoundTrip.{buf2coap-coap2buf}
use uoscore_uedhoc.Coap.RoundTrip.Parts.{packet_content}
use uoscore_uedhoc.Coap.Serialize.{coap2buf}
use uoscore_uedhoc.Coap.Serialize.Bounds.{coap2buf_lem}
use uoscore_uedhoc.Coap.Serialize.Standard.{coap2buf-standard_message, standard_message}
use uoscore_uedhoc.Coap.Serialize.Wire.{wire}
use uoscore_uedhoc.Memory.{ByteArray, read}
use uoscore_uedhoc.OptionClass.{is_class_e}
use uoscore_uedhoc.Protect.Extract.{e_u_options_extract}
use uoscore_uedhoc.Protect.Extract.Length.{e_options_len-render, plaintext_setup_thirteen}
use uoscore_uedhoc.Protect.Extract.Split.{e_u_options_extract-fields, fields, keep}
use uoscore_uedhoc.Protect.Packet.{OscoreOption, oscore_pkg_generate}
use uoscore_uedhoc.Protect.Packet.Order.{insert_field, oscore_field, oscore_pkg_generate_lem}
use uoscore_uedhoc.Protect.Plaintext.{plaintext_length, plaintext_setup}
use uoscore_uedhoc.Tests.Data.{
  accept, accept-IsEncodable, get_packet, get_packet-IsReadable, get_packet-IsWritable,
  length-render-get_packet, length-wire-get_packet, render-NoMarker, uri_path, uri_path-IsEncodable,
}
use uoscore_uedhoc.Unprotect.Payload.{oscore_decrypted_payload_parser, oscore_packet_options_parser}
use uoscore_uedhoc.Unprotect.Payload.RoundTrip.{
  oscore_decrypted_payload_parser-plaintext_setup, oscore_decrypted_payload_parser_overrun,
  oscore_packet_options_parser-options_into_byte_string,
}

path_is_class_e : is_class_e 11 ≡ true
unfolding is_class_e
path_is_class_e = refl

accept_is_class_e : is_class_e 17 ≡ true
unfolding is_class_e
accept_is_class_e = refl

buf2coap-coap2buf_example :
    (q : CoapPacket) × ((coap2buf get_packet 32 >>= λ out.
    buf2coap (record { len = out.0; ptr = some (out.1 ++ (0 ∷ [])) }))
      ≡ ok q)
    × (packet_content q ≡ packet_content get_packet)
buf2coap-coap2buf_example =
    buf2coap-coap2buf get_packet 32 0 [] get_packet-IsReadable
      (omega (arith, length-wire-get_packet)) (omega arith)

coap2buf-standard_message_example :
    coap2buf get_packet 32 ≡ ok (length (standard_message get_packet), standard_message get_packet)
unfolding standard_message
coap2buf-standard_message_example =
    coap2buf-standard_message get_packet 32 get_packet-IsWritable
      (omega arith, omega arith, (omega arith, omega arith, tt)) (omega arith) (omega arith)

-- An array that ends in the payload.
coap2buf_lem_example : coap2buf get_packet 11 ≡ (
    if leb (length (wire get_packet)) 11
    then ok (length (wire get_packet), wire get_packet)
    else (if ltb 11 4 || (11 == 5 + length (render get_packet.options) && ltb 0 2)
        then fault
        else err dest_buffer_to_small))
coap2buf_lem_example = coap2buf_lem get_packet 11 get_packet-IsWritable (omega arith)

abbrev two_options : List CoapOption
two_options = uri_path ∷ accept ∷ []

oscore_packet_options_parser-options_into_byte_string_example :
    (os' : List CoapOption) × ((options_into_byte_string two_options 16 >>= λ out.
    oscore_packet_options_parser (out.1.bytes ++ []) out.0 10)
      ≡ ok os')
    × (map content os' ≡ map content two_options)
oscore_packet_options_parser-options_into_byte_string_example =
    oscore_packet_options_parser-options_into_byte_string two_options 16 10 []
      (uri_path-IsEncodable, (accept-IsEncodable, tt)) (refl, (refl, tt)) (omega arith)
      (omega (arith, length-render-get_packet)) (omega (arith, length-render-get_packet))
      (omega arith)

oscore_decrypted_payload_parser-plaintext_setup_example :
    (es' : List CoapOption) × (payload : ByteArray) × ((plaintext_setup get_packet two_options
          (plaintext_length get_packet (length (render two_options)))
        >>= λ b. oscore_decrypted_payload_parser (record { len = b.size; ptr = some b.bytes }))
      ≡ ok (1, es', payload))
    × (map content es' ≡ map content two_options)
    × (payload.len ≡ 2)
    × (read payload.ptr payload.len ≡ ok (1 ∷ 2 ∷ []))
unfolding read
oscore_decrypted_payload_parser-plaintext_setup_example =
    oscore_decrypted_payload_parser-plaintext_setup get_packet two_options
      (uri_path-IsEncodable, (accept-IsEncodable, tt)) (refl, (refl, tt)) (omega arith)
      (omega arith) render-NoMarker (omega arith) (omega arith) (omega arith)

-- The request without its payload.
abbrev no_payload_packet : CoapPacket
no_payload_packet = record get_packet { payload_len = 0; payload = none }

oscore_decrypted_payload_parser_overrun_example :
    (plaintext_setup no_payload_packet two_options
        (plaintext_length no_payload_packet (length (render two_options)))
      >>= λ b. oscore_decrypted_payload_parser (record { len = b.size; ptr = some b.bytes }))
    ≡ fault
oscore_decrypted_payload_parser_overrun_example =
    oscore_decrypted_payload_parser_overrun no_payload_packet two_options
      (uri_path-IsEncodable, (accept-IsEncodable, tt)) (omega arith) render-NoMarker refl
      (omega arith)

e_u_options_extract-fields_example :
    (map field (e_u_options_extract get_packet).e_options ≡ keep is_class_e (fields 0 two_options))
    × (map field (e_u_options_extract get_packet).u_options
        ≡ keep (λ n. not (is_class_e n)) (fields 0 two_options))
    × IsNumbered 0 (e_u_options_extract get_packet).e_options
    × IsNumbered 0 (e_u_options_extract get_packet).u_options
e_u_options_extract-fields_example = e_u_options_extract-fields get_packet (omega arith)

e_options_len-render_example :
    (e_u_options_extract get_packet).e_options_len
    ≡ length (render (e_u_options_extract get_packet).e_options)
e_options_len-render_example = e_options_len-render get_packet (omega arith) (omega arith) (
  path_is_class_e,
  omega arith,
  omega arith,
  uri_path-IsEncodable,
  (accept_is_class_e, omega arith, omega arith, accept-IsEncodable, tt),
)

-- A path segment of 13 bytes.
abbrev long_path : CoapOption
long_path = record { delta = 11; len = 13; value = some (replicate 13 97); option_number = 11 }

long_path-IsEncodable : IsEncodable long_path
long_path-IsEncodable = record {
  delta_fits = omega arith;
  len_fits = omega arith;
  value_there = omega arith;
}

abbrev long_packet : CoapPacket
long_packet = record get_packet { options = long_path ∷ [] }

plaintext_setup_thirteen_example :
    plaintext_setup long_packet
      (e_u_options_extract long_packet).e_options
      (plaintext_length long_packet (e_u_options_extract long_packet).e_options_len)
    ≡ err dest_buffer_to_small
plaintext_setup_thirteen_example =
    plaintext_setup_thirteen long_packet long_path refl (path_is_class_e) (omega arith) refl
      long_path-IsEncodable (omega arith)

-- Uri-Host and Uri-Port are not protected.
abbrev host_and_port : List CoapOption
host_and_port =
    record { delta = 3; len = 1; value = some (97 ∷ []); option_number = 3 }
    ∷ record { delta = 4; len = 1; value = some (98 ∷ []); option_number = 7 }
    ∷ []

abbrev oscore_option : OscoreOption
oscore_option = record { len = 2; value = some (9 ∷ 20 ∷ []) }

oscore_pkg_generate_lem_example :
    (out : CoapPacket) × (oscore_pkg_generate get_packet host_and_port 10
        (some (replicate 10 0))
        oscore_option
      ≡ ok out)
    × (map field out.options ≡ insert_field (oscore_field oscore_option) (map field host_and_port))
    × IsNumbered 0 out.options
    × (out.header ≡ record get_packet.header { code = post })
    × (out.payload ≡ some (replicate 10 0))
    × (out.payload_len ≡ 10)
    × (out.token ≡ some (0xAB ∷ []))
oscore_pkg_generate_lem_example =
    oscore_pkg_generate_lem get_packet host_and_port 10 (some (replicate 10 0)) oscore_option
      (omega arith) (omega arith) (omega arith, omega arith, (omega arith, omega arith, tt))
