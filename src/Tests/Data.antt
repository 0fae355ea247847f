-- ===== src/Tests/Data.antt =====
-- A CoAP request, options and a security context to run the code on.
use uoscore_uedhoc.Base.{[], arith, length, none, ok, refl, replicate, some, true, ◌∷◌, ◌≡◌}
use uoscore_uedhoc.Coap.{CoapOption, CoapPacket}
use uoscore_uedhoc.Coap.Encode.Render.{IsEncodable, extension, nibble, option_prefix, render}
use uoscore_uedhoc.Coap.RoundTrip.Parts.{IsReadable, NoMarker}
use uoscore_uedhoc.Coap.Serialize.Wire.{IsWritable, header_wire, payload_wire, wire}
use uoscore_uedhoc.Context.{Context, sha_256}
use uoscore_uedhoc.Memory.{ByteArray, Bytes, read}
use uoscore_uedhoc.Platform.{Cbor, TinyCrypt}

abbrev pub uri_path : CoapOption
uri_path = record { delta = 11; len = 3; value = some (116 ∷ 118 ∷ 49 ∷ []); option_number = 11 }

abbrev pub accept : CoapOption
accept = record { delta = 6; len = 0; value = none; option_number = 17 }

abbrev pub get_packet : CoapPacket
get_packet = record {
  header = record { ver = 1; type = 0; tkl = 1; code = 1; mid = 0x1234 };
  token = some (0xAB ∷ []);
  options = uri_path ∷ accept ∷ [];
  payload_len = 2;
  payload = some (1 ∷ 2 ∷ []);
}

pub uri_path-IsEncodable : IsEncodable uri_path
uri_path-IsEncodable = record {
  delta_fits = omega arith;
  len_fits = omega arith;
  value_there = omega arith;
}

pub accept-IsEncodable : IsEncodable accept
accept-IsEncodable = record {
  delta_fits = omega arith;
  len_fits = omega arith;
  value_there = omega arith;
}

pub get_packet-IsWritable : IsWritable get_packet
get_packet-IsWritable = record {
  ver_lt = omega arith;
  type_lt = omega arith;
  tkl_lt = omega arith;
  mid_lt = omega arith;
  token_there = omega arith;
  options = (uri_path-IsEncodable, (accept-IsEncodable, tt));
  options_fit = omega arith;
  payload_there = omega arith;
}

pub length-wire-get_packet : length (wire get_packet) ≡ 13
unfolding wire header_wire render option_prefix nibble extension payload_wire
length-wire-get_packet = refl

pub length-render-get_packet : length (render get_packet.options) ≡ 5
unfolding render option_prefix nibble extension
length-render-get_packet = refl

pub render-NoMarker : NoMarker (render get_packet.options)
unfolding render option_prefix nibble extension
render-NoMarker = (omega arith, (omega arith, (omega arith, (omega arith, (omega arith, tt)))))

pub get_packet-IsReadable : IsReadable get_packet
get_packet-IsReadable = record {
  writable = get_packet-IsWritable;
  tkl_le = omega arith;
  numbered = (refl, (refl, tt));
  short = (omega arith, (omega arith, tt));
  few = omega arith;
  no_marker = render-NoMarker;
  fits = omega (arith, length-wire-get_packet);
}

-- The Common IV counts from 1 to 13.
abbrev pub iv_bytes : Bytes
iv_bytes = 1 ∷ 2 ∷ 3 ∷ 4 ∷ 5 ∷ 6 ∷ 7 ∷ 8 ∷ 9 ∷ 10 ∷ 11 ∷ 12 ∷ 13 ∷ []

abbrev pub array_of : Bytes → ByteArray
array_of bs = record { len = length bs; ptr = some bs }

abbrev pub short_context : Context
short_context = record {
  rrc = record {
    nonce = array_of (replicate 13 0);
    aad = array_of (replicate 30 0);
    piv = array_of (replicate 5 0);
    kid_context = array_of (replicate 8 0);
    kid = array_of (7 ∷ []);
  };
  cc = record {
    aead_alg = 10;
    kdf = sha_256;
    master_secret = array_of (replicate 16 1);
    master_salt = array_of (replicate 8 2);
    id_context = array_of [];
    common_iv = array_of iv_bytes;
  };
  sc = record {
    sender_id = array_of (7 ∷ []);
    sender_key = array_of (replicate 16 3);
    sender_seq_num = 20;
  };
  rc = record { recipient_id = array_of (8 ∷ []); recipient_key = array_of (replicate 16 4) };
}

-- An encoder that writes one zero for each item.
abbrev pub zeroes_cbor : Cbor
zeroes_cbor = record {
  encode = λ items. replicate (length items) 0;
  overflow = λ n items. replicate n 0;
}

-- Primitives that accept every nonce, encrypt into zeroes, and let no ciphertext through.
abbrev pub closed_crypt : TinyCrypt
closed_crypt = record {
  hmac = λ k m. some (replicate 32 0);
  ccm_config = λ n. true;
  ccm_encrypt = λ k nonce n external input. some (replicate n 0);
  ccm_decrypt = λ k nonce n external input. none;
}

abbrev pub id_bytes : Bytes
id_bytes = 7 ∷ 8 ∷ []

abbrev pub context_bytes : Bytes
context_bytes = 0x37 ∷ 0xCB ∷ 0xF3 ∷ []

pub one_piv : read (array_of (20 ∷ [])).ptr 1 ≡ ok (20 ∷ [])
unfolding read
one_piv = refl

pub three_context : read (array_of context_bytes).ptr 3 ≡ ok context_bytes
unfolding read
three_context = refl
