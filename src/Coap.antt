-- ===== src/Coap.antt =====
-- The types and constants of modules/oscore/inc/coap.h.
pub mod Encode
pub mod Parse
pub mod Serialize
pub mod RoundTrip
use uoscore_uedhoc.Base.{ℕ, List, Result}
use uoscore_uedhoc.Memory.{Bytes, Pointer, ByteArray, read}

abbrev pub max_piv_len : ℕ
max_piv_len = 5

abbrev pub max_kid_context_len : ℕ
max_kid_context_len = 8

abbrev pub max_kid_len : ℕ
max_kid_len = 7

abbrev pub max_aad_len : ℕ
max_aad_len = 30

abbrev pub oscore_opt_value_len : ℕ
oscore_opt_value_len = 22

abbrev pub max_option_count : ℕ
max_option_count = 20

-- `CODE_CLASS_MASK`, `POST`, `Changed` and `REQUEST_CLASS`.
abbrev pub code_class_mask : ℕ
code_class_mask = 0b11100000

abbrev pub post : ℕ
post = 0b00000010

abbrev pub changed : ℕ
changed = 0b01000100

abbrev pub request_class : ℕ
request_class = 0

-- `struct o_coap_header`
pub record CoapHeader : Type 0 where
  pub ver : ℕ
  pub type : ℕ
  pub tkl : ℕ
  pub code : ℕ
  pub mid : ℕ

-- `struct o_coap_option`: `delta` and `len` are uint16_t, `option_number` is a uint8_t.
pub record CoapOption : Type 0 where
  pub delta : ℕ
  pub len : ℕ
  pub value : Pointer
  pub option_number : ℕ

-- `struct o_coap_packet`. `options` holds the `options_cnt` options that are set.
pub record CoapPacket : Type 0 where
  pub header : CoapHeader
  pub token : Pointer
  pub options : List CoapOption
  pub payload_len : ℕ
  pub payload : Pointer

-- `struct compressed_oscore_option`
pub record CompressedOscoreOption : Type 0 where
  pub h : ℕ
  pub k : ℕ
  pub n : ℕ
  pub piv : ByteArray
  pub kid_context : ByteArray
  pub kid : ByteArray

-- What an option says, with its value read out of the memory that it points to.
pub record Content : Type 0 where
  pub delta : ℕ
  pub len : ℕ
  pub number : ℕ
  pub value : Result Bytes

abbrev pub content : CoapOption → Content
content o = record {
  delta = o.delta;
  len = o.len;
  number = o.option_number;
  value = read o.value o.len;
}

-- An option with its absolute number in place of the delta.
pub record Field : Type 0 where
  pub number : ℕ
  pub len : ℕ
  pub value : Pointer

abbrev pub field : CoapOption → Field
field o = record { number = o.option_number; len = o.len; value = o.value }
