-- ===== src/Edhoc/Messages.antt =====
-- The three messages: their encoders and parsers in modules/edhoc/src/initiator.c and
-- modules/edhoc/src/responder.c.
pub mod Suites
pub mod Fields
pub mod RoundTrip
pub mod Second
pub mod Uncorrelated
use uoscore_uedhoc.Base.{
  Bool, List, [], drop, err, false, fault, if◌then◌else◌, leb, length, ltb, min, ok, suc, true,
  zero, ℕ, ◌%◌, ◌*◌, ◌++◌, ◌+◌, ◌-◌, ◌==◌, ◌>>=◌, ◌>>◌, ◌^◌, ◌||◌, ◌∷◌,
}
use uoscore_uedhoc.Edhoc.{
  EdhocInitiatorContext, EdhocResult, bytes_at, c_i_default_size, c_r_default_size,
  c_r_length_to_small, cbor_encoding_error, ciphertext_default_size, contents,
  error_message_received, g_x_default_size,
}
use uoscore_uedhoc.Edhoc.Decoder.{cbor_decoder, decode_int, word_at}
use uoscore_uedhoc.Edhoc.Host.{
  CborType, Host, bstr_identifier, byte_string_type, c_i_local, c_r_local, ciphertext_local,
  encode_checked, fresh, g_x_local, g_y_local, identifier_item, int_local, integer_type,
  map_label_len_local, map_type, other_type, prefix, store, suites_i_local, text_string_type,
}
use uoscore_uedhoc.Edhoc.Keys.{narrow}
use uoscore_uedhoc.Memory.{ByteArray, Bytes, memory}
use uoscore_uedhoc.Platform.{CborItem, array, byte_string, close, int}
use uoscore_uedhoc.Protect.Extract.Split.{fields}

-- A message in its array, and the length that is reported.
pub record Message : Type 0 where
  pub msg : Bytes
  pub msg_len : ℕ

abbrev pub encode_or_error : Host → ℕ → List CborItem → EdhocResult Bytes
encode_or_error h size items =
    if leb (length (h.cbor.encode items)) size
    then ok (h.cbor.encode items)
    else err cbor_encoding_error

abbrev pub int_items : Bytes → List CborItem → List CborItem
int_items [] rest = rest
int_items (s ∷ ss) rest = int s ∷ int_items ss rest

abbrev pub suites_items : Bytes → List CborItem → List CborItem
suites_items [] rest = array 0 ∷ close ∷ rest
suites_items (s ∷ []) rest = int s ∷ rest
suites_items (s ∷ t ∷ ss) rest = array (length (s ∷ t ∷ ss)) ∷ int_items (s ∷ t ∷ ss) (close ∷ rest)

-- AD_1 behind the other fields. The length of what was encoded is then counted twice.
abbrev with_ad_1 : Host → Bytes → Bytes → Bytes → EdhocResult Message
with_ad_1 h old front [] =
    ok (record { msg = front ++ drop (length front) old; msg_len = length front })
with_ad_1 h old front (a ∷ ad_1) = do
  tail ← encode_or_error h (length old - length front) (byte_string (a ∷ ad_1) ∷ [])
  whole ← store old (front ++ tail)
  ok (record { msg = whole; msg_len = length front + length (front ++ tail) })

unfoldable pub msg1_encode : Host → EdhocInitiatorContext → Bytes → EdhocResult Message
msg1_encode h c old = do
  suites ← contents c.suites_i
  g_x ← contents c.g_x
  c_i ← contents c.c_i
  ad_1 ← contents c.ad_1
  front ← encode_or_error h (length old) (
      int (4 * c.method_type + c.corr)
      ∷ suites_items suites (byte_string g_x ∷ bstr_identifier c_i ∷ []))
  with_ad_1 h old front ad_1

-- What `msg1_parse` gives: arrays, and the lengths beside them.
pub record Msg1 : Type 0 where
  pub method_corr : ℕ
  pub suites_i : Bytes
  pub suites_i_len : ℕ
  pub g_x : Bytes
  pub g_x_len : ℕ
  pub c_i : Bytes
  pub c_i_len : ℕ
  pub ad_1 : Bytes
  pub ad_1_len : ℕ

-- One call of `cbor_decoder` into an array, of which the capacity is the size.
pub record Field : Type 0 where
  pub bytes_f : Bytes
  pub len_f : ℕ
  pub type_f : CborType
  pub rest_f : Bytes

unfoldable pub decode_field : Host → Bytes → Bytes → EdhocResult Field
unfolding cbor_decoder
decode_field h old input = do
  d ← cbor_decoder h input (length old)
  bs ← store old d.written
  ok (record { bytes_f = bs; len_f = d.len; type_f = d.type; rest_f = d.rest })

-- C_I is decoded once more where its length is 1, into an `int`, to which 24 is added.
pub parse_c_i : Host → Bytes → EdhocResult Field
parse_c_i h input = do
  first ← decode_field h (fresh h c_i_local c_i_default_size) input
  if first.len_f == 1
      then (do
        t ← decode_int h (fresh h int_local 4) input 4
        ok (record first {
          bytes_f = (t.value + 24) % 2 ^ 8 ∷ drop 1 first.bytes_f;
          rest_f = t.int_rest;
        }))
      else ok first

-- Where there is no AD_1, its length is left as it was.
pub parse_ad_1 : Host → Bytes → Bytes → EdhocResult Field
parse_ad_1 h [] ad_1 =
    ok (record { bytes_f = ad_1; len_f = length ad_1; type_f = byte_string_type; rest_f = [] })
parse_ad_1 h (b ∷ rest) ad_1 = decode_field h ad_1 (b ∷ rest)

unfoldable pub msg1_parse : Host → Bytes → Bytes → EdhocResult Msg1
unfolding parse_c_i parse_ad_1
msg1_parse h msg1 ad_1 = do
  tmp ← decode_int h (fresh h int_local 4) msg1 (word_at (fresh h map_label_len_local 8))
  suites ← decode_field h (fresh h suites_i_local 5) tmp.int_rest
  g_x ← decode_field h (fresh h g_x_local g_x_default_size) suites.rest_f
  c_i ← parse_c_i h g_x.rest_f
  ad ← parse_ad_1 h c_i.rest_f ad_1
  ok (record {
    method_corr = tmp.value % 2 ^ 8;
    suites_i = suites.bytes_f;
    suites_i_len = suites.len_f;
    g_x = g_x.bytes_f;
    g_x_len = g_x.len_f;
    c_i = c_i.bytes_f;
    c_i_len = c_i.len_f;
    ad_1 = ad.bytes_f;
    ad_1_len = ad.len_f;
  })

-- The loop over the supported suites, with the number of rounds left. For more than 255 suites its 8-bit
-- counter never gets to the end: a search that finds nothing then does not return, which is a fault here.
pub suite_loop : ℕ → ℕ → Bytes → Bool → EdhocResult Bool
suite_loop selected zero suites endless = if endless then fault else ok false
suite_loop selected (suc n) [] endless = fault
suite_loop selected (suc n) (s ∷ suites) endless =
    let rest = suite_loop selected n suites endless in if s == selected then ok true else rest

unfoldable pub selected_suite_is_supported : ℕ → ByteArray → EdhocResult Bool
unfolding suite_loop
selected_suite_is_supported selected suites_r =
    suite_loop selected (min suites_r.len 256) (memory suites_r.ptr) (ltb 255 suites_r.len)

-- C_I in front, unless CORR says that the transport correlates message 2. A C_R of another length than one
-- is encoded with the length of C_I. The lengths come in a uint8_t.
unfoldable pub msg2_encode : Host → ℕ → Bytes → Bytes → ByteArray → Bytes → ℕ → EdhocResult Bytes
msg2_encode h corr c_i g_y c_r ciphertext_2 msg2_len = do
  c_r_bytes ← bytes_at c_r.ptr (if c_r.len % 2 ^ 8 == 1 then 1 else length (narrow c_i))
  let c_r_item = if c_r.len % 2 ^ 8 == 1 then bstr_identifier c_r_bytes else byte_string c_r_bytes
  let fields = byte_string (narrow g_y) ∷ c_r_item ∷ byte_string ciphertext_2 ∷ []
  encode_checked h msg2_len
      (if corr == 1 || corr == 3 then fields else bstr_identifier (narrow c_i) ∷ fields)

-- What `msg2_parse` gives. `c_i` is empty where the message has none.
pub record Msg2 : Type 0 where
  pub c_i_2 : Bytes
  pub g_y_2 : Bytes
  pub c_r_2 : Bytes
  pub ciphertext_2 : Bytes

pub parse_c_i_2 : Host → Bool → Bytes → Bytes → EdhocResult Field
parse_c_i_2 h true old input =
    ok (record { bytes_f = old; len_f = 0; type_f = byte_string_type; rest_f = input })
parse_c_i_2 h false old input = decode_field h old input

-- C_R of the length 1 is decoded into an `int`, to which 24 is added.
pub parse_c_r : Host → Bytes → Bytes → EdhocResult Field
parse_c_r h old input = if ltb 1 (length old) then decode_field h old input else (do
  t ← decode_int h (fresh h int_local 4) input (length old)
  bs ← store old ((t.value + 24) % 2 ^ 8 ∷ [])
  if ltb 1 t.int_len
      then err c_r_length_to_small
      else ok
          (record { bytes_f = bs; len_f = t.int_len; type_f = integer_type; rest_f = t.int_rest }))

abbrev pub text_is_error : CborType → EdhocResult (Unit {0})
text_is_error text_string_type = err error_message_received
text_is_error integer_type = ok tt
text_is_error byte_string_type = ok tt
text_is_error map_type = ok tt
text_is_error other_type = ok tt

-- `c_i_size` and `g_y_size` are the sizes of the arrays for C_I and G_Y.
unfoldable pub msg2_parse : Host → ℕ → Bytes → ℕ → ℕ → EdhocResult Msg2
unfolding parse_c_i_2 parse_c_r
msg2_parse h corr msg2 c_i_size g_y_size = do
  c_i ← parse_c_i_2 h (corr == 1 || corr == 3) (fresh h c_i_local c_i_size) msg2
  g_y ← decode_field h (fresh h g_y_local g_y_size) c_i.rest_f
  text_is_error g_y.type_f
  c_r ← parse_c_r h (fresh h c_r_local c_r_default_size) g_y.rest_f
  ciphertext ← decode_field h (fresh h ciphertext_local ciphertext_default_size) c_r.rest_f
  c_i_bytes ← prefix c_i.len_f c_i.bytes_f
  c_r_bytes ← prefix c_r.len_f c_r.bytes_f
  ciphertext_bytes ← prefix ciphertext.len_f ciphertext.bytes_f
  ok (record {
    c_i_2 = c_i_bytes;
    g_y_2 = g_y.bytes_f;
    c_r_2 = c_r_bytes;
    ciphertext_2 = ciphertext_bytes;
  })

-- The byte behind which message 3 stands, for a C_R of one byte.
unfoldable pub c_x_bstr_identifier_encode : Host → ℕ → EdhocResult Bytes
c_x_bstr_identifier_encode h c_x = encode_checked h 1 (identifier_item c_x ∷ [])

-- C_R is checked for nothing but its form. What it is gets lost, and so the rest of the message is given.
parse_c_r_3 : Host → Bool → ℕ → Bytes → EdhocResult Bytes
parse_c_r_3 h true c_r_size input = ok input
parse_c_r_3 h false c_r_size input =
    if c_r_size == 1
    then (do t ← decode_int h (fresh h int_local 4) input 1; ok t.int_rest)
    else (do f ← decode_field h (fresh h c_r_local c_r_size) input; ok f.rest_f)

-- The ciphertext of message 3.
unfoldable pub msg3_parse : Host → ℕ → Bytes → ℕ → EdhocResult Bytes
unfolding parse_c_r_3
msg3_parse h corr msg3 c_r_size = do
  rest ← parse_c_r_3 h (corr == 2 || corr == 3) c_r_size msg3
  ciphertext ← decode_field h (fresh h ciphertext_local ciphertext_default_size) rest
  text_is_error ciphertext.type_f
  prefix ciphertext.len_f ciphertext.bytes_f
