-- ===== src/Edhoc/Plaintext.antt =====
-- The plaintexts of the messages 2 and 3: modules/edhoc/src/plaintext.c.
use uoscore_uedhoc.Base.{
  [], drop, err, fault, if◌then◌else◌, leb, length, ltb, ok, take, ℕ, ◌%◌, ◌++◌, ◌+◌, ◌-◌, ◌==◌,
  ◌>>=◌, ◌>>◌, ◌^◌, ◌∷◌,
}
use uoscore_uedhoc.Edhoc.{
  EdhocResult, error_during_cbor_decoding, id_cred_default_size, kid_default_size, sha_default_size,
  unknown_id_cred_map_label,
}
use uoscore_uedhoc.Edhoc.Decoder.{Decoded, cbor_decoder, decode_int, word_at}
use uoscore_uedhoc.Edhoc.Host.{
  CborType, CborValue, Host, broken, byte_string_type, byte_string_value, encode_checked, fresh,
  hash_val_local, identifier_item, integer_type, integer_value, kid_buf_local, kid_local, malformed,
  map_label_len_local, map_type, map_value, memcpy_checked, other_type, other_value, store,
  text_string_type, text_string_value,
}
use uoscore_uedhoc.Edhoc.Keys.{narrow}
use uoscore_uedhoc.Edhoc.Mac.{encode_byte_string}
use uoscore_uedhoc.Memory.{Bytes}
use uoscore_uedhoc.Platform.{byte_string, close, int, pairs}

-- The labels of an ID_CRED map.
abbrev pub kid_label : ℕ
kid_label = 4

abbrev pub x5bag_label : ℕ
x5bag_label = 32

abbrev pub x5chain_label : ℕ
x5chain_label = 33

abbrev pub x5t_label : ℕ
x5t_label = 34

abbrev pub x5u_label : ℕ
x5u_label = 35

unfoldable pub kid2id_cred : Host → Bytes → ℕ → EdhocResult Bytes
kid2id_cred h kid id_cred_x_len =
    encode_checked h id_cred_x_len (pairs 1 ∷ int kid_label ∷ byte_string kid ∷ close ∷ [])

-- The array of ID_CRED_x, its length, and what is left of the plaintext.
pub record IdCred : Type 0 where
  pub array_x : Bytes
  pub len_x : ℕ
  pub after_id : Bytes

-- One byte on.
abbrev pub step_over : Bytes → EdhocResult Bytes
step_over [] = fault
step_over (b ∷ bs) = ok bs

-- `next_temp_ptr` after a call whose error is not looked at: it stays where it was.
abbrev next_or_stay : EdhocResult Decoded → Bytes → EdhocResult Bytes
next_or_stay fault here = fault
next_or_stay (err e) here = ok here
next_or_stay (ok d) here = ok d.rest

-- The part of the plaintext before `rest`, copied to the start of an array.
abbrev front_of : Bytes → Bytes → Bytes
front_of ptxt rest = take (length ptxt - length rest) ptxt

split_x5chain : Host → Bytes → Bytes → Bytes → EdhocResult IdCred
split_x5chain h old ptxt at_chain = do
  rest ← next_or_stay (cbor_decoder h at_chain (length old)) at_chain
  front ← memcpy_checked (length old) (front_of ptxt rest)
  x ← store old front
  ok (record { array_x = x; len_x = length front; after_id = rest })

-- The outcome of the copy is not looked at.
abbrev copy_if_room : Bytes → Bytes → Bytes
copy_if_room old front =
    if ltb (length old) (length front) then old else front ++ drop (length front) old

split_x5t : Host → Bytes → Bytes → Bytes → EdhocResult IdCred
split_x5t h old ptxt at_array = do
  at_alg ← step_over at_array
  alg_id ← decode_int h (fresh h kid_local 4) at_alg (word_at (fresh h map_label_len_local 8))
  hash_val ← cbor_decoder h alg_id.int_rest sha_default_size
  store (fresh h hash_val_local sha_default_size) hash_val.written
  ok (record {
    array_x = copy_if_room old (front_of ptxt hash_val.rest);
    len_x = length (front_of ptxt hash_val.rest);
    after_id = hash_val.rest;
  })

-- The labels kid, x5bag and x5u leave ID_CRED_x as it was.
split_label : Host → ℕ → Bytes → Bytes → Bytes → EdhocResult IdCred
unfolding split_x5chain split_x5t
split_label h label old ptxt rest =
    let untouched = ok (record { array_x = old; len_x = length old; after_id = rest }) in
    if label == kid_label
    then untouched
    else (if label == x5bag_label
        then untouched
        else (if label == x5chain_label
            then split_x5chain h old ptxt rest
            else (if label == x5t_label
                then split_x5t h old ptxt rest
                else (if label == x5u_label then untouched else err unknown_id_cred_map_label))))

split_map : Host → Bytes → Bytes → EdhocResult IdCred
unfolding split_label
split_map h old ptxt = do
  at_label ← step_over ptxt
  label ← decode_int h (fresh h kid_local 4) at_label (word_at (fresh h map_label_len_local 8))
  split_label h label.value old ptxt label.int_rest

abbrev as_id_cred : Bytes → Bytes → EdhocResult Bytes → EdhocResult IdCred
as_id_cred old rest enc = do
  bs ← enc
  x ← store old bs
  ok (record { array_x = x; len_x = length bs; after_id = rest })

-- A KID that is a number, a little-endian `int` of which the first byte is taken.
split_kid_int : Host → Bytes → Bytes → EdhocResult IdCred
split_kid_int h old ptxt = do
  kid ← decode_int h (fresh h kid_local 4) ptxt 4
  as_id_cred old kid.int_rest (kid2id_cred h ((kid.value + 24) % 2 ^ 8 ∷ []) (length old))

-- Of any other KID the first byte is taken too.
split_kid_string : Host → Bytes → Bytes → EdhocResult IdCred
split_kid_string h old ptxt = do
  d ← cbor_decoder h ptxt id_cred_default_size
  kid ← store (fresh h kid_local id_cred_default_size) d.written
  as_id_cred old d.rest (kid2id_cred h (take 1 kid) (length old))

abbrev split_other : Host → CborType → Bytes → Bytes → EdhocResult IdCred
split_other h map_type old ptxt = split_map h old ptxt
split_other h integer_type old ptxt = split_kid_int h old ptxt
split_other h byte_string_type old ptxt = split_kid_string h old ptxt
split_other h text_string_type old ptxt = split_kid_string h old ptxt
split_other h other_type old ptxt = split_kid_string h old ptxt

split_id_cred : Host → CborValue → Bytes → Bytes → EdhocResult IdCred
unfolding split_map split_kid_int split_kid_string
split_id_cred h malformed old ptxt = err error_during_cbor_decoding
split_id_cred h (broken type) old ptxt = split_other h type old ptxt
split_id_cred h (integer_value v offset) old ptxt = split_kid_int h old ptxt
split_id_cred h (byte_string_value s offset) old ptxt = split_kid_string h old ptxt
split_id_cred h (text_string_value s offset) old ptxt = split_kid_string h old ptxt
split_id_cred h (map_value n) old ptxt = split_map h old ptxt
split_id_cred h other_value old ptxt = split_kid_string h old ptxt

-- The arrays of ID_CRED_x, of the signature or MAC and of the additional data, with their lengths.
pub record SplitPlaintext : Type 0 where
  pub id_cred_x : Bytes
  pub id_cred_x_len : ℕ
  pub sign_or_mac : Bytes
  pub sign_or_mac_len : ℕ
  pub ad : Bytes
  pub ad_len : ℕ

pub record ReceivedAd : Type 0 where
  pub ad_bytes : Bytes
  pub ad_bytes_len : ℕ

split_ad : Host → Bytes → Bytes → EdhocResult ReceivedAd
split_ad h [] ad = ok (record { ad_bytes = ad; ad_bytes_len = 0 })
split_ad h (b ∷ rest) ad = do
  d ← cbor_decoder h (b ∷ rest) (length ad)
  ad' ← store ad d.written
  ok (record { ad_bytes = ad'; ad_bytes_len = d.len })

-- `id_cred`, `sgn` and `ad` are the arrays before the call, of which the lengths are the capacities.
unfoldable pub plaintext_split : Host → Bytes → Bytes → Bytes → Bytes → EdhocResult SplitPlaintext
unfolding split_id_cred split_ad
plaintext_split h ptxt id_cred sgn ad = do
  x ← split_id_cred h (h.parse ptxt) id_cred ptxt
  d ← cbor_decoder h x.after_id (length sgn)
  sgn' ← store sgn d.written
  received_ad ← split_ad h d.rest ad
  ok (record {
    id_cred_x = x.array_x;
    id_cred_x_len = x.len_x;
    sign_or_mac = sgn';
    sign_or_mac_len = d.len;
    ad = received_ad.ad_bytes;
    ad_len = received_ad.ad_bytes_len;
  })

pub record Kid : Type 0 where
  pub kid_buf : Bytes
  pub kid_len : ℕ

abbrev first_byte : Bytes → EdhocResult ℕ
first_byte [] = fault
first_byte (b ∷ bs) = ok b

-- A KID of another length than one leaves the array and its length as they were.
kid_from : Host → Bytes → Bytes → EdhocResult Kid
kid_from h at_kid buf = do
  d ← cbor_decoder h at_kid kid_default_size
  kid_str ← store (fresh h kid_local kid_default_size) d.written
  first ← first_byte kid_str
  let encoded = encode_checked h (length buf) (identifier_item first ∷ [])
  if d.len == 1
      then (do bs ← encoded; buf' ← store buf bs; ok (record { kid_buf = buf'; kid_len = 1 }))
      else ok (record { kid_buf = buf; kid_len = length buf })

kid_of_map : Host → Bytes → Bytes → EdhocResult Kid
unfolding kid_from
kid_of_map h id_cred buf = do
  at_label ← step_over id_cred
  label ← decode_int h (fresh h kid_local 4) at_label (word_at (fresh h map_label_len_local 8))
  if label.value == kid_label
      then kid_from h label.int_rest buf
      else ok (record { kid_buf = buf; kid_len = 0 })

unfoldable pub id_cred2kid : Host → Bytes → Bytes → EdhocResult Kid
unfolding kid_of_map
id_cred2kid h id_cred buf = elim (h.parse id_cred) [
  | malformed ↦ err error_during_cbor_decoding
  | _ ↦ kid_of_map h id_cred buf
]

-- Both callers of `id_cred2kid` ignore its error, and go on with the array as it was.
unfoldable pub kid_ignoring_error : Bytes → EdhocResult Kid → EdhocResult Kid
kid_ignoring_error buf fault = fault
kid_ignoring_error buf (err e) = ok (record { kid_buf = buf; kid_len = length buf })
kid_ignoring_error buf (ok k) = ok k

abbrev pub kid_or_unset : Host → Bytes → EdhocResult Kid
kid_or_unset h id_cred =
    let buf = fresh h kid_buf_local kid_default_size in
    kid_ignoring_error buf (id_cred2kid h id_cred buf)

-- The KID if there is one, the whole ID_CRED_x otherwise.
abbrev pub kid_or_id_cred : Kid → Bytes → Bytes
kid_or_id_cred k id_cred = if k.kid_len == 0 then id_cred else take k.kid_len k.kid_buf

-- `plaintext_len` is the size of the array, a uint16_t. The room for the additional data is computed in an
-- int, so it wraps in the uint64_t that is tested; what does not fit the array is a fault.
unfoldable pub plaintext_encode : Host → Bytes → Bytes → Bytes → ℕ → EdhocResult Bytes
plaintext_encode h id_cred sgn_or_mac ad plaintext_len = do
  k ← kid_or_unset h (narrow id_cred)
  front ← memcpy_checked plaintext_len (kid_or_id_cred k (narrow id_cred))
  enc ← encode_byte_string h sgn_or_mac (length (narrow sgn_or_mac) + 2)
  let used = length front + length enc
  tail ← memcpy_checked ((plaintext_len + 2 ^ 64 - used) % 2 ^ 64) (take (length ad % 2 ^ 16) ad)
  let plaintext = front ++ (enc ++ tail)
  if leb (length plaintext) plaintext_len then ok plaintext else fault
