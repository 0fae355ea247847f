-- ===== src/Context/Aad.antt =====
-- modules/oscore/src/aad.c: the additional authenticated data.
use uoscore_uedhoc.Base.{
  ==_refl, List, Result, [], arith, length, ok, ℕ, ◌%◌, ◌++◌, ◌<◌, ◌>>=◌, ◌^◌, ◌∷◌, ◌≡◌,
}
use uoscore_uedhoc.Coap.{CoapOption}
use uoscore_uedhoc.Memory.{ByteArray, Bytes, read}
use uoscore_uedhoc.OptionClass.{class_i, encode_options, encoded_option_len}
use uoscore_uedhoc.OptionClass.ClassI.{class_i_empty}
use uoscore_uedhoc.Platform.{Cbor, CborItem, array, byte_string, close, encode_into, int, uint}

-- The array of the class I options is as long as `encoded_option_len` says, and its length is passed on in a
-- uint8_t.
unfoldable pub aad_length : Cbor → List CoapOption → ℕ → ByteArray → ByteArray → Result ℕ
aad_length cbor options aead_alg kid piv = do
  kid_bytes ← read kid.ptr kid.len
  piv_bytes ← read piv.ptr piv.len
  encoded_opt_i_len ← encoded_option_len options class_i
  opts_i ← encode_options options class_i encoded_opt_i_len (encoded_opt_i_len % 256)
  let items =
      array 5
      ∷ uint 1
      ∷ array 1
      ∷ int aead_alg
      ∷ close
      ∷ byte_string kid_bytes
      ∷ byte_string piv_bytes
      ∷ byte_string opts_i
      ∷ close
      ∷ []
  ok (length (cbor.encode items) % 2 ^ 32)

-- The content of the `out_len` bytes at `out->ptr`.
unfoldable pub create_aad : Cbor → List CoapOption → ℕ → ByteArray → ByteArray → ℕ → Result Bytes
create_aad cbor options aead_alg kid piv out_len = do
  kid_bytes ← read kid.ptr kid.len
  piv_bytes ← read piv.ptr piv.len
  encoded_opt_i_len ← encoded_option_len options class_i
  opts_i ← encode_options options class_i encoded_opt_i_len (encoded_opt_i_len % 256)
  let items =
      array 5
      ∷ uint 1
      ∷ array 1
      ∷ int aead_alg
      ∷ close
      ∷ byte_string kid_bytes
      ∷ byte_string piv_bytes
      ∷ byte_string opts_i
      ∷ close
      ∷ []
  ok (encode_into cbor out_len items)

-- The array `external_aad` of RFC 8613, section 5.4: the version, the array of the algorithm, the KID and the
-- Partial IV of the request, and the class I options.
unfoldable pub external_aad : ℕ → Bytes → Bytes → Bytes → List CborItem
external_aad aead_alg request_kid request_piv options =
    let algorithms = array 1 ∷ int aead_alg ∷ close ∷ [] in
    let request = byte_string request_kid ∷ byte_string request_piv ∷ [] in
    array 5 ∷ uint 1 ∷ (algorithms ++ (request ++ (byte_string options ∷ close ∷ [])))

-- Whatever options a packet has, none of them is of class I, and an array of the length that `aad_length`
-- gives is filled by `create_aad` with the encoding of the external_aad of RFC 8613 for the version 1, the
-- algorithm, the KID, the PIV and no options, if that is shorter than 2^32 bytes.
pub create_aad-aad_length :
    (cbor : Cbor) (options : List CoapOption) (aead_alg : ℕ) (kid piv : ByteArray)
    (kid_bytes piv_bytes : Bytes)
    → read kid.ptr kid.len ≡ ok kid_bytes
    → read piv.ptr piv.len ≡ ok piv_bytes
    → length (cbor.encode (external_aad aead_alg kid_bytes piv_bytes [])) < 2 ^ 32
    → (aad_length cbor options aead_alg kid piv >>= create_aad cbor options aead_alg kid piv)
      ≡ ok (cbor.encode (external_aad aead_alg kid_bytes piv_bytes []))
unfolding aad_length create_aad external_aad
create_aad-aad_length cbor options aead_alg kid piv kid_bytes piv_bytes hk hp short =
    let all = cbor.encode (external_aad aead_alg kid_bytes piv_bytes []) in
    let n : length all % 2 ^ 32 ≡ length all = omega arith in
    let none_there = class_i_empty options 0 0 in
    rw (
      hk,
      hp,
      none_there.0,
      none_there.1,
      n,
      hk,
      hp,
      none_there.0,
      none_there.1,
      ==_refl (length all),
    )
