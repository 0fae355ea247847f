-- ===== src/Edhoc/RetrieveCred.antt =====
-- The credential of the other party: modules/edhoc/src/retrieve_cred.c.
pub mod Match
use uoscore_uedhoc.Base.{
  Bool, List, Option, [], drop, err, false, fault, if◌then◌else◌, leb, length, ltb, none, ok, some,
  take, true, ℕ, ◌%◌, ◌+◌, ◌-◌, ◌==◌, ◌>>=◌, ◌>>◌, ◌^◌, ◌∷◌,
}
use uoscore_uedhoc.Edhoc.{
  EdhocError, EdhocResult, OtherPartyCred, bytes_at, cbor_byte_string_buffer_to_small,
  cert_default_size, certificate_authentication_failed, credential_not_found, ed25519_sign,
  error_during_cbor_decoding, no_such_ca, sgn_or_mac_default_size,
}
use uoscore_uedhoc.Edhoc.CryptoWrapper.{verify}
use uoscore_uedhoc.Edhoc.Decoder.{cbor_decoder, decode_int, word_at}
use uoscore_uedhoc.Edhoc.Host.{
  CborValue, Host, broken, cert_local, fresh, kid_local, malformed, map_label_len_local, map_type,
  map_value, memcmp_equal, signature_local, store,
}
use uoscore_uedhoc.Edhoc.Plaintext.{step_over, x5chain_label}
use uoscore_uedhoc.Memory.{ByteArray, Bytes, Pointer, memory}

-- A pointer `offset` bytes into the certificate. The parser may not be started behind its end.
abbrev at_offset : Bytes → ℕ → EdhocResult Bytes
at_offset cert offset = if leb offset (length cert) then ok (drop offset cert) else fault

-- `cbor_parser_init` at an offset.
abbrev init_at : Host → Bytes → ℕ → EdhocResult Bytes
init_at h cert offset = do
  p ← at_offset cert offset
  elim (h.parse p) [ malformed ↦ err error_during_cbor_decoding | _ ↦ ok p ]

abbrev or_decoding_error {ℓ} : {A : Type ℓ} → Option A → EdhocResult A
or_decoding_error none = err error_during_cbor_decoding
or_decoding_error (some a) = ok a

-- An early return.
abbrev require : Bool → EdhocError → EdhocResult (Unit {0})
require true e = ok tt
require false e = err e

-- `cbor_parser_init` and `cbor_value_calculate_string_length` at an offset.
abbrev string_at : Host → Bytes → ℕ → EdhocResult ℕ
string_at h cert offset = do p ← init_at h cert offset; or_decoding_error (h.string_length p)

-- The loop that looks for the CA. It ends in its first round: `memcmp` is not 0 where the names differ.
unfoldable pub find_ca : List OtherPartyCred → Bytes → EdhocResult ByteArray
find_ca [] issuer = ok (record { len = 0; ptr = none })
find_ca (c ∷ cs) issuer = do
  same ← memcmp_equal c.ca.len (memory c.ca.ptr) issuer
  if same then err no_such_ca else ok c.ca_pk

-- The public key in the certificate, and whether the signature was verified. A root key
-- through NULL is a fault.
pub record VerifiedCert : Type 0 where
  pub cert_pk : Bytes
  pub cert_verified : Bool

-- The key is read from its pointer on, whatever its length is.
abbrev key_at : Pointer → EdhocResult Bytes
key_at none = fault
key_at (some m) = ok m

-- The signature is made with the bytes before it and its header of two bytes.
cert_signature : Host → Bytes → ℕ → ByteArray → EdhocResult Bool
cert_signature h cert offset root_pk = do
  len ← string_at h cert offset
  let signature =
      store (fresh h signature_local sgn_or_mac_default_size) (h.copy_string (drop offset cert) len)
  require (leb len sgn_or_mac_default_size) cbor_byte_string_buffer_to_small
  whole ← signature
  root ← key_at root_pk.ptr
  if ltb (length cert) (2 + len)
      then fault
      else verify h ed25519_sign root (take (length cert - 2 - len) cert) whole false

-- The type and the serial number, which are not used; the offset of the issuer.
cert_issuer : Host → Bytes → EdhocResult ℕ
cert_issuer h cert = do
  p ← init_at h cert 0
  require (h.has_int64 p) error_during_cbor_decoding
  serial_len ← string_at h cert 1
  ok (2 + serial_len)

-- From the first validity on: two numbers of five bytes, the subject, the public key, the extensions.
cert_subject : Host → Bytes → ℕ → ByteArray → EdhocResult VerifiedCert
unfolding cert_signature
cert_subject h cert offset root_pk = do
  init_at h cert offset
  init_at h cert (offset + 5)
  subject_len ← string_at h cert (offset + 10)
  let at_pk = offset + 11 + subject_len
  len ← string_at h cert at_pk
  p ← at_offset cert (at_pk + 2)
  pk ← bytes_at (some p) (len % 2 ^ 16)
  init_at h cert (at_pk + 2 + len)
  verified ← cert_signature h cert (at_pk + 2 + len + 1) root_pk
  ok (record { cert_pk = pk; cert_verified = verified })

unfoldable pub cert_verify : Host → Bytes → List OtherPartyCred → EdhocResult VerifiedCert
unfolding cert_issuer cert_subject
cert_verify h cert cred_array = do
  at_issuer ← cert_issuer h cert
  issuer_len ← string_at h cert at_issuer
  issuer ← at_offset cert (at_issuer + 1)
  root_pk ← find_ca cred_array issuer
  cert_subject h cert (at_issuer + 1 + issuer_len) root_pk

-- What is retrieved. Of `pk` and `g` the one that is not set has length 0.
pub record Credential : Type 0 where
  pub credential : ByteArray
  pub pk_other : ByteArray
  pub g_other : ByteArray

-- The loop over the preestablished credentials; none if there is none of that ID_CRED_x.
unfoldable pub find_cred : List OtherPartyCred → Bytes → ℕ → EdhocResult (Option OtherPartyCred)
find_cred [] id_cred id_cred_len = ok none
find_cred (c ∷ cs) id_cred id_cred_len = do
  let rest = find_cred cs id_cred id_cred_len
  same ← memcmp_equal id_cred_len (memory c.id_cred.ptr) id_cred
  if same then ok (some c) else rest

abbrev pub keys_of : Bool → ByteArray → ByteArray → ByteArray → Credential
keys_of true cred pk g = record { credential = cred; pk_other = record pk { len = 0 }; g_other = g }
keys_of false cred pk g = record {
  credential = cred;
  pk_other = pk;
  g_other = record g { len = 0 };
}

-- The certificate is read in place, two bytes behind the label, though it is decoded into an array too.
cred_of_chain : Host → Bool → List OtherPartyCred → Bytes → ℕ → Bytes → EdhocResult Credential
cred_of_chain h static_dh_auth cred_array id_cred at_chain rest = do
  d ← cbor_decoder h rest cert_default_size
  store (fresh h cert_local cert_default_size) d.written
  cert ← bytes_at (some (drop (at_chain + 2) id_cred)) (d.len % 2 ^ 16)
  v ← cert_verify h cert cred_array
  let in_place : ByteArray = record { len = length cert; ptr = some cert }
  let from_cert : ByteArray = record { len = length v.cert_pk; ptr = some v.cert_pk }
  if v.cert_verified
      then ok (keys_of static_dh_auth in_place from_cert from_cert)
      else err certificate_authentication_failed

-- The error of this decoding is not looked at, and the pointer is then one that was never set.
abbrev set_or_fault {ℓ} : {A : Type ℓ} → EdhocResult A → EdhocResult A
set_or_fault fault = fault
set_or_fault (err e) = fault
set_or_fault (ok a) = ok a

cred_of_map : Host → Bool → List OtherPartyCred → Bytes → ℕ → EdhocResult Credential
unfolding cred_of_chain
cred_of_map h static_dh_auth cred_array id_cred id_cred_len = do
  at_label ← step_over (take id_cred_len id_cred)
  label ←
      set_or_fault
        (decode_int h (fresh h kid_local 4) at_label (word_at (fresh h map_label_len_local 8)))
  let chain =
      cred_of_chain h static_dh_auth cred_array id_cred (id_cred_len - length label.int_rest)
        label.int_rest
  if label.value == x5chain_label then chain else err credential_not_found

abbrev by_type : CborValue → EdhocResult Credential → EdhocResult Credential
by_type malformed from_map = err error_during_cbor_decoding
by_type (broken map_type) from_map = from_map
by_type (map_value n) from_map = from_map
by_type _ from_map = err credential_not_found

-- `id_cred` is the array and `id_cred_len` a uint8_t.
unfoldable pub retrieve_cred :
    Host → Bool → List OtherPartyCred → Bytes → ℕ → EdhocResult Credential
unfolding cred_of_map find_cred
retrieve_cred h static_dh_auth cred_array id_cred id_cred_len = do
  found ← find_cred cred_array id_cred id_cred_len
  let from_map = cred_of_map h static_dh_auth cred_array id_cred id_cred_len
  elim found [
    | none ↦ by_type (h.parse (take id_cred_len id_cred)) from_map
    | some c ↦ ok (keys_of static_dh_auth c.cred c.pk c.g)
  ]
