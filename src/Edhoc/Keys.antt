-- ===== src/Edhoc/Keys.antt =====
-- The key schedule of EDHOC: modules/edhoc/src/hkdf_info.c, okm.c, prk.c, edhoc_exporter.c and a_Xae_encode.c.
use uoscore_uedhoc.Base.{
  Bool, [], err, false, if◌then◌else◌, length, ltb, ok, take, true, ℕ, ◌%◌, ◌>>=◌, ◌^◌, ◌∷◌,
}
use uoscore_uedhoc.Edhoc.{
  AeadAlg, EdhocResult, HashAlg, Suite, aead_number, error_during_a3ae_encoding, info_default_size,
}
use uoscore_uedhoc.Edhoc.CryptoWrapper.{hkdf_expand, hkdf_extract, shared_secret_derive}
use uoscore_uedhoc.Edhoc.Host.{Host, dh_secret, encode_checked, fresh}
use uoscore_uedhoc.Memory.{Bytes}
use uoscore_uedhoc.Platform.{array, byte_string, close, int, text_string, uint}

-- A length that is passed on in a uint8_t: of an array that is longer only the first bytes are used.
abbrev pub narrow : Bytes → Bytes
narrow bs = take (length bs % 2 ^ 8) bs

unfoldable pub create_hkdf_info : Host → AeadAlg → Bytes → Bytes → ℕ → ℕ → EdhocResult Bytes
create_hkdf_info h aead_alg th label okm_len out_len = encode_checked h out_len (
    array 4
    ∷ int (aead_number aead_alg)
    ∷ byte_string th
    ∷ text_string label
    ∷ uint okm_len
    ∷ close
    ∷ [])

unfoldable pub okm_calc : Host → AeadAlg → HashAlg → Bytes → Bytes → Bytes → ℕ → EdhocResult Bytes
okm_calc h aead_alg hash_alg label prk th okm_len = do
  info ← create_hkdf_info h aead_alg th label okm_len info_default_size
  hkdf_expand h hash_alg prk info okm_len

unfoldable pub prk_derive : Host → Bool → Suite → Bytes → Bytes → Bytes → EdhocResult Bytes
prk_derive h false suite prk_in stat_pk stat_sk = ok prk_in
prk_derive h true suite prk_in stat_pk stat_sk = do
  secret ← shared_secret_derive h suite.edhoc_ecdh_curve stat_sk stat_pk (fresh h dh_secret 32)
  hkdf_extract h suite.edhoc_hash prk_in secret

unfoldable pub edhoc_exporter :
    Host → HashAlg → AeadAlg → Bytes → Bytes → Bytes → ℕ → EdhocResult Bytes
edhoc_exporter h app_hash_alg app_aead_alg prk_4x3m th4 label out_len =
    okm_calc h app_aead_alg app_hash_alg label (narrow prk_4x3m) (narrow th4) out_len

-- "Encrypt0"
abbrev pub encrypt0 : Bytes
encrypt0 = 69 ∷ 110 ∷ 99 ∷ 114 ∷ 121 ∷ 112 ∷ 116 ∷ 48 ∷ []

-- An array of "Encrypt0", no protected header, and the transcript hash. The test after the text has an error
-- code of its own.
unfoldable pub a_xae_encode : Host → Bytes → ℕ → EdhocResult Bytes
a_xae_encode h th_x a_xae_len =
    if ltb a_xae_len (length (h.cbor.encode (array 3 ∷ text_string encrypt0 ∷ [])))
    then err error_during_a3ae_encoding
    else encode_checked h a_xae_len
        (array 3 ∷ text_string encrypt0 ∷ byte_string [] ∷ byte_string th_x ∷ close ∷ [])
