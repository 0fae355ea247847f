-- ===== src/Edhoc/CryptoWrapper.antt =====
-- modules/edhoc/src/crypto_wrapper.c, built with TinyCrypt and compact25519.
--
-- Arrays are passed as the bytes that they hold. Where the code sets an output only for one curve, the old
-- content of the output is an argument. `aead` does not test the room behind `out`, and neither does the
-- model: what it writes from there on is its result.
pub mod Expand
use uoscore_uedhoc.Base.{
  Bool, [], drop, err, fault, if◌then◌else◌, ltb, none, ok, replicate, some, suc, take, zero, ℕ,
  ◌%◌, ◌*◌, ◌++◌, ◌+◌, ◌/◌, ◌^◌, ◌∷◌,
}
use uoscore_uedhoc.Edhoc.{
  EcdhCurve, EdhocResult, HashAlg, SignCurve, aead_authentication_failed, ed25519_sign,
  error_during_aead, error_during_hkdf_calculation, p_256_ecdh, p_256_sign, sha256,
  unsupported_ecdh_curve, x25519,
}
use uoscore_uedhoc.Edhoc.Host.{Host, store}
use uoscore_uedhoc.Memory.{Bytes}

pub record Sealed : Type 0 where
  pub out : Bytes
  pub tag : Bytes

-- `aead` with ENCRYPT: what is written at `out`, and the `tag_len` bytes at `out + out_len`, for which
-- `behind` stands in where nothing is written.
unfoldable pub aead_encrypt :
    Host → Bytes → Bytes → Bytes → Bytes → ℕ → ℕ → Bytes → EdhocResult Sealed
aead_encrypt h input key_bytes nonce aad out_len tag_len behind =
    elim (h.ccm_generation_encryption key_bytes nonce (out_len + tag_len) aad input) [
      | none ↦ err error_during_aead
      | some out ↦ ok (record { out = out; tag = take tag_len (drop out_len (out ++ behind)) })
    ]

-- `aead` with DECRYPT. The tag is the end of the input, and the argument `tag` is not read.
unfoldable pub aead_decrypt : Host → Bytes → Bytes → Bytes → Bytes → ℕ → EdhocResult Bytes
aead_decrypt h input key_bytes nonce aad out_len =
    elim (h.ccm_decryption_verification key_bytes nonce out_len aad input) [
      | none ↦ err aead_authentication_failed
      | some out ↦ ok out
    ]

-- The 64 bytes of the signature go to the start of `out`.
unfoldable pub sign : Host → SignCurve → Bytes → Bytes → Bytes → Bytes → EdhocResult Bytes
sign h p_256_sign sk pk msg out = ok out
sign h ed25519_sign sk pk msg out = store out (h.edsign_sign pk sk msg)

unfoldable pub verify : Host → SignCurve → Bytes → Bytes → Bytes → Bool → EdhocResult Bool
verify h p_256_sign pk msg sgn verified = ok verified
verify h ed25519_sign pk msg sgn verified = ok (h.edsign_verify sgn pk msg)

-- An empty salt is 32 zeroes.
unfoldable pub hkdf_extract : Host → HashAlg → Bytes → Bytes → EdhocResult Bytes
hkdf_extract h sha256 [] ikm = ok (h.hmac_digest (replicate 32 0) ikm)
hkdf_extract h sha256 (s ∷ salt) ikm = ok (h.hmac_digest (s ∷ salt) ikm)

-- The loop `for (uint8_t i = 1; i <= iterations; i++)` with the number of blocks up to the last one. After 255
-- blocks `i` is 0 again, the loop goes on, and the next block would be stored in front of the output.
unfoldable pub expand_rounds :
    Host → Bytes → Bytes → ℕ → ℕ → ℕ → ℕ → Bytes → Bytes → EdhocResult Bytes
expand_rounds h prk info out_len iterations zero i t out =
    if ltb iterations i then ok out else fault
expand_rounds h prk info out_len iterations (suc n) i t out =
    let t' = h.hmac_digest prk ((if ltb 1 i then t else []) ++ (info ++ (i ∷ []))) in
    let part = if ltb out_len (i * 32) then take (out_len % 32) t' else take 32 t' in
    expand_rounds h prk info out_len iterations n ((i + 1) % 256) t' (out ++ part)

unfoldable pub hkdf_expand : Host → HashAlg → Bytes → Bytes → ℕ → EdhocResult Bytes
unfolding expand_rounds
hkdf_expand h sha256 prk info out_len =
    let iterations = (out_len + 31) / 32 % 2 ^ 32 in
    if ltb 255 iterations
    then err error_during_hkdf_calculation
    else expand_rounds h prk info out_len iterations iterations 1 (replicate 32 0) []

unfoldable pub shared_secret_derive : Host → EcdhCurve → Bytes → Bytes → Bytes → EdhocResult Bytes
shared_secret_derive h p_256_ecdh sk pk shared_secret = ok shared_secret
shared_secret_derive h x25519 sk pk shared_secret = ok (h.c25519_smult pk sk)

-- A uint32_t in the memory of a little-endian machine.
abbrev pub word_bytes : ℕ → Bytes
word_bytes v = v % 256 ∷ v / 256 % 256 ∷ v / 65536 % 256 ∷ v / 16777216 % 256 ∷ []

-- The secret and the public key.
unfoldable pub ephemeral_dh_key_gen : Host → EcdhCurve → ℕ → EdhocResult (Bytes × Bytes)
ephemeral_dh_key_gen h p_256_ecdh seed = err unsupported_ecdh_curve
ephemeral_dh_key_gen h x25519 seed =
    ok (h.compact_x25519_keygen (h.sha_256_digest (word_bytes seed)))

unfoldable pub hash : Host → HashAlg → Bytes → EdhocResult Bytes
hash h sha256 input = ok (h.sha_256_digest input)
