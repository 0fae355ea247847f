-- ===== src/Crypto.antt =====
-- modules/oscore/src/crypto_wrapper.c, built with TinyCrypt, and modules/oscore/src/oscore_cose.c.
-- The arrays are passed as the bytes that they hold.
pub mod Expand
use uoscore_uedhoc.Base.{
  Bool, List, Option, Result, [], authentication_error, err, false, fault, if◌then◌else◌, length,
  ltb, none, ok, out_too_long, replicate, some, suc, take, tiny_crypt_error, true, zero, ℕ, ◌%◌,
  ◌*◌, ◌++◌, ◌+◌, ◌/◌, ◌==◌, ◌>>=◌, ◌^◌, ◌∷◌,
}
use uoscore_uedhoc.Context.Aad.{external_aad}
use uoscore_uedhoc.Memory.{ByteArray, Bytes, Pointer, read}
use uoscore_uedhoc.Platform.{
  Cbor, CborItem, TinyCrypt, array, byte_string, close, encode_into, text_string,
}

-- `try_tc`
abbrev pub try_tc {ℓ} : {A : Type ℓ} → Option A → Result A
try_tc none = err tiny_crypt_error
try_tc (some a) = ok a

pub data AesOperation : Type 0 where
  encrypt decrypt : AesOperation

unfoldable pub authenticated : Option Bytes → Result Bytes
authenticated none = err authentication_error
authenticated (some out) = ok out

-- The result is the content of `out`, which is `out_len` bytes long.
unfoldable pub run_ccm : TinyCrypt → AesOperation → Bytes → ℕ → Bytes → Bytes → Bytes → Result Bytes
run_ccm tc encrypt input out_len key_bytes nonce aad =
    try_tc (tc.ccm_encrypt key_bytes nonce out_len aad input)
run_ccm tc decrypt input out_len key_bytes nonce aad =
    authenticated (tc.ccm_decrypt key_bytes nonce out_len aad input)

unfoldable pub aes_ccm_16_64_128 :
    TinyCrypt → AesOperation → Bytes → ℕ → Bytes → Bytes → Bytes → Result Bytes
aes_ccm_16_64_128 tc op input out_len key_bytes nonce aad =
    let out = run_ccm tc op input out_len key_bytes nonce aad in
    if tc.ccm_config (length nonce) then out else err tiny_crypt_error

-- The block number `i`: over the info and the number, and from the second block on also the block before.
unfoldable pub expand_block : TinyCrypt → Bytes → Bytes → ℕ → Bytes → Result Bytes
expand_block tc prk info i t =
    try_tc (tc.hmac prk ((if ltb 1 i then t else []) ++ (info ++ (i ∷ []))))

-- The part of a block that is copied to `out`. For `i` = 0 the copy would go in front of the array.
unfoldable pub block_part : ℕ → ℕ → Bytes → Result Bytes
block_part out_len i t =
    if i == 0
    then fault
    else (if ltb out_len (i * 32) then ok (take (out_len % 32) t) else ok (take 32 t))

abbrev pub after : Result Bytes → (Bytes → Option (Result Bytes)) → Option (Result Bytes)
after (ok t) k = k t
after (err e) k = some (err e)
after fault k = some fault

-- The loop `for (uint8_t i = 1; i <= iterations; i++)`, in which `i` wraps after 255. None if the fuel runs
-- out.
unfoldable pub expand_loop :
    TinyCrypt → Bytes → Bytes → ℕ → ℕ → ℕ → ℕ → Bytes → Bytes → Option (Result Bytes)
expand_loop tc prk info out_len iterations zero i t out = none
expand_loop tc prk info out_len iterations (suc fuel) i t out =
    let next = λ (t' part : Bytes).
      expand_loop tc prk info out_len iterations fuel ((i + 1) % 256) t' (out ++ part) in
    if ltb iterations i
    then some (ok out)
    else after (expand_block tc prk info i t) (λ t'. after (block_part out_len i t') (next t'))

abbrev pub salt_size : ℕ
salt_size = 32

abbrev pub is_null : Pointer → Bool
is_null none = true
is_null (some m) = false

-- A missing salt is 32 zeroes.
unfoldable pub hkdf_salt : ByteArray → Result Bytes
hkdf_salt master_salt =
    if master_salt.len == 0
    then ok (replicate salt_size 0)
    else (if is_null master_salt.ptr
        then ok (replicate salt_size 0)
        else read master_salt.ptr master_salt.len)

-- `out` is `out_len` bytes long. The loop is given 257 rounds, as `i` takes 256 values.
unfoldable pub hkdf_sha_256 : TinyCrypt → Bytes → ByteArray → Bytes → ℕ → Option (Result Bytes)
hkdf_sha_256 tc master_secret master_salt info out_len =
    after (do salt ← hkdf_salt master_salt; try_tc (tc.hmac salt master_secret))
      λ prk.
        let iterations = (out_len + 31) % 2 ^ 32 / 32 in
        let blocks = expand_loop tc prk info out_len iterations 257 1 (replicate 32 0) [] in
        if ltb 255 iterations then some (err out_too_long) else blocks

-- `create_enc_structure`: an array of "Encrypt0", no protected header, and the external AAD.
abbrev pub enc_structure : Bytes → List CborItem
enc_structure external_aad =
    array 3
    ∷ text_string (69 ∷ 110 ∷ 99 ∷ 114 ∷ 121 ∷ 112 ∷ 116 ∷ 48 ∷ [])
    ∷ byte_string []
    ∷ byte_string external_aad
    ∷ close
    ∷ []

unfoldable pub enc_structure_length : Cbor → Bytes → ℕ
enc_structure_length cbor external_aad = length (cbor.encode (enc_structure external_aad))

unfoldable pub create_enc_structure : Cbor → Bytes → ℕ → Bytes
create_enc_structure cbor external_aad out_len =
    encode_into cbor out_len (enc_structure external_aad)

unfoldable pub cose_decrypt : Cbor → TinyCrypt → Bytes → ℕ → Bytes → Bytes → Bytes → Result Bytes
cose_decrypt cbor tc in_ciphertext out_len nonce recipient_aad key_bytes =
    let aad = create_enc_structure cbor recipient_aad (enc_structure_length cbor recipient_aad) in
    aes_ccm_16_64_128 tc decrypt in_ciphertext out_len key_bytes nonce aad

unfoldable pub cose_encrypt : Cbor → TinyCrypt → Bytes → ℕ → Bytes → Bytes → Bytes → Result Bytes
cose_encrypt cbor tc in_plaintext out_len nonce sender_aad key_bytes =
    let aad = create_enc_structure cbor sender_aad (enc_structure_length cbor sender_aad) in
    aes_ccm_16_64_128 tc encrypt in_plaintext out_len key_bytes nonce aad
