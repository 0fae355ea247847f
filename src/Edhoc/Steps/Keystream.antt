-- ===== src/Edhoc/Steps/Keystream.antt =====
-- The encryption of message 2 by XOR with the key stream, in modules/edhoc/src/responder.c and
-- modules/edhoc/src/initiator.c.
use uoscore_uedhoc.Base.{
  All, All-append, Bool-cases, Ensures, Ensures-bind, Ensures-ok, [], arith, bind-eq-ok,
  if◌then◌else◌, inl, inr, length, ltb, ok, ok-injective, refl, replicate, suc, take, zero, ℕ, ◌%◌,
  ◌*◌, ◌++◌, ◌+◌, ◌/◌, ◌^◌, ◌∷◌, ◌≡◌,
}
use uoscore_uedhoc.Edhoc.{AeadAlg, HashAlg, Suite, info_default_size, sha256}
use uoscore_uedhoc.Edhoc.CryptoWrapper.{expand_rounds, hkdf_expand}
use uoscore_uedhoc.Edhoc.Host.{Host}
use uoscore_uedhoc.Edhoc.Initiator.Process.{decrypt_ciphertext_2, p_2e_loop}
use uoscore_uedhoc.Edhoc.Keys.{create_hkdf_info, okm_calc}
use uoscore_uedhoc.Edhoc.Responder.Process.{ciphertext_2_loop, encrypt_plaintext_2}
use uoscore_uedhoc.Edhoc.Steps.{label_keystream_2}
use uoscore_uedhoc.Memory.{Bytes, IsByte}
use uoscore_uedhoc.Nonce.Unique.{xor_twice}

p_2e_loop-ciphertext_2_loop :
    (xs ks out : Bytes)
    → All IsByte xs
    → All IsByte ks
    → ciphertext_2_loop xs ks ≡ ok out
    → (length out ≡ length xs) × (p_2e_loop out ks ≡ ok xs)
unfolding ciphertext_2_loop p_2e_loop
p_2e_loop-ciphertext_2_loop [] ks out bx bk e = rw (← ok-injective e) (refl, refl)
p_2e_loop-ciphertext_2_loop (x ∷ xs) [] out bx bk e = cc
p_2e_loop-ciphertext_2_loop (x ∷ xs) (k ∷ ks) out bx bk e =
    let (rest, inner, joined) = bind-eq-ok (ciphertext_2_loop xs ks) _ e in
    let (len, back) = p_2e_loop-ciphertext_2_loop xs ks rest bx.1 bk.1 inner in
    rw (← ok-injective joined) (omega (arith, len), rw (back, xor_twice x k bx.0 bk.0) refl)

All-take : (n : ℕ) (xs : Bytes) → All IsByte xs → All IsByte (take n xs)
All-take zero xs b = tt
All-take (suc n) [] b = tt
All-take (suc n) (x ∷ xs) b = (b.0, All-take n xs b.1)

module _ (h : Host) (digest : (k m : Bytes) → All IsByte (h.hmac_digest k m)) where
  expand_rounds-IsByte :
      (prk info : Bytes) (out_len iterations n i : ℕ) (t out : Bytes)
      → All IsByte out
      → Ensures (All IsByte) (expand_rounds h prk info out_len iterations n i t out)
  unfolding expand_rounds
  expand_rounds-IsByte prk info out_len iterations zero i t out b =
      elim (Bool-cases (ltb iterations i)) [ inl done ↦ rw done b | inr wrapped ↦ rw wrapped tt ]
  expand_rounds-IsByte prk info out_len iterations (suc n) i t out b =
      let t' = h.hmac_digest prk ((if ltb 1 i then t else []) ++ (info ++ (i ∷ []))) in
      let part_bytes : All IsByte
          (if ltb out_len (i * 32) then take (out_len % 32) t' else take 32 t') =
        elim (Bool-cases (ltb out_len (i * 32))) [
          | inl last ↦ rw last (All-take (out_len % 32) t' (digest _ _))
          | inr whole ↦ rw whole (All-take 32 t' (digest _ _))
        ] in
      expand_rounds-IsByte prk info out_len iterations n ((i + 1) % 256) t' _
        (All-append IsByte out _ b part_bytes)

  okm_calc-IsByte :
      (aead_alg : AeadAlg) (alg : HashAlg) (label prk th : Bytes) (len : ℕ)
      → Ensures (All IsByte) (okm_calc h aead_alg alg label prk th len)
  unfolding okm_calc hkdf_expand
  okm_calc-IsByte aead_alg sha256 label prk th len =
      Ensures-bind (All IsByte) (create_hkdf_info h aead_alg th label len info_default_size) _
        λ info _. elim (Bool-cases (ltb 255 ((len + 31) / 32 % 2 ^ 32))) [
          | inl long ↦ rw long tt
          | inr fits ↦ rw fits (
              expand_rounds-IsByte prk info len ((len + 31) / 32 % 2 ^ 32)
                ((len + 31) / 32 % 2 ^ 32) 1 (replicate 32 0) [] tt)
        ]

  -- What the responder encrypts into ciphertext 2, the initiator decrypts, if both have the same PRK_2e and TH_2: the
  -- ciphertext has the length of the plaintext, and the initiator gets that plaintext from it. The digests are bytes,
  -- and so is the plaintext.
  pub decrypt_ciphertext_2-encrypt_plaintext_2 :
      (suite : Suite) (prk_2e th2 plain cipher : Bytes)
      → All IsByte plain
      → encrypt_plaintext_2 h suite prk_2e th2 plain ≡ ok cipher
      → (length cipher ≡ length plain) × (decrypt_ciphertext_2 h suite prk_2e th2 cipher ≡ ok plain)
  unfolding decrypt_ciphertext_2 encrypt_plaintext_2
  decrypt_ciphertext_2-encrypt_plaintext_2 suite prk_2e th2 plain cipher b e =
      let key_of = λ (len : ℕ).
        okm_calc h suite.edhoc_aead suite.edhoc_hash label_keystream_2 prk_2e th2 len in
      let (ks, derived, xored) = bind-eq-ok (key_of (length plain)) _ e in
      let key_bytes =
        Ensures-ok (All IsByte) (key_of (length plain))
          (okm_calc-IsByte suite.edhoc_aead suite.edhoc_hash label_keystream_2 prk_2e th2
            (length plain))
          derived in
      let (len, back) = p_2e_loop-ciphertext_2_loop plain ks cipher b key_bytes xored in
      (len, rw (len, derived) back)
