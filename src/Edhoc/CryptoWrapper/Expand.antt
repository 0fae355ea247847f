-- ===== src/Edhoc/CryptoWrapper/Expand.antt =====
-- `hkdf_extract` and `hkdf_expand` against HKDF as RFC 5869 defines it, for outputs of every length.
use uoscore_uedhoc.Base.{
  Bool-cases, [], ap, append-nil, append_assoc, arith, err, fault, if◌then◌else◌, inl, inr, leb,
  length, le→ltb, ltb, ltb→le, ltb→lt, lt→ltb, ok, ok-injective, replicate, suc, sym, take,
  take-length, zero, ℕ, ◌%◌, ◌*◌, ◌++◌, ◌+◌, ◌-◌, ◌/◌, ◌<◌, ◌^◌, ◌∙◌, ◌∷◌, ◌≡◌, ◌≤◌,
}
use uoscore_uedhoc.Crypto.Expand.{before, blocks, hkdf, take-le-append, take-plus-append}
use uoscore_uedhoc.Edhoc.{error_during_hkdf_calculation, sha256}
use uoscore_uedhoc.Edhoc.CryptoWrapper.{expand_rounds, hkdf_expand, hkdf_extract}
use uoscore_uedhoc.Edhoc.Host.{Host}
use uoscore_uedhoc.Memory.{Bytes}

module _ (h : Host) (size : (k m : Bytes) → length (h.hmac_digest k m) ≡ 32) where
  -- The part of a block that is stored and what is left to store make up what was left before.
  part_lem :
      (out_len i : ℕ) (t rest : Bytes)
      → length t ≡ 32
      → 0 < i
      → i ≤ (out_len + 31) / 32
      → (if ltb out_len (i * 32) then take (out_len % 32) t else take 32 t)
          ++ take (out_len - i * 32) rest
        ≡ take (out_len - (i - 1) * 32) (t ++ rest)
  part_lem out_len i t rest l pos within = elim (Bool-cases (ltb out_len (i * 32))) [
    | inl last ↦
        let below = ltb→lt out_len (i * 32) last in
        let cut : out_len % 32 ≡ out_len - (i - 1) * 32 = omega arith in
        let none_left : out_len - i * 32 ≡ 0 = omega arith in
        rw last (
          rw (none_left, cut)
            (append-nil (take (out_len - (i - 1) * 32) t)
              ∙ sym (take-le-append (out_len - (i - 1) * 32) t rest (omega arith))))
    | inr more ↦
        let above = ltb→le out_len (i * 32) more in
        let whole : out_len - (i - 1) * 32 ≡ length t + (out_len - i * 32) = omega arith in
        let all : take 32 t ≡ t = rw (sym l) (take-length t) in
        rw (more, all)
          (sym (take-plus-append (out_len - i * 32) (out_len - (i - 1) * 32) t rest whole))
  ]

  -- The rounds that are left store the blocks that are left.
  expand_rounds-blocks :
      (prk info : Bytes) (out_len n i : ℕ) (t out : Bytes)
      → 0 < i
      → i + n ≡ (out_len + 31) / 32 + 1
      → (out_len + 31) / 32 < 255
      → expand_rounds h prk info out_len ((out_len + 31) / 32) n i t out
        ≡ ok (out ++ take (out_len - (i - 1) * 32) (blocks h.hmac_digest prk info n i (before i t)))
  unfolding expand_rounds blocks
  expand_rounds-blocks prk info out_len zero i t out pos rounds few =
      let done = lt→ltb ((out_len + 31) / 32) i (omega arith) in
      let nothing : out_len - (i - 1) * 32 ≡ 0 = omega arith in rw (done, nothing, append-nil)
  expand_rounds-blocks prk info out_len (suc n) i t out pos rounds few =
      let t' = h.hmac_digest prk (before i t ++ (info ++ (i ∷ []))) in
      let rest = blocks h.hmac_digest prk info n (i + 1) t' in
      let part : Bytes = if ltb out_len (i * 32) then take (out_len % 32) t' else take 32 t' in
      let no_wrap : (i + 1) % 256 ≡ i + 1 = omega arith in
      let back : i + 1 - 1 ≡ i = omega arith in
      let later = lt→ltb 1 (i + 1) (omega arith) in
      let ih =
        expand_rounds-blocks prk info out_len n (i + 1) t' (out ++ part) (omega arith) (omega arith)
          few in
      rw no_wrap (
        rw (later, back) at ih
        ∙ ap (λ (bs : Bytes). ok bs)
            (append_assoc out part _
              ∙ ap (λ (bs : Bytes). out ++ bs)
                  (part_lem out_len i t' rest (size _ _) pos (omega arith))))

  -- After the block number 255 the counter of the loop is 0.
  expand_rounds-wraps :
      (prk info : Bytes) (out_len n i : ℕ) (t out : Bytes)
      → 0 < i
      → i + n ≡ 256
      → expand_rounds h prk info out_len 255 n (i % 256) t out ≡ fault
  unfolding expand_rounds
  expand_rounds-wraps prk info out_len zero i t out pos rounds =
      let wrapped : i % 256 ≡ 0 = omega arith in rw wrapped
  expand_rounds-wraps prk info out_len (suc n) i t out pos rounds =
      let same : i % 256 ≡ i = omega arith in
      rw same (expand_rounds-wraps prk info out_len n (i + 1) _ _ (omega arith) (omega arith))

  -- The salt that HKDF uses where none is given.
  abbrev pub salt_or_zeroes : Bytes → Bytes
  salt_or_zeroes [] = replicate 32 0
  salt_or_zeroes (s ∷ salt) = s ∷ salt

  hkdf_extract_lem :
      (salt ikm prk : Bytes)
      → hkdf_extract h sha256 salt ikm ≡ ok prk
      → h.hmac_digest (salt_or_zeroes salt) ikm ≡ prk
  unfolding hkdf_extract
  hkdf_extract_lem [] ikm prk e = ok-injective e
  hkdf_extract_lem (s ∷ salt) ikm prk e = ok-injective e

  -- Extracting and then expanding gives the output of HKDF of RFC 5869 for every length of at most 254 blocks,
  -- with 32 zeroes for an empty salt, and the error for every length of more than 255 blocks. For 255 blocks, which
  -- RFC 5869 allows, it writes in front of the output. The HMAC gives 32 bytes; the length is below 2 ^ 36.
  pub hkdf_expand-hkdf :
      (salt ikm info prk : Bytes) (out_len : ℕ)
      → hkdf_extract h sha256 salt ikm ≡ ok prk
      → out_len < 2 ^ 36
      → hkdf_expand h sha256 prk info out_len ≡ (
          if leb out_len (254 * 32)
          then ok (hkdf h.hmac_digest (salt_or_zeroes salt) ikm info out_len)
          else (if leb out_len (255 * 32) then fault else err error_during_hkdf_calculation))
  unfolding hkdf_expand
  hkdf_expand-hkdf salt ikm info prk out_len extracted small =
      let key_is = hkdf_extract_lem salt ikm prk extracted in
      let n : (out_len + 31) / 32 % 2 ^ 32 ≡ (out_len + 31) / 32 = omega arith in
      elim (Bool-cases (leb out_len (254 * 32))) [
        | inl few ↦
            let fits : out_len ≤ 254 * 32 = ground arith in
            let allowed = le→ltb 255 ((out_len + 31) / 32) (omega arith) in
            let all : out_len - 0 ≡ out_len = omega arith in
            rw (few, n, allowed, key_is)
              (rw all at (
                expand_rounds-blocks prk info out_len ((out_len + 31) / 32) 1 (replicate 32 0) []
                  (omega arith) (omega arith) (omega arith)))
        | inr many ↦
            let more : 254 * 32 < out_len = ground arith in
            rw (many, n)
              (elim (Bool-cases (leb out_len (255 * 32))) [
                | inl last ↦
                    let within : out_len ≤ 255 * 32 = ground arith in
                    let full : (out_len + 31) / 32 ≡ 255 = omega arith in
                    rw (last, full)
                      (expand_rounds-wraps prk info out_len 255 1 (replicate 32 0) [] (omega arith)
                        (omega arith))
                | inr over ↦
                    let above : 255 * 32 < out_len = ground arith in
                    let too_many = lt→ltb 255 ((out_len + 31) / 32) (omega arith) in
                    rw (over, too_many)
              ])
      ]
