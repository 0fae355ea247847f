-- ===== src/Crypto/Expand.antt =====
-- `hkdf_sha_256` against HKDF as RFC 5869 defines it.
use uoscore_uedhoc.Base.{
  Bool-cases, [], ap, append-nil, append_assoc, arith, false, fault, if◌then◌else◌, inl, inr,
  length, le→ltb, ltb, ltb→le, ltb→lt, lt→ltb, none, ok, refl, replicate, some, suc, sym, take,
  take-length, zero, ℕ, ◌%◌, ◌*◌, ◌++◌, ◌+◌, ◌-◌, ◌/◌, ◌<◌, ◌==◌, ◌^◌, ◌∙◌, ◌∷◌, ◌≡◌, ◌≤◌, ◌⊎◌,
}
use uoscore_uedhoc.Crypto.{
  block_part, expand_block, expand_loop, hkdf_salt, hkdf_sha_256, is_null, salt_size,
}
use uoscore_uedhoc.Memory.{ByteArray, Bytes, Pointer, read}
use uoscore_uedhoc.Platform.{TinyCrypt}

-- T(i) for the `n` numbers from `i` on, one after the other, where `t` is the block before.
unfoldable pub blocks : (Bytes → Bytes → Bytes) → Bytes → Bytes → ℕ → ℕ → Bytes → Bytes
blocks mac prk info zero i t = []
blocks mac prk info (suc n) i t =
    let t' = mac prk (t ++ (info ++ (i ∷ []))) in t' ++ blocks mac prk info n (i + 1) t'

-- The output of a length: enough blocks, cut.
abbrev pub hkdf : (Bytes → Bytes → Bytes) → Bytes → Bytes → Bytes → ℕ → Bytes
hkdf mac salt secret info out_len =
    take out_len (blocks mac (mac salt secret) info ((out_len + 31) / 32) 1 [])

-- The block before, of which the first round has none.
abbrev pub before : ℕ → Bytes → Bytes
before i t = if ltb 1 i then t else []

pub take-le-append : (k : ℕ) (xs ys : Bytes) → k ≤ length xs → take k (xs ++ ys) ≡ take k xs
take-le-append zero xs ys h = refl
take-le-append (suc k) [] ys h = absurd (omega arith)
take-le-append (suc k) (x ∷ xs) ys h = ap (◌∷◌ x) (take-le-append k xs ys (omega arith))

pub take-plus-append :
    (k m : ℕ) (xs ys : Bytes) → m ≡ length xs + k → take m (xs ++ ys) ≡ xs ++ take k ys
take-plus-append k m [] ys h = ap (λ (n : ℕ). take n ys) (let e : m ≡ k = omega arith in e)
take-plus-append k zero (x ∷ xs) ys h = absurd (omega arith)
take-plus-append k (suc m) (x ∷ xs) ys h = ap (◌∷◌ x) (take-plus-append k m xs ys (omega arith))

module _ (tc : TinyCrypt) (mac : Bytes → Bytes → Bytes)
    (works : (k m : Bytes) → tc.hmac k m ≡ some (mac k m))
    (size : (k m : Bytes) → length (mac k m) ≡ 32) where
  -- A block's part and what is left to write make up what was left before.
  part_lem :
      (out_len i : ℕ) (t rest : Bytes)
      → length t ≡ 32
      → 0 < i
      → i ≤ (out_len + 31) / 32
      → (part : Bytes) × (block_part out_len i t ≡ ok part)
        × (part ++ take (out_len - i * 32) rest ≡ take (out_len - (i - 1) * 32) (t ++ rest))
  unfolding block_part
  part_lem out_len i t rest l pos within =
      let nonzero : (i == 0) ≡ false = ground arith in
      elim (Bool-cases (ltb out_len (i * 32))) [
        | inl last ↦
            let below = ltb→lt out_len (i * 32) last in
            let cut : out_len % 32 ≡ out_len - (i - 1) * 32 = omega arith in
            let none_left : out_len - i * 32 ≡ 0 = omega arith in
            (
              take (out_len % 32) t,
              rw (nonzero, last) refl,
              rw (none_left, cut)
                  (append-nil (take (out_len - (i - 1) * 32) t)
                    ∙ sym (take-le-append (out_len - (i - 1) * 32) t rest (omega arith))),
            )
        | inr more ↦
            let above = ltb→le out_len (i * 32) more in
            let whole : out_len - (i - 1) * 32 ≡ length t + (out_len - i * 32) = omega arith in
            (
              take 32 t,
              rw (nonzero, more) refl,
              (ap (λ (n : ℕ). take n t ++ take (out_len - i * 32) rest) (sym l)
                  ∙ ap (λ (bs : Bytes). bs ++ take (out_len - i * 32) rest) (take-length t)
                  ∙ sym
                      (take-plus-append (out_len - i * 32) (out_len - (i - 1) * 32) t rest whole)),
            )
      ]

  expand_loop-blocks :
      (prk info : Bytes) (out_len n fuel i : ℕ) (t out : Bytes)
      → n < fuel
      → 0 < i
      → i + n ≡ (out_len + 31) / 32 + 1
      → (out_len + 31) / 32 < 255
      → expand_loop tc prk info out_len ((out_len + 31) / 32) fuel i t out
        ≡ some (ok (out ++ take (out_len - (i - 1) * 32) (blocks mac prk info n i (before i t))))
  unfolding expand_loop blocks expand_block
  expand_loop-blocks prk info out_len n zero i t out enough pos rounds few = absurd (omega arith)
  expand_loop-blocks prk info out_len zero (suc fuel) i t out enough pos rounds few =
      let done = lt→ltb ((out_len + 31) / 32) i (omega arith) in
      let nothing : out_len - (i - 1) * 32 ≡ 0 = omega arith in rw (done, nothing, append-nil)
  expand_loop-blocks prk info out_len (suc n) (suc fuel) i t out enough pos rounds few =
      let more = le→ltb ((out_len + 31) / 32) i (omega arith) in
      let t' = mac prk (before i t ++ (info ++ (i ∷ []))) in
      let rest = blocks mac prk info n (i + 1) t' in
      let (part, part_is, joined) = part_lem out_len i t' rest (size _ _) pos (omega arith) in
      let no_wrap : (i + 1) % 256 ≡ i + 1 = omega arith in
      let back : i + 1 - 1 ≡ i = omega arith in
      let later = lt→ltb 1 (i + 1) (omega arith) in
      let ih =
        expand_loop-blocks prk info out_len n fuel (i + 1) t' (out ++ part) (omega arith)
          (omega arith) (omega arith) few in
      rw (more, works, part_is, no_wrap)
        (rw (later, back) at ih
          ∙ ap (λ (bs : Bytes). some (ok bs))
              (append_assoc out part _ ∙ ap (λ (bs : Bytes). out ++ bs) joined))

  held :
      (p : Pointer) (n : ℕ) (bs : Bytes)
      → 0 < n
      → read p n ≡ ok bs
      → (if is_null p then ok (replicate salt_size 0) else read p n) ≡ ok bs
  unfolding read
  held none zero bs some_bytes holds = absurd (omega arith)
  held none (suc n) bs some_bytes holds = cc
  held (some m) n bs some_bytes holds = holds

  -- The salt of RFC 5869: what the array holds, and as many zeroes as a hash has bytes where it is empty.
  hkdf_salt_lem :
      (master_salt : ByteArray) (salt : Bytes)
      → ((master_salt.len ≡ 0) × (salt ≡ replicate 32 0))
        ⊎ ((0 < master_salt.len) × (read master_salt.ptr master_salt.len ≡ ok salt))
      → hkdf_salt master_salt ≡ ok salt
  unfolding hkdf_salt
  hkdf_salt_lem master_salt salt (inl (empty, zeroes)) = rw (empty, zeroes) refl
  hkdf_salt_lem master_salt salt (inr (some_bytes, holds)) =
      let nonzero : (master_salt.len == 0) ≡ false = ground arith in
      rw nonzero (held master_salt.ptr master_salt.len salt some_bytes holds)

  -- Where the HMAC of TinyCrypt never fails and gives 32 bytes, `hkdf_sha_256` ends for every output of at
  -- most 254 blocks and gives the output of HKDF for that length, with the salt that the array holds, or 32
  -- zeroes if it is empty.
  pub hkdf_sha_256-hkdf :
      (secret info salt : Bytes) (master_salt : ByteArray) (out_len : ℕ)
      → ((master_salt.len ≡ 0) × (salt ≡ replicate 32 0))
        ⊎ ((0 < master_salt.len) × (read master_salt.ptr master_salt.len ≡ ok salt))
      → out_len ≤ 254 * 32
      → hkdf_sha_256 tc secret master_salt info out_len
        ≡ some (ok (hkdf mac salt secret info out_len))
  unfolding hkdf_sha_256
  hkdf_sha_256-hkdf secret info salt master_salt out_len salted few =
      let s = hkdf_salt_lem master_salt salt salted in
      let n = (out_len + 31) / 32 in
      let allowed = le→ltb 255 n (omega arith) in
      let no_carry : (out_len + 31) % 2 ^ 32 ≡ out_len + 31 = omega arith in
      let all : out_len - 0 ≡ out_len = omega arith in
      rw (s, works, no_carry, allowed)
        (rw all at (
          expand_loop-blocks (mac salt secret) info out_len n 257 1 (replicate 32 0) []
            (omega arith) (omega arith) (omega arith) (omega arith)))

  -- After the block number 255 the counter of the loop is 0.
  expand_loop-wraps :
      (prk info : Bytes) (out_len n fuel i : ℕ) (t out : Bytes)
      → n < fuel
      → 0 < i
      → i + n ≡ 256
      → expand_loop tc prk info out_len 255 fuel (i % 256) t out ≡ some fault
  unfolding expand_loop expand_block block_part
  expand_loop-wraps prk info out_len n zero i t out enough pos rounds = absurd (omega arith)
  expand_loop-wraps prk info out_len zero (suc fuel) i t out enough pos rounds =
      let wrapped : i % 256 ≡ 0 = omega arith in rw (wrapped, works)
  expand_loop-wraps prk info out_len (suc n) (suc fuel) i t out enough pos rounds =
      let same : i % 256 ≡ i = omega arith in
      let more = le→ltb 255 i (omega arith) in
      let nonzero : (i == 0) ≡ false = ground arith in
      let next = λ (t' part : Bytes).
        expand_loop-wraps prk info out_len n fuel (i + 1) t' (out ++ part) (omega arith)
          (omega arith) (omega arith) in
      rw (same, more, works, nonzero)
        (elim (Bool-cases (ltb out_len (i * 32))) [
          | inl last ↦ rw last (next _ _)
          | inr whole ↦ rw whole (next _ _)
        ])

  -- For an output of 255 blocks, which the test of its length lets pass, the 8-bit counter wraps and
  -- `hkdf_sha_256` writes a block in front of the output.
  pub hkdf_sha_256_wraps :
      (secret info salt : Bytes) (master_salt : ByteArray) (out_len : ℕ)
      → hkdf_salt master_salt ≡ ok salt
      → 254 * 32 < out_len
      → out_len ≤ 255 * 32
      → hkdf_sha_256 tc secret master_salt info out_len ≡ some fault
  unfolding hkdf_sha_256
  hkdf_sha_256_wraps secret info salt master_salt out_len s many few =
      let n : (out_len + 31) / 32 ≡ 255 = omega arith in
      let no_carry : (out_len + 31) % 2 ^ 32 ≡ out_len + 31 = omega arith in
      rw (s, works, no_carry, n)
        (expand_loop-wraps (mac salt secret) info out_len 255 257 1 (replicate 32 0) []
          (omega arith) (omega arith) (omega arith))
