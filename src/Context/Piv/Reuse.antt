-- ===== src/Context/Piv/Reuse.antt =====
-- Which sequence numbers get the same nonce.
use uoscore_uedhoc.Base.{
  Result, ap, ap₂, arith, drop, length, ok, refl, replicate, some, suc, sym, zero, ℕ, ◌*◌, ◌++◌,
  ◌-◌, ◌<◌, ◌>>=◌, ◌^◌, ◌↔◌, ◌∙◌, ◌∷◌, ◌≡◌, ◌≤◌,
}
use uoscore_uedhoc.Context.Piv.{le_bytes, sender_seq_num2piv}
use uoscore_uedhoc.Context.Piv.Digits.{
  byte_count, byte_count_bounds, digits_le, le_bytes-IsByte, le_value, le_value-digits_le,
  length-digits_le, length-le_bytes, sender_seq_num2piv-digits_le,
}
use uoscore_uedhoc.Memory.{ByteArray, Bytes}
use uoscore_uedhoc.Memory.Writes.{read-prefix}
use uoscore_uedhoc.Nonce.{create_nonce}
use uoscore_uedhoc.Nonce.Unique.{
  Holds, append-injective, create_nonce-plain_nonce, create_nonce_iff, padded, plain_nonce,
  xor_bytes,
}

-- The Partial IV of a number and the nonce made with it, as `coap2oscore` makes them for a request.
unfoldable pub request_nonce : ByteArray → ByteArray → ByteArray → ℕ → Result Bytes
request_nonce id_piv piv common_iv ssn = do
  new_piv ← sender_seq_num2piv ssn piv
  create_nonce id_piv new_piv common_iv

byte_count_shift : (v : ℕ) → 0 < v → v < 2 ^ 32 → byte_count (256 * v) ≡ suc (byte_count v)
unfolding byte_count
byte_count_shift v pos h = ground arith

le_bytes_shift : (n v : ℕ) → le_bytes (suc n) (256 * v) ≡ 0 ∷ le_bytes n v
unfolding le_bytes
le_bytes_shift n v = ap₂ ◌∷◌ (omega arith) (ap (le_bytes n) (omega arith))

zeroes_move : (k : ℕ) (bs : Bytes) → replicate (suc k) 0 ++ bs ≡ replicate k 0 ++ (0 ∷ bs)
zeroes_move zero bs = refl
zeroes_move (suc k) bs = ap (◌∷◌ 0) (zeroes_move k bs)

-- Padding in front hides a lowest digit 0.
shifted_digits :
    (v : ℕ) → 0 < v → v < 2 ^ 32 → padded 5 (digits_le v) ≡ padded 5 (digits_le (256 * v))
unfolding digits_le
shifted_digits v pos h =
    let n = byte_count v in
    let few : n ≤ 4 = unfold byte_count in ground arith in
    let l = length-le_bytes n v in
    let e : 5 - n ≡ suc (4 - n) = omega arith in
    let e' : 5 - suc n ≡ 4 - n = omega arith in
    rw (byte_count_shift v pos h, le_bytes_shift n v, l, e, e', zeroes_move (4 - n) (le_bytes n v))

module _ (id_piv piv common_iv : ByteArray) (id m iv : Bytes) (hid : Holds id_piv id)
    (id_short : length id ≤ 7) (at : piv.ptr ≡ some m) (room : 5 ≤ length m)
    (hiv : Holds common_iv iv) (iv_len : length iv ≡ 13) where
  -- The Partial IV of a number below 2 ^ 40.
  abbrev piv_of : ℕ → ByteArray
  piv_of v = record { len = byte_count v; ptr = some (digits_le v ++ drop (byte_count v) m) }

  piv_of-Holds : (v : ℕ) → Holds (piv_of v) (digits_le v)
  piv_of-Holds v = record {
    content_is = rw (sym (length-digits_le v)) (read-prefix (digits_le v) _);
    in_range = unfold digits_le in le_bytes-IsByte (byte_count v) v;
  }

  piv_short : (v : ℕ) → length (digits_le v) ≤ 5
  piv_short v = omega (arith, length-digits_le v, byte_count_bounds v)

  request_nonce-create_nonce :
      (v : ℕ)
      → v < 2 ^ 40
      → request_nonce id_piv piv common_iv v ≡ create_nonce id_piv (piv_of v) common_iv
  unfolding request_nonce
  request_nonce-create_nonce v h = rw (sender_seq_num2piv-digits_le v piv m at room h)

  request_nonce_iff :
      (v w : ℕ)
      → v < 2 ^ 40
      → w < 2 ^ 40
      → (request_nonce id_piv piv common_iv v ≡ request_nonce id_piv piv common_iv w)
        ↔ (padded 5 (digits_le v) ≡ padded 5 (digits_le w))
  request_nonce_iff v w hv hw =
      let e = request_nonce-create_nonce v hv in
      let e' = request_nonce-create_nonce w hw in
      let both =
        create_nonce_iff id_piv id_piv (piv_of v) (piv_of w) common_iv id id (digits_le v)
          (digits_le w) iv hid hid (piv_of-Holds v) (piv_of-Holds w) hiv id_short id_short
          (piv_short v) (piv_short w) iv_len in
      (λ q. (both.0 (sym e ∙ q ∙ e')).1, λ q. e ∙ both.1 (refl, q) ∙ sym e')

  -- Under one context, two sequence numbers below 2 ^ 40 whose Partial IVs have the same length get
  -- the same nonce only if they are the same number.
  request_nonce-injective :
      (v w : ℕ)
      → v < 2 ^ 40
      → w < 2 ^ 40
      → byte_count v ≡ byte_count w
      → request_nonce id_piv piv common_iv v ≡ request_nonce id_piv piv common_iv w
      → v ≡ w
  request_nonce-injective v w hv hw same e =
      let pads = (request_nonce_iff v w hv hw).0 e in
      let zeroes : length {A = ℕ} (replicate (5 - length (digits_le v)) 0)
          ≡ length {A = ℕ} (replicate (5 - length (digits_le w)) 0) =
        ap (λ (n : ℕ). length {A = ℕ} (replicate (5 - n) 0))
          (length-digits_le v ∙ same ∙ sym (length-digits_le w)) in
      let digits = append-injective _ _ (digits_le v) (digits_le w) zeroes pads in
      sym (le_value-digits_le v hv) ∙ ap le_value digits.1 ∙ le_value-digits_le w hw

  -- Under one context, a sequence number `v` that is not 0 and is below 2 ^ 32 and the number 256 * v get
  -- the same nonce, with no error: the digits stand lowest first, and are padded in front.
  pub request_nonce_reuse :
      (v : ℕ)
      → 0 < v
      → v < 2 ^ 32
      → (nonce : Bytes) × (request_nonce id_piv piv common_iv v ≡ ok nonce)
        × (request_nonce id_piv piv common_iv (256 * v) ≡ ok nonce)
  request_nonce_reuse v pos h = (
    xor_bytes (plain_nonce id (digits_le v)) iv,
    first,
    sym ((request_nonce_iff v (256 * v) (omega arith) (omega arith)).1 (shifted_digits v pos h))
        ∙ first,
  )
    where
      first :
          request_nonce id_piv piv common_iv v ≡ ok (xor_bytes (plain_nonce id (digits_le v)) iv)
      first =
          request_nonce-create_nonce v (omega arith)
          ∙ create_nonce-plain_nonce id_piv (piv_of v) common_iv id (digits_le v) iv hid
              (piv_of-Holds v) hiv id_short (piv_short v) iv_len
