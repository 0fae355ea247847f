-- ===== src/Context/Piv.antt =====
-- `sender_seq_num2piv` of modules/oscore/src/security_context.c: a sender sequence number as a
-- Partial IV. The code reads the bytes of a uint64_t in memory, which stand lowest first on the
-- little-endian machines that it is written for.
pub mod Digits
pub mod Reuse
use uoscore_uedhoc.Base.{
  Result, [], fault, if◌then◌else◌, ltb, none, ok, some, suc, zero, ℕ, ◌%◌, ◌+◌, ◌/◌, ◌>>=◌, ◌∷◌,
}
use uoscore_uedhoc.Coap.{max_piv_len}
use uoscore_uedhoc.Memory.{ByteArray, Bytes, Pointer, load_at, memcpy_s_over}

-- The `n` bytes of a number, lowest first.
unfoldable pub le_bytes : ℕ → ℕ → Bytes
le_bytes zero v = []
le_bytes (suc n) v = v % 256 ∷ le_bytes n (v / 256)

-- `*piv->ptr = 0`
unfoldable pub store_zero : Pointer → Result Pointer
store_zero none = fault
store_zero (some []) = fault
store_zero (some (x ∷ m)) = ok (some (0 ∷ m))

-- The loop from the top byte down; `i` rounds are left. The number 0 has the Partial IV 0, of length 1.
unfoldable pub piv_loop : ℕ → Bytes → ByteArray → Result ByteArray
piv_loop zero p piv = do m ← store_zero piv.ptr; ok (record { len = 1; ptr = m })
piv_loop (suc i) p piv = do
  b ← load_at p i
  let copied = memcpy_s_over piv.ptr max_piv_len (some p) (i + 1)
  let rest = piv_loop i p piv
  if ltb 0 b then (do m ← copied; ok (record { len = i + 1; ptr = m })) else rest

unfoldable pub sender_seq_num2piv : ℕ → ByteArray → Result ByteArray
sender_seq_num2piv ssn piv = piv_loop 8 (le_bytes 8 ssn) piv
