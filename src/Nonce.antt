-- ===== src/Nonce.antt =====
-- `create_nonce` of modules/oscore/src/nonce.c.
pub mod Unique
use uoscore_uedhoc.Base.{
  Result, [], bit_xor, fault, if◌then◌else◌, ltb, ok, replicate, some, suc, zero, ℕ, ◌%◌, ◌-◌,
  ◌>>=◌, ◌∷◌,
}
use uoscore_uedhoc.Coap.{max_piv_len}
use uoscore_uedhoc.Memory.{Buffer, ByteArray, Bytes, memcpy_s, memory, put, start}

abbrev pub nonce_len : ℕ
nonce_len = 13

-- A zeroed array of `size` bytes with `a` copied to its end. `_memcpy_s` is given the length of `a` as
-- the size of the destination; an array longer than `size` would start in front of it.
unfoldable pub left_pad : ℕ → ByteArray → Result Bytes
left_pad size a = if ltb size a.len then fault else (do
  let zeroes : Buffer = record { size = size; bytes = replicate (size - a.len) 0 }
  padded ← memcpy_s zeroes a.len a.ptr a.len
  ok padded.bytes)

-- `nonce->ptr[i] ^= common_iv->ptr[i]` for the `n` bytes left, at two addresses.
unfoldable pub xor_loop : ℕ → Bytes → Bytes → Result Bytes
xor_loop zero nonce iv = ok nonce
xor_loop (suc n) [] iv = fault
xor_loop (suc n) (x ∷ nonce) [] = fault
xor_loop (suc n) (x ∷ nonce) (y ∷ iv) = do rest ← xor_loop n nonce iv; ok (bit_xor x y ∷ rest)

-- The bytes written to `nonce->ptr`, which must hold 13 bytes.
unfoldable pub create_nonce : ByteArray → ByteArray → ByteArray → Result Bytes
create_nonce id_piv piv common_iv = do
  padded_piv ← left_pad max_piv_len piv
  padded_id_piv ← left_pad (nonce_len - max_piv_len - 1) id_piv
  sized ← put (start nonce_len) (id_piv.len % 256 ∷ [])
  named ← memcpy_s sized 7 (some padded_id_piv) 7
  numbered ← memcpy_s named 5 (some padded_piv) 5
  xor_loop common_iv.len numbered.bytes (memory common_iv.ptr)
