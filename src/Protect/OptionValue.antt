-- ===== src/Protect/OptionValue.antt =====
-- `get_oscore_opt_val_len` and `oscore_option_generate` of modules/oscore/src/coap2oscore.c: the value of
-- the OSCORE option.
pub mod Layout
pub mod Generate
use uoscore_uedhoc.Base.{
  Result, [], bit_or, dest_buffer_to_small, drop, err, fault, if◌then◌else◌, leb, length, ltb, none,
  ok, replicate, set, some, take, ℕ, ◌%◌, ◌++◌, ◌+◌, ◌==◌, ◌>>=◌, ◌^◌, ◌∷◌,
}
use uoscore_uedhoc.Memory.{ByteArray, Bytes, Pointer, read, room}

-- The masks of the first byte.
abbrev pub comp_oscore_opt_kidc_h_mask : ℕ
comp_oscore_opt_kidc_h_mask = 0x10

abbrev pub comp_oscore_opt_kid_k_mask : ℕ
comp_oscore_opt_kid_k_mask = 0x08

unfoldable pub get_oscore_opt_val_len : ByteArray → ByteArray → ByteArray → ℕ
get_oscore_opt_val_len piv kid kid_context =
    let l = (piv.len + kid_context.len + kid.len) % 2 ^ 16 in
    let l₁ = if l == 0 then l else (l + 1) % 2 ^ 16 in
    if kid_context.len == 0 then l₁ else (l₁ + 1) % 2 ^ 16

-- `value[0] |= mask`, in a uint8_t.
unfoldable pub or_first : Bytes → ℕ → Result Bytes
or_first [] mask = fault
or_first (b ∷ m) mask = ok (bit_or b mask % 256 ∷ m)

-- `*p = b` at an offset, and `_memcpy_s(p, dest_size, src, count)` there.
unfoldable pub store_at : Bytes → ℕ → ℕ → Result Bytes
store_at m offset b = if ltb offset (length m) then ok (set m offset b) else fault

unfoldable pub memcpy_s_at : Bytes → ℕ → ℕ → ByteArray → Result Bytes
memcpy_s_at m offset dest_size src = if ltb dest_size src.len then err dest_buffer_to_small else (do
  bs ← read src.ptr src.len
  if leb (offset + src.len) (length m)
      then ok (take offset m ++ (bs ++ drop (offset + src.len) m))
      else fault)

-- The PIV behind the first byte; the results are the array and the offset of `temp_ptr`.
unfoldable pub write_piv : ℕ → ByteArray → Bytes → Result (Bytes × ℕ)
write_piv len piv m = if piv.len == 0 then ok (m, 0) else (do
  m₁ ← or_first m (piv.len % 256)
  m₂ ← memcpy_s_at m₁ 1 (room len 1) piv
  ok (m₂, 1 + piv.len))

-- The length byte of the KID context and the context, from `temp_ptr` on.
unfoldable pub write_kid_context : ℕ → ByteArray → Bytes → ℕ → Result (Bytes × ℕ)
write_kid_context len kid_context m offset = if kid_context.len == 0 then ok (m, offset) else (do
  m₁ ← or_first m comp_oscore_opt_kidc_h_mask
  m₂ ← store_at m₁ offset (kid_context.len % 256)
  m₃ ← memcpy_s_at m₂ (offset + 1) (room len (offset + 1)) kid_context
  ok (m₃, offset + 1 + kid_context.len))

-- The value, in an array `buf` that it is written to the start of; NULL for a length of 0.
unfoldable pub oscore_option_generate :
    ByteArray → ByteArray → ByteArray → ℕ → Bytes → Result Pointer
oscore_option_generate piv kid kid_context len buf =
    if len == 0 then ok none else if ltb (length buf) len then fault else (do
      (m₁, offset₁) ← write_piv len piv (replicate len 0 ++ drop len buf)
      (m₂, offset₂) ← write_kid_context len kid_context m₁ offset₁
      m₃ ← or_first m₂ comp_oscore_opt_kid_k_mask
      m₄ ← if kid.len == 0 then ok m₃ else memcpy_s_at m₃ offset₂ (room len offset₂) kid
      ok (some m₄))
