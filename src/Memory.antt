-- ===== src/Memory.antt =====
-- Memory as the code sees it: modules/oscore/src/byte_array.c, modules/oscore/inc/byte_array.h and
-- modules/oscore/src/memcpy_s.c.
--
-- A `uint8_t *` is the list of the bytes from the pointer on to the end of the object that it points
-- into, and NULL is `none`; so `p + n` is `drop n`, and reading past the end is a `fault`. An array
-- that is filled from its start on is a `Buffer`: its size and the bytes written so far.
pub mod Writes
use uoscore_uedhoc.Base.{
  Bool, List, Option, Result, [], dest_buffer_to_small, drop, err, false, fault, if◌then◌else◌, leb,
  length, ltb, none, not, ok, some, suc, take, true, zero, ℕ, ◌%◌, ◌++◌, ◌+◌, ◌-◌, ◌<◌, ◌==◌, ◌>>=◌,
  ◌^◌, ◌∷◌,
}

abbrev pub Bytes : Type 0
Bytes = List ℕ

abbrev pub IsByte : ℕ → Type 0
IsByte b = b < 256

abbrev pub Pointer : Type 0
Pointer = Option Bytes

-- `struct byte_array`. `len` is a uint32_t.
pub record ByteArray : Type 0 where
  pub len : ℕ
  pub ptr : Pointer

-- `EMPTY_ARRAY` points to the terminating zero of "".
abbrev pub empty_array : ByteArray
empty_array = record { len = 0; ptr = some (0 ∷ []) }

abbrev pub null_array : ByteArray
null_array = record { len = 0; ptr = none }

-- `*p`, and `p[i]`.
abbrev pub load : Bytes → Result ℕ
load [] = fault
load (b ∷ _) = ok b

abbrev pub load_at : Bytes → ℕ → Result ℕ
load_at p i = load (drop i p)

-- The `n` bytes at `p`. Nothing is read where `n` is 0.
unfoldable pub read : Pointer → ℕ → Result Bytes
read p zero = ok []
read none (suc n) = fault
read (some m) (suc n) = if leb (suc n) (length m) then ok (take (suc n) m) else fault

-- The loop of `array_equals` over the `n` bytes that are left, at two addresses.
equal_bytes : ℕ → Bytes → Bytes → Result Bool
equal_bytes zero l r = ok true
equal_bytes (suc n) [] r = fault
equal_bytes (suc n) (x ∷ l) [] = fault
equal_bytes (suc n) (x ∷ l) (y ∷ r) =
    let rest = equal_bytes n l r in if x == y then rest else ok false

-- `left->ptr[i]`, with a NULL pointer read as no memory at all.
abbrev pub memory : Pointer → Bytes
memory none = []
memory (some m) = m

unfoldable pub array_equals : ByteArray → ByteArray → Result Bool
unfolding equal_bytes
array_equals left right =
    if not (left.len == right.len)
    then ok false
    else equal_bytes left.len (memory left.ptr) (memory right.ptr)

-- An array of `size` bytes, written from its start up to the cursor `length bytes`.
pub record Buffer : Type 0 where
  pub size : ℕ
  pub bytes : Bytes

abbrev pub start : ℕ → Buffer
start n = record { size = n; bytes = [] }

-- Unchecked stores at the cursor, which then stands behind them.
unfoldable pub put : Buffer → Bytes → Result Buffer
put b bs =
    if leb (length b.bytes + length bs) b.size
    then ok (record b { bytes = b.bytes ++ bs })
    else fault

-- `dest_size = capacity - (cursor - start)` in uint64_t, which wraps.
abbrev pub room : ℕ → ℕ → ℕ
room capacity cursor = (capacity + 2 ^ 64 - cursor) % 2 ^ 64

-- `_memcpy_s(cursor, dest_size, src, count)`: the size that the caller names is tested, the copy is not.
unfoldable pub memcpy_s : Buffer → ℕ → Pointer → ℕ → Result Buffer
memcpy_s b dest_size src count =
    if ltb dest_size count then err dest_buffer_to_small else read src count >>= put b

abbrev pub overwrite : Pointer → Bytes → Pointer
overwrite none bs = none
overwrite (some m) bs = some (bs ++ drop (length bs) m)

-- `_memcpy_s(dest, dest_size, src, count)` over an array that holds values already: the first
-- `count` bytes at `dest` are replaced, the others stay.
unfoldable pub memcpy_s_over : Pointer → ℕ → Pointer → ℕ → Result Pointer
memcpy_s_over dest dest_size src count =
    if ltb dest_size count
    then err dest_buffer_to_small
    else (do bs ← read src count; old ← read dest count; ok (overwrite dest bs))

-- `_memcpy_s(dest.ptr, dest_size, src.ptr, src.len); dest.len = src.len`
unfoldable pub copy_within : ℕ → ByteArray → ByteArray → Result ByteArray
copy_within dest_size dest src = do
  p ← memcpy_s_over dest.ptr dest_size src.ptr src.len
  ok (record { len = src.len; ptr = p })

-- The bytes stored at a pointer whose memory has to hold them.
unfoldable pub store_through : Pointer → Bytes → Result Pointer
store_through p bs = do old ← read p (length bs); ok (overwrite p bs)
