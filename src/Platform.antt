-- ===== src/Platform.antt =====
-- What the modules call and do not hold: the TinyCBOR encoder and the TinyCrypt primitives. Both are
-- parameters of the definitions that use them.
use uoscore_uedhoc.Base.{Bool, List, Option, if◌then◌else◌, length, ℕ, ◌==◌}
use uoscore_uedhoc.Memory.{Bytes}

-- One call of the CBOR encoder; `close` ends an array or a map. `negint n` is the integer -(n + 1), and
-- `pairs n` opens a map.
pub data CborItem : Type 0 where
  array : ℕ → CborItem
  uint : ℕ → CborItem
  int : ℕ → CborItem
  negint : ℕ → CborItem
  pairs : ℕ → CborItem
  byte_string : Bytes → CborItem
  text_string : Bytes → CborItem
  null : CborItem
  close : CborItem

-- `encode` gives the bytes that the calls stand for. Into a buffer of another size than they take,
-- `overflow` tells what the buffer then holds.
pub record Cbor : Type 0 where
  pub encode : List CborItem → Bytes
  pub overflow : ℕ → List CborItem → Bytes

-- The content of a buffer of `size` bytes after the calls.
abbrev pub encode_into : Cbor → ℕ → List CborItem → Bytes
encode_into cbor size items =
    if length (cbor.encode items) == size then cbor.encode items else cbor.overflow size items

-- `hmac key message` is the digest of the message that the updates make up, or none if a call fails.
-- `ccm_config` is told the length of the nonce; the two modes take key, nonce, length of the output,
-- additional data and input, and give the output unless they fail.
pub record TinyCrypt : Type 0 where
  pub hmac : Bytes → Bytes → Option Bytes
  pub ccm_config : ℕ → Bool
  pub ccm_encrypt : Bytes → Bytes → ℕ → Bytes → Bytes → Option Bytes
  pub ccm_decrypt : Bytes → Bytes → ℕ → Bytes → Bytes → Option Bytes
