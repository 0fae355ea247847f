-- ===== src/Edhoc/Messages/Fields.antt =====
-- Single fields of a message through the decoder of modules/edhoc/src/cbor_decoder.c.
use uoscore_uedhoc.Base.{
  Bool-cases, List, [], arith, drop, err, false, fault, inl, inr, leb, length, length-append,
  length-replicate, length-take, le→ltb, ltb, ltb→lt, lt→ltb, ok, ok-injective, refl, replicate,
  suc, take-append, true, zero, ℕ, ◌%◌, ◌++◌, ◌+◌, ◌-◌, ◌<◌, ◌^◌, ◌∷◌, ◌≡◌, ◌≤◌,
}
use uoscore_uedhoc.Coap.Parse.Options.{parsed}
use uoscore_uedhoc.Edhoc.{cbor_byte_string_buffer_to_small}
use uoscore_uedhoc.Edhoc.CryptoWrapper.{word_bytes}
use uoscore_uedhoc.Edhoc.Decoder.{cbor_decoder, decode_int, word_at}
use uoscore_uedhoc.Edhoc.Host.{
  Host, Local, byte_string_type, byte_string_value, encode_checked, fresh, identifier_item,
  integer_type, integer_value, prefix, store,
}
use uoscore_uedhoc.Edhoc.Messages.{decode_field}
use uoscore_uedhoc.Memory.{Bytes, IsByte, room}
use uoscore_uedhoc.Platform.{CborItem, byte_string, int, negint}

-- Of TinyCBOR: the parser finds the item that was encoded first, and the next pointer stands behind it.
pub record DecodesItems (h : Host) : Type 0 where
  pub encode-nothing : h.cbor.encode [] ≡ []
  pub parse-byte_string :
      (bs : Bytes) (is : List CborItem)
      → (size : ℕ) × (h.parse (h.cbor.encode (byte_string bs ∷ is)) ≡ byte_string_value bs size)
        × (drop size (h.cbor.encode (byte_string bs ∷ is)) ≡ h.cbor.encode is)
  pub parse-int :
      (n : ℕ) (is : List CborItem)
      → n < 2 ^ 31
      → (size : ℕ) × (h.parse (h.cbor.encode (int n ∷ is)) ≡ integer_value n size)
        × (drop size (h.cbor.encode (int n ∷ is)) ≡ h.cbor.encode is)
  pub parse-negint :
      (n : ℕ) (is : List CborItem)
      → n < 2 ^ 31
      → (size : ℕ) × (h.parse (h.cbor.encode (negint n ∷ is)) ≡ integer_value (2 ^ 32 - 1 - n) size)
        × (drop size (h.cbor.encode (negint n ∷ is)) ≡ h.cbor.encode is)

pub encoded-fits :
    (h : Host) (size : ℕ) (items : List CborItem) (bs : Bytes)
    → encode_checked h size items ≡ ok bs
    → h.cbor.encode items ≡ bs
encoded-fits h size items bs e = elim (Bool-cases (leb (length (h.cbor.encode items)) size)) [
  | inl fits ↦ ok-injective (rw fits at e)
  | inr long ↦ cc (rw long at e)
]

pub length-fresh : (h : Host) (l : Local) (n : ℕ) → length (fresh h l n) ≡ n
length-fresh h l n = omega (
  arith,
  length-take n (h.unset l ++ replicate n 0),
  length-append (h.unset l) (replicate n 0),
  length-replicate {A = ℕ} n 0,
)

le→leb : (a b : ℕ) → a ≤ b → leb a b ≡ true
le→leb a b h = ground arith

pub store-ok :
    (old bs : Bytes) → length bs ≤ length old → store old bs ≡ ok (bs ++ drop (length bs) old)
store-ok old bs fits = rw (le→leb (length bs) (length old) fits) refl

pub prefix-front : (bs more : Bytes) → prefix (length bs) (bs ++ more) ≡ ok bs
prefix-front bs more =
    rw
      (
        le→leb (length bs) (length (bs ++ more)) (omega (arith, length-append bs more)),
        take-append (length bs) bs more refl,
      )
      refl

pub drop-all : (n : ℕ) (xs : Bytes) → length xs ≤ n → drop n xs ≡ []
drop-all zero [] short = refl
drop-all zero (x ∷ xs) short = absurd (omega arith)
drop-all (suc n) [] short = refl
drop-all (suc n) (x ∷ xs) short = drop-all n xs (omega arith)

word_at-word_bytes :
    (v : ℕ) (old : Bytes) → length old ≡ 4 → v < 2 ^ 32 → word_at (word_bytes v ++ drop 4 old) ≡ v
word_at-word_bytes v old size small = rw (drop-all 4 old (omega arith)) (omega arith)

module _ (h : Host) (law : DecodesItems h) where
  pub decode_field-byte_string :
      (old bs : Bytes) (is : List CborItem)
      → length bs ≤ length old
      → decode_field h old (h.cbor.encode (byte_string bs ∷ is))
        ≡ ok (record {
          bytes_f = bs ++ drop (length bs) old;
          len_f = length bs;
          type_f = byte_string_type;
          rest_f = h.cbor.encode is;
        })
  unfolding decode_field cbor_decoder
  decode_field-byte_string old bs is fits =
      let (size, parsed, behind) = law.parse-byte_string bs is in
      rw (parsed, le→ltb (length old) (length bs) fits, store-ok old bs fits, behind) refl

  pub decode_field_small :
      (old bs : Bytes) (is : List CborItem)
      → length old < length bs
      → decode_field h old (h.cbor.encode (byte_string bs ∷ is))
        ≡ err cbor_byte_string_buffer_to_small
  unfolding decode_field cbor_decoder
  decode_field_small old bs is short =
      let (size, parsed, behind) = law.parse-byte_string bs is in
      rw (parsed, lt→ltb (length old) (length bs) short) refl

  -- A number of 32 bits that comes first.
  abbrev pub Reads : List CborItem → List CborItem → ℕ → Type 0
  Reads items is v =
      (size : ℕ) × (h.parse (h.cbor.encode items) ≡ integer_value v size)
      × (drop size (h.cbor.encode items) ≡ h.cbor.encode is)

  pub decode_field-number :
      (old : Bytes) (items is : List CborItem) (v : ℕ)
      → Reads items is v
      → 4 ≤ length old
      → decode_field h old (h.cbor.encode items)
        ≡ ok (record {
          bytes_f = word_bytes v ++ drop 4 old;
          len_f = 1;
          type_f = integer_type;
          rest_f = h.cbor.encode is;
        })
  unfolding decode_field cbor_decoder
  decode_field-number old items is v (size, parsed, behind) fits =
      rw (parsed, store-ok old (word_bytes v) fits, behind) refl

  -- The `int` is stored whatever the room is.
  pub decode_field_overflow :
      (old : Bytes) (items is : List CborItem) (v : ℕ)
      → Reads items is v
      → length old < 4
      → decode_field h old (h.cbor.encode items) ≡ fault
  unfolding decode_field cbor_decoder
  decode_field_overflow old items is v (size, parsed, behind) short =
      let too_long : leb 4 (length old) ≡ false = ground arith in rw (parsed, too_long) refl

  pub decode_int-number :
      (old : Bytes) (items is : List CborItem) (v room : ℕ)
      → Reads items is v
      → length old ≡ 4
      → v < 2 ^ 32
      → decode_int h old (h.cbor.encode items) room
        ≡ ok (record { value = v; int_len = 1; int_rest = h.cbor.encode is })
  unfolding decode_int cbor_decoder
  decode_int-number old items is v room (size, parsed, behind) four small =
      rw
        (
          parsed,
          store-ok old (word_bytes v) (omega arith),
          word_at-word_bytes v old four small,
          behind,
        )
        refl

  -- An identifier of one byte is a number; 24 more, in a byte, is the identifier.
  pub identifier_item-Reads :
      (c : ℕ) (is : List CborItem)
      → IsByte c
      → (v : ℕ) × Reads (identifier_item c ∷ is) is v × (v < 2 ^ 32) × ((v + 24) % 2 ^ 8 ≡ c)
  identifier_item-Reads c is small = elim (Bool-cases (ltb c 24)) [
    | inl below ↦
        let less = ltb→lt c 24 below in
        (
          2 ^ 32 - 1 - (23 - c),
          rw below (law.parse-negint (23 - c) is (omega arith)),
          omega arith,
          omega arith,
        )
    | inr above ↦
        let more : 24 ≤ c = ground arith in
        (c - 24, rw above (law.parse-int (c - 24) is (omega arith)), omega arith, omega arith)
  ]
