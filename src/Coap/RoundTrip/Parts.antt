-- ===== src/Coap/RoundTrip/Parts.antt =====
-- The parts of a packet that `buf2coap` reads back: header, options, and what stands behind them.
use uoscore_uedhoc.Base.{
  List, Result, [], ap, arith, false, if◌then◌else◌, inl, inr, length, length-take, lt→ltb, map,
  none, ok, refl, some, suc, take, true, zero, ℕ, ◌%◌, ◌*◌, ◌++◌, ◌+◌, ◌-◌, ◌/◌, ◌<◌, ◌==◌, ◌^◌,
  ◌||◌, ◌∷◌, ◌≡◌, ◌≢◌, ◌≤◌, ◌⊎◌,
}
use uoscore_uedhoc.Coap.{CoapHeader, CoapOption, CoapPacket, Content, content, max_option_count}
use uoscore_uedhoc.Coap.Encode.Render.{option_prefix, render}
use uoscore_uedhoc.Coap.Parse.{options_end, read_header, read_options}
use uoscore_uedhoc.Coap.Parse.Options.{AllReadBack, IsNumbered, ReadsAs, parsed}
use uoscore_uedhoc.Coap.Serialize.Wire.{IsWritable, header_wire, payload_wire, token_bytes, wire}
use uoscore_uedhoc.Memory.{Bytes, Pointer, memory, read}

-- What a packet says, with its pointers read.
pub record PacketContent : Type 0 where
  pub header : CoapHeader
  pub token : Result Bytes
  pub options : List Content
  pub payload_len : ℕ
  pub payload : Result Bytes

abbrev pub packet_content : CoapPacket → PacketContent
packet_content p = record {
  header = p.header;
  token = read p.token p.header.tkl;
  options = map content p.options;
  payload_len = p.payload_len;
  payload = read p.payload p.payload_len;
}

-- No byte of these is the payload marker.
abbrev pub NoMarker : Bytes → Type 0
NoMarker [] = Unit
NoMarker (b ∷ bs) = (b ≢ 0xFF) × NoMarker bs

-- No value is so long that its length takes an extra byte.
abbrev pub AllShort : List CoapOption → Type 0
AllShort [] = Unit
AllShort (o ∷ os) = (o.len < 13) × AllShort os

pub short-ReadsAs :
    (v : ℕ) → v < 13 → ReadsAs (λ x. (x + 13) % 2 ^ 16) (λ x. (x + 269) % 2 ^ 16) v v
short-ReadsAs v h = record {
  no_byte = λ p. refl;
  one_byte = λ p q. absurd (omega arith);
  two_bytes = λ p. absurd (omega arith);
}

pub AllShort-AllReadBack :
    (os : List CoapOption)
    → AllShort os
    → AllReadBack (λ x. (x + 13) % 2 ^ 16) (λ x. (x + 269) % 2 ^ 16) os
AllShort-AllReadBack [] h = tt
AllShort-AllReadBack (o ∷ os) h = (short-ReadsAs o.len h.0, AllShort-AllReadBack os h.1)

-- The parser stops at the byte `b`: it is the marker, or no payload is left.
abbrev pub StopsAt : ℕ → ℕ → Type 0
StopsAt b left = (b ≡ 0xFF) ⊎ (left ≡ 0)

pub options_end-append :
    (xs : Bytes) (b : ℕ) (rest : Bytes) (left n : ℕ)
    → NoMarker xs
    → StopsAt b left
    → n + length xs < 2 ^ 16
    → options_end (length xs + left) (xs ++ (b ∷ rest)) n ≡ ok (b ∷ rest, left, n + length xs)
unfolding options_end
options_end-append [] b rest left n m s h = ground arith
options_end-append (x ∷ xs) b rest left n m s h =
    let ih = options_end-append xs b rest left (n + 1) m.1 s (omega arith) in
    let l : suc (length xs) + left - 1 ≡ length xs + left = omega arith in
    let w : (n + 1) % 2 ^ 16 ≡ n + 1 = omega arith in
    let t₁ : (x == 0xFF) ≡ false = ground arith in
    let t₂ : (suc (length xs) + left == 0) ≡ false = ground arith in
    let c : n + 1 + length xs ≡ n + suc (length xs) = omega arith in rw (t₁, t₂, l, w, ih, c)

pub read_options-append :
    (parse : Bytes → ℕ → Result (List CoapOption)) (xs : Bytes) (b : ℕ) (rest : Bytes) (left : ℕ)
    (os : List CoapOption)
    → NoMarker xs
    → StopsAt b left
    → length xs < 2 ^ 16
    → (xs ≡ [] → os ≡ [])
    → parse (xs ++ (b ∷ rest)) (length xs) ≡ ok os
    → read_options parse (xs ++ (b ∷ rest)) (length xs + left) ≡ ok (os, b ∷ rest, left)
unfolding read_options
read_options-append parse [] b rest left os m s h none_there parses =
    let t : (b == 0xFF || 0 + left == 0) ≡ true = ground arith in
    let z : 0 + left ≡ left = omega arith in rw (t, z, none_there refl)
read_options-append parse (x ∷ xs) b rest left os m s h none_there parses =
    let t₁ : (x == 0xFF) ≡ false = ground arith in
    let t₂ : (suc (length xs) + left == 0) ≡ false = ground arith in
    let z : 0 + suc (length xs) ≡ suc (length xs) = omega arith in
    rw (
      t₁,
      t₂,
      options_end-append (x ∷ xs) b rest left 0 m s (omega arith),
      z,
      lt→ltb 0 (suc (length xs)) (omega arith),
      parses,
    )

pub read_header-header_wire :
    (p : CoapPacket) (rest : Bytes)
    → IsWritable p
    → read_header (header_wire p.header ++ rest) ≡ ok p.header
unfolding read_header header_wire
read_header-header_wire p rest w = ap ok (λ i. record {
  ver =
      (let e : (p.header.ver * 64 + p.header.type * 16 + p.header.tkl) / 2 ^ 6 % 4 ≡ p.header.ver =
            omega arith in
          e)
        i;
  type =
      (let e : (p.header.ver * 64 + p.header.type * 16 + p.header.tkl) / 2 ^ 4 % 4 ≡ p.header.type =
            omega arith in
          e)
        i;
  tkl =
      (let e : (p.header.ver * 64 + p.header.type * 16 + p.header.tkl) % 16 ≡ p.header.tkl =
            omega arith in
          e)
        i;
  code = p.header.code;
  mid = (let e : p.header.mid / 256 * 256 + p.header.mid % 256 ≡ p.header.mid = omega arith in e) i;
})

-- The packet that is read: its pointers go into the buffer, which ends in `rest`.
unfoldable pub received_payload : ℕ → Pointer → Bytes → Pointer
received_payload n payload rest = if n == 0 then none else some (take n (memory payload) ++ rest)

unfoldable pub received : CoapPacket → Bytes → CoapPacket
received p rest = record {
  header = p.header;
  token =
      if p.header.tkl == 0
      then none
      else some
          (token_bytes p ++ (render p.options ++ (payload_wire p.payload_len p.payload ++ rest)));
  options = parsed p.options (payload_wire p.payload_len p.payload ++ rest) 0;
  payload_len = p.payload_len;
  payload = received_payload p.payload_len p.payload rest;
}

-- A packet that the reader takes back.
pub record IsReadable (p : CoapPacket) : Type 0 where
  pub writable : IsWritable p
  pub tkl_le : p.header.tkl ≤ 8
  pub numbered : IsNumbered 0 p.options
  pub short : AllShort p.options
  pub few : length p.options ≤ max_option_count
  pub no_marker : NoMarker (render p.options)
  pub fits : length (wire p) < 2 ^ 16

pub render-nil : (os : List CoapOption) → render os ≡ [] → os ≡ []
unfolding render option_prefix
render-nil [] e = refl
render-nil (o ∷ os) e = cc

-- What stands behind the options: the marker, or whatever is in memory behind the packet.
pub options_tail :
    (n : ℕ) (payload : Pointer) (behind : ℕ) (rest : Bytes)
    → n ≤ length (memory payload)
    → (b : ℕ) × (tail : Bytes) × (payload_wire n payload ++ (behind ∷ rest) ≡ b ∷ tail)
      × StopsAt b (length (payload_wire n payload))
      × (length (payload_wire n payload) - 1 ≡ n)
      × ((if length (payload_wire n payload) == 0 then none else some tail)
          ≡ received_payload n payload (behind ∷ rest))
unfolding payload_wire received_payload
options_tail zero payload behind rest h = (behind, rest, refl, inr refl, refl, refl)
options_tail (suc n) payload behind rest h =
    let l = length-take (suc n) (memory payload) in
    let t₁ : (suc n == 0) ≡ false = ground arith in
    let t₂ : (suc (length (take (suc n) (memory payload))) == 0) ≡ false = ground arith in
    (
      0xFF,
      take (suc n) (memory payload) ++ (behind ∷ rest),
      refl,
      inl refl,
      omega arith,
      rw (t₁, t₂),
    )
