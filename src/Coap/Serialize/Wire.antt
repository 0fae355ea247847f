-- ===== src/Coap/Serialize/Wire.antt =====
-- What `coap2buf` writes, in plain arithmetic, and where it stops.
use uoscore_uedhoc.Base.{
  ==_iff, Bool-cases, List, [], ap, append-nil, append_assoc, ap₂, arith, bit_or, false, fault,
  holds_below, holds_below_sound, if◌then◌else◌, inl, inr, length, length-append, length-take, ltb,
  ltb→le, ok, refl, replicate, some, suc, sym, take, true, zero, ℕ, ◌%◌, ◌*◌, ◌++◌, ◌+◌, ◌-◌, ◌/◌,
  ◌<◌, ◌==◌, ◌>>=◌, ◌^◌, ◌∙◌, ◌∷◌, ◌≡◌, ◌≤◌,
}
use uoscore_uedhoc.Coap.{CoapHeader, CoapOption, CoapPacket}
use uoscore_uedhoc.Coap.Encode.Render.{
  AllEncodable, length-option_prefix, length-value_bytes, option_prefix,
  options_into_byte_string-render, render, value_bytes,
}
use uoscore_uedhoc.Coap.Serialize.{
  coap2buf, header_bytes, option_bytes, put_payload, put_token, worst_length,
}
use uoscore_uedhoc.Memory.{Buffer, Bytes, Pointer, memory, put, room, start}
use uoscore_uedhoc.Memory.Writes.{memcpy_s-ok, put-ok, read-prefix, read-take, room-eq}

-- The bytes that are written for a packet.
unfoldable pub header_wire : CoapHeader → Bytes
header_wire h = (h.ver * 64 + h.type * 16 + h.tkl) ∷ h.code ∷ h.mid / 256 ∷ h.mid % 256 ∷ []

unfoldable pub payload_wire : ℕ → Pointer → Bytes
payload_wire zero payload = []
payload_wire (suc n) payload = 0xFF ∷ take (suc n) (memory payload)

abbrev pub token_bytes : CoapPacket → Bytes
token_bytes p = take p.header.tkl (memory p.token)

unfoldable pub wire : CoapPacket → Bytes
wire p =
    header_wire p.header
    ++ (token_bytes p ++ (render p.options ++ payload_wire p.payload_len p.payload))

-- The room that the options take at most.
abbrev pub most : List CoapOption → ℕ
most [] = 0
most (o ∷ os) = 5 + o.len + most os

-- A packet whose fields are in range and whose token, options and payload are there.
pub record IsWritable (p : CoapPacket) : Type 0 where
  pub ver_lt : p.header.ver < 4
  pub type_lt : p.header.type < 4
  pub tkl_lt : p.header.tkl < 16
  pub mid_lt : p.header.mid < 2 ^ 16
  pub token_there : p.header.tkl ≤ length (memory p.token)
  pub options : AllEncodable p.options
  pub options_fit : most p.options < 2 ^ 16
  pub payload_there : p.payload_len ≤ length (memory p.payload)

or_table :
    holds_below (λ x. bit_or (bit_or (x / 64 * 2 ^ 6) (x / 16 % 4 * 2 ^ 4)) (x % 16) == x) 256
    ≡ true
unfolding holds_below
or_table = refl

or_header :
    (v t k : ℕ)
    → v < 4
    → t < 4
    → k < 16
    → bit_or (bit_or (v * 2 ^ 6) (t * 2 ^ 4)) k ≡ v * 64 + t * 16 + k
or_header v t k hv ht hk =
    let x = v * 64 + t * 16 + k in
    let a : x / 64 ≡ v = omega arith in
    let b : x / 16 % 4 ≡ t = omega arith in
    let c : x % 16 ≡ k = omega arith in
    rw (a, b, c) at ((==_iff _ x).0 (holds_below_sound _ 256 or_table x (omega arith)))

pub header_bytes-header_wire :
    (p : CoapPacket) → IsWritable p → header_bytes p.header ≡ header_wire p.header
unfolding header_bytes header_wire
header_bytes-header_wire p w =
    ground (arith, or_header p.header.ver p.header.type p.header.tkl w.ver_lt w.type_lt w.tkl_lt)

worst_length-most :
    (os : List CoapOption) (acc : ℕ) → acc + most os < 2 ^ 16 → worst_length acc os ≡ acc + most os
unfolding worst_length
worst_length-most [] acc h = omega arith
worst_length-most (o ∷ os) acc h =
    let no_wrap : (acc + 1 + 2 + 2 + o.len) % 2 ^ 16 ≡ acc + 5 + o.len = omega arith in
    rw no_wrap (omega (arith, worst_length-most os (acc + 5 + o.len) (omega arith)))

pub length-render-le-most : (os : List CoapOption) → AllEncodable os → length (render os) ≤ most os
unfolding render
length-render-le-most [] e = omega arith
length-render-le-most (o ∷ os) e = omega (
  arith,
  length-append (option_prefix o.delta o.len) (value_bytes o ++ render os),
  length-append (value_bytes o) (render os),
  length-value_bytes o e.0,
  length-option_prefix o.delta o.len,
  length-render-le-most os e.1,
)

-- The temporary array always has room, whatever the deltas are.
pub option_bytes-render :
    (os : List CoapOption)
    → AllEncodable os
    → most os < 2 ^ 16
    → option_bytes os
      ≡ ok (length (render os), render os ++ replicate (most os - length (render os)) 0)
unfolding option_bytes
option_bytes-render os e h =
    let room_is : worst_length 0 os ≡ most os =
      omega (arith, worst_length-most os 0 (omega arith)) in
    rw (
      room_is,
      options_into_byte_string-render os (most os) e (omega arith) (length-render-le-most os e),
    )

pub put_token-token_bytes :
    (capacity : ℕ) (p : CoapPacket) (b : Buffer)
    → IsWritable p
    → b.size ≡ capacity
    → capacity < 2 ^ 16
    → length b.bytes + p.header.tkl ≤ capacity
    → put_token capacity p b ≡ ok (record b { bytes = b.bytes ++ token_bytes p })
unfolding put_token
put_token-token_bytes capacity p b w hb hc fits = elim (Bool-cases (ltb 0 p.header.tkl)) [
  | inl some_token ↦ rw some_token (
      memcpy_s-ok b (room capacity (length b.bytes)) p.token p.header.tkl (token_bytes p)
        (read-take p.token p.header.tkl w.token_there)
        (omega (arith, room-eq capacity (length b.bytes))) (omega arith))
  | inr no_token ↦
      let z : p.header.tkl ≡ 0 = omega (arith, ltb→le 0 p.header.tkl no_token) in
      rw no_token (
        ap (λ (bs : Bytes). ok (record b { bytes = bs }))
          (sym (ap (λ (n : ℕ). b.bytes ++ take n (memory p.token)) z ∙ append-nil b.bytes)))
]

pub put_payload-payload_wire :
    (capacity n : ℕ) (payload : Pointer) (b : Buffer)
    → n ≤ length (memory payload)
    → b.size ≡ capacity
    → capacity < 2 ^ 16
    → length b.bytes + length (payload_wire n payload) ≤ capacity
    → put_payload capacity n payload b ≡ ok (record b { bytes = b.bytes ++ payload_wire n payload })
unfolding put_payload payload_wire
put_payload-payload_wire capacity zero payload b h hb hc fits = rw append-nil
put_payload-payload_wire capacity (suc n) payload b h hb hc fits =
    let l₁ = length-append b.bytes (0xFF ∷ []) in
    let l₂ = length-take (suc n) (memory payload) in
    let tested : (suc n == 0) ≡ false = ground arith in
    rw (put-ok b (0xFF ∷ []) (omega arith), tested)
      (memcpy_s-ok (record b { bytes = b.bytes ++ (0xFF ∷ []) })
          (room capacity (length (b.bytes ++ (0xFF ∷ [])))) payload (suc n)
          (take (suc n) (memory payload)) (read-take payload (suc n) h)
          (omega (arith, room-eq capacity (length (b.bytes ++ (0xFF ∷ []))))) (omega arith)
        ∙ ap (λ (bs : Bytes). ok (record b { bytes = bs }))
            (append_assoc b.bytes (0xFF ∷ []) (take (suc n) (memory payload))))

pub length-payload_wire :
    (n : ℕ) (payload : Pointer)
    → n ≤ length (memory payload)
    → length (payload_wire n payload) ≡ (if n == 0 then 0 else n + 1)
unfolding payload_wire
length-payload_wire zero payload h = refl
length-payload_wire (suc n) payload h = ground (arith, length-take (suc n) (memory payload))

pub length-wire :
    (p : CoapPacket)
    → IsWritable p
    → length (wire p)
      ≡ 4 + p.header.tkl + length (render p.options) + length (payload_wire p.payload_len p.payload)
unfolding wire header_wire
length-wire p w = omega (
  arith,
  length-append (token_bytes p) (render p.options ++ payload_wire p.payload_len p.payload),
  length-append (render p.options) (payload_wire p.payload_len p.payload),
  length-take p.header.tkl (memory p.token),
  w.token_there,
)

-- The length that `coap2buf` reports.
reported_length :
    (p : CoapPacket)
    → IsWritable p
    → length (wire p) < 2 ^ 16
    → (if p.payload_len == 0
        then (4 + p.header.tkl + length (render p.options)) % 2 ^ 16
        else ((4 + p.header.tkl + length (render p.options)) % 2 ^ 16 + 1 + p.payload_len) % 2 ^ 16)
      ≡ length (wire p)
reported_length p w h =
    ground (arith, length-wire p w, length-payload_wire p.payload_len p.payload w.payload_there)

wire_assoc : (a b c d : Bytes) → ((a ++ b) ++ c) ++ d ≡ a ++ (b ++ (c ++ d))
wire_assoc a b c d = simp append_assoc

-- The header, the token and the options are written if they fit; the payload is what is left to write.
unfoldable pub front : CoapPacket → Bytes
front p = (header_wire p.header ++ token_bytes p) ++ render p.options

pub length-front :
    (p : CoapPacket)
    → IsWritable p
    → length (front p) ≡ 4 + p.header.tkl + length (render p.options)
unfolding front header_wire
length-front p w = omega (
  arith,
  length-append (header_wire p.header ++ token_bytes p) (render p.options),
  length-append (header_wire p.header) (token_bytes p),
  length-take p.header.tkl (memory p.token),
  w.token_there,
)

front-wire : (p : CoapPacket) → front p ++ payload_wire p.payload_len p.payload ≡ wire p
unfolding front wire
front-wire p =
    wire_assoc (header_wire p.header) (token_bytes p) (render p.options)
      (payload_wire p.payload_len p.payload)

pub coap2buf-front :
    (p : CoapPacket) (capacity : ℕ)
    → IsWritable p
    → capacity < 2 ^ 16
    → length (front p) ≤ capacity
    → coap2buf p capacity ≡ (
        put_payload capacity p.payload_len p.payload (record { size = capacity; bytes = front p })
        >>= λ b₃. ok (
          if p.payload_len == 0
              then (4 + p.header.tkl + length (render p.options)) % 2 ^ 16
              else ((4 + p.header.tkl + length (render p.options)) % 2 ^ 16 + 1 + p.payload_len)
                % 2 ^ 16,
          b₃.bytes,
        ))
unfolding coap2buf front
coap2buf-front p capacity w hc fits =
    let hw = header_wire p.header in
    let tk = token_bytes p in
    let os = render p.options in
    let zeroes : Bytes = replicate (most p.options - length os) 0 in
    let total = length-front p w in
    let l₀ : length hw ≡ 4 = unfold header_wire in refl in
    let l₁ = length-append hw tk in
    let lt : length tk ≡ p.header.tkl =
      omega (arith, length-take p.header.tkl (memory p.token), w.token_there) in
    let b₁ : Buffer = record { size = capacity; bytes = hw ++ tk } in
    rw (
      header_bytes-header_wire p w,
      put-ok (start capacity) hw (omega arith),
      put_token-token_bytes capacity p (record { size = capacity; bytes = hw }) w refl hc
          (omega arith),
      option_bytes-render p.options w.options w.options_fit,
      memcpy_s-ok b₁ (room capacity (length (hw ++ tk))) (some (os ++ zeroes)) (length os) os
          (read-prefix os zeroes) (omega (arith, room-eq capacity (length (hw ++ tk))))
          (omega arith),
    )

-- A packet whose fields are in range is written whole into an array that is long enough, and
-- `*out_byte_string_len` becomes the number of bytes written.
pub coap2buf-wire :
    (p : CoapPacket) (capacity : ℕ)
    → IsWritable p
    → capacity < 2 ^ 16
    → length (wire p) ≤ capacity
    → coap2buf p capacity ≡ ok (length (wire p), wire p)
coap2buf-wire p capacity w hc fits =
    let total = length-wire p w in
    let f = length-front p w in
    coap2buf-front p capacity w hc (omega arith)
    ∙ rw
        (put_payload-payload_wire capacity p.payload_len p.payload
          (record { size = capacity; bytes = front p }) w.payload_there refl hc (omega arith))
        (ap₂ (λ (n : ℕ) (bs : Bytes). ok (n, bs)) (reported_length p w (omega arith))
          (front-wire p))

pub coap2buf_marker_overflow :
    (p : CoapPacket) (capacity : ℕ)
    → IsWritable p
    → capacity < 2 ^ 16
    → capacity ≡ 4 + p.header.tkl + length (render p.options)
    → 0 < p.payload_len
    → coap2buf p capacity ≡ fault
coap2buf_marker_overflow p capacity w hc full payload =
    let f = length-front p w in
    coap2buf-front p capacity w hc (omega arith) ∙ (unfold put_payload put in ground arith)
