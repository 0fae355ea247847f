-- ===== src/Unprotect/Payload/RoundTrip.antt =====
-- The plaintext that one side makes is taken apart by the other.
use uoscore_uedhoc.Base.{
  List, Result, [], ap, append-nil, arith, drop, false, fault, if◌then◌else◌, inl, length,
  length-append, length-take, map, ok, refl, replicate, some, subst, suc, sym, take, zero, ℕ, ◌%◌,
  ◌++◌, ◌+◌, ◌-◌, ◌<◌, ◌==◌, ◌>>=◌, ◌^◌, ◌∙◌, ◌∷◌, ◌≡◌, ◌≤◌,
}
use uoscore_uedhoc.Coap.{CoapOption, CoapPacket, content}
use uoscore_uedhoc.Coap.Encode.{options_into_byte_string}
use uoscore_uedhoc.Coap.Encode.Render.{AllEncodable, options_into_byte_string-render, render}
use uoscore_uedhoc.Coap.Parse.{options_end, read_options, sub16}
use uoscore_uedhoc.Coap.Parse.Options.{
  AllReadBack, IsNumbered, content-parsed, minus-ReadsAs, options_parse_loop-render, parsed,
}
use uoscore_uedhoc.Coap.RoundTrip.Parts.{NoMarker, read_options-append, render-nil}
use uoscore_uedhoc.Coap.Serialize.Wire.{
  length-payload_wire, length-render-le-most, most, option_bytes-render, payload_wire,
  put_payload-payload_wire,
}
use uoscore_uedhoc.Memory.{Buffer, ByteArray, Bytes, Pointer, memory, null_array, read, room, start}
use uoscore_uedhoc.Memory.Writes.{memcpy_s-ok, put-ok, read-prefix, read-take, read-whole, room-eq}
use uoscore_uedhoc.Protect.Plaintext.{plaintext_length, plaintext_setup}
use uoscore_uedhoc.Unprotect.Payload.{
  e_options_slots, oscore_decrypted_payload_parser, oscore_packet_options_parser,
  packet_options_header,
}

AllEncodable-AllReadBack :
    (os : List CoapOption) → AllEncodable os → AllReadBack (λ x. sub16 x 13) (λ x. sub16 x 269) os
AllEncodable-AllReadBack [] e = tt
AllEncodable-AllReadBack (o ∷ os) e =
    (minus-ReadsAs o.len e.0.len_fits, AllEncodable-AllReadBack os e.1)

parser-render :
    (os : List CoapOption) (slots : ℕ) (rest : Bytes)
    → AllEncodable os
    → length os ≤ slots
    → length (render os) < 2 ^ 16
    → oscore_packet_options_parser (render os ++ rest) (length (render os)) slots
      ≡ ok (parsed os rest 0)
unfolding oscore_packet_options_parser packet_options_header
parser-render os slots rest e few fits =
    options_parse_loop-render (λ x. sub16 x 13) (λ x. sub16 x 269) os (length (render os)) slots 0 0
      rest e (AllEncodable-AllReadBack os e) few fits (omega arith)

-- The encrypted options that `options_into_byte_string` writes, whatever their deltas and lengths up to
-- 65266, are read back by `oscore_packet_options_parser`, whatever follows them: as many options, with the
-- same deltas, lengths, numbers and values.
pub oscore_packet_options_parser-options_into_byte_string :
    (os : List CoapOption) (capacity slots : ℕ) (rest : Bytes)
    → AllEncodable os
    → IsNumbered 0 os
    → length os ≤ slots
    → length (render os) ≤ capacity
    → length (render os) < 2 ^ 16
    → capacity < 2 ^ 32
    → (os' : List CoapOption) × ((options_into_byte_string os capacity >>= λ out.
          oscore_packet_options_parser (out.1.bytes ++ rest) out.0 slots)
        ≡ ok os')
      × (map content os' ≡ map content os)
oscore_packet_options_parser-options_into_byte_string os capacity slots rest e n few fits short hc =
    (
      parsed os rest 0,
      rw (options_into_byte_string-render os capacity e hc fits)
          (parser-render os slots rest e few short),
      content-parsed os rest 0 e n,
    )

-- The plaintext of a packet with the encrypted options `es`.
unfoldable pub plaintext : CoapPacket → List CoapOption → Bytes
plaintext p es = p.header.code ∷ (render es ++ payload_wire p.payload_len p.payload)

pub length-plaintext :
    (p : CoapPacket) (es : List CoapOption)
    → length (plaintext p es)
      ≡ 1 + length (render es) + length (payload_wire p.payload_len p.payload)
unfolding plaintext
length-plaintext p es =
    omega (arith, length-append (render es) (payload_wire p.payload_len p.payload))

pub plaintext_setup-plaintext :
    (p : CoapPacket) (es : List CoapOption)
    → AllEncodable es
    → most es < 2 ^ 16
    → p.payload_len ≤ length (memory p.payload)
    → length (plaintext p es) < 2 ^ 16
    → plaintext_setup p es (length (plaintext p es))
      ≡ ok (record { size = length (plaintext p es); bytes = plaintext p es })
unfolding plaintext_setup
plaintext_setup-plaintext p es e fits there short =
    let n = length (plaintext p es) in
    let os = render es in
    let zeroes : Bytes = replicate (most es - length os) 0 in
    let code : Bytes = p.header.code ∷ [] in
    let total = length-plaintext p es in
    let b₀ : Buffer = record { size = n; bytes = code } in
    let b₁ : Buffer = record { size = n; bytes = code ++ os } in
    rw
      (
        put-ok (start n) code (omega arith),
        option_bytes-render es e fits,
        memcpy_s-ok b₀ (room n (length b₀.bytes)) (some (os ++ zeroes)) (length os) os
            (read-prefix os zeroes) (omega (arith, room-eq n (length b₀.bytes))) (omega arith),
        put_payload-payload_wire n p.payload_len p.payload b₁ there refl short (omega arith),
      )
      (unfold plaintext in refl)

plaintext_length-plaintext :
    (p : CoapPacket) (es : List CoapOption)
    → p.payload_len ≤ length (memory p.payload)
    → length (plaintext p es) < 2 ^ 16
    → plaintext_length p (length (render es)) ≡ length (plaintext p es)
unfolding plaintext_length
plaintext_length-plaintext p es there short =
    ground (arith, length-plaintext p es, length-payload_wire p.payload_len p.payload there)

-- The payload array that is made where `left` bytes are left.
abbrev decoded : ℕ → Bytes → ByteArray
decoded left tail = if left == 0 then null_array else record { len = left - 1; ptr = some tail }

payload_array :
    (n : ℕ) (payload : Pointer)
    → 0 < n
    → n ≤ length (memory payload)
    → (q : ByteArray) × (decoded (length (payload_wire n payload)) (drop 1 (payload_wire n payload))
        ≡ q)
      × (q.len ≡ n)
      × (read q.ptr q.len ≡ read payload n)
unfolding payload_wire
payload_array zero payload some_payload h = absurd (omega arith)
payload_array (suc n) payload some_payload h =
    let front : Bytes = take (suc n) (memory payload) in
    let l : length front ≡ suc n = omega (arith, length-take (suc n) (memory payload)) in
    let t : (suc (length front) == 0) ≡ false = ground arith in
    let back : suc (length front) - 1 ≡ suc n = omega arith in
    (
      record { len = suc n; ptr = some front },
      rw (t, back),
      refl,
      read-whole front (suc n) l ∙ sym (read-take payload (suc n) h),
    )

-- The options end at the marker of the payload.
payload_marker :
    (n : ℕ) (payload : Pointer) → 0 < n → (tail : Bytes) × (payload_wire n payload ≡ 0xFF ∷ tail)
unfolding payload_wire
payload_marker zero payload some_payload = absurd (omega arith)
payload_marker (suc n) payload some_payload = (take (suc n) (memory payload), refl)

decode :
    (p : CoapPacket) (es : List CoapOption) (from : Bytes) (left : ℕ) (os : List CoapOption)
    → sub16 (length (plaintext p es)) 1 ≡ length (render es) + left
    → read_options
        (λ q m. oscore_packet_options_parser q m e_options_slots)
        (render es ++ payload_wire p.payload_len p.payload)
        (length (render es) + left)
      ≡ ok (os, from, left)
    → oscore_decrypted_payload_parser
        (record { len = length (plaintext p es); ptr = some (plaintext p es) })
      ≡ ok (p.header.code, os, decoded left (drop 1 from))
unfolding oscore_decrypted_payload_parser plaintext
decode p es from left os left_is parses = rw (left_is, parses)

-- The plaintext that `plaintext_setup` makes of a packet with a payload and of its encrypted options is taken
-- apart by `oscore_decrypted_payload_parser`, in an array of just its length as `payload_decrypt` has it, into the
-- same code, options and payload. There are at most 10 options, numbered by their deltas, no byte of their
-- encoding is 0xFF, and the whole plaintext is shorter than 2^16 bytes.
pub oscore_decrypted_payload_parser-plaintext_setup :
    (p : CoapPacket) (es : List CoapOption)
    → AllEncodable es
    → IsNumbered 0 es
    → length es ≤ 10
    → most es < 2 ^ 16
    → NoMarker (render es)
    → 0 < p.payload_len
    → p.payload_len ≤ length (memory p.payload)
    → 1 + most es + 1 + p.payload_len < 2 ^ 16
    → (es' : List CoapOption) × (payload : ByteArray) × ((plaintext_setup p es
            (plaintext_length p (length (render es)))
          >>= λ b. oscore_decrypted_payload_parser (record { len = b.size; ptr = some b.bytes }))
        ≡ ok (p.header.code, es', payload))
      × (map content es' ≡ map content es)
      × (payload.len ≡ p.payload_len)
      × (read payload.ptr payload.len ≡ read p.payload p.payload_len)
oscore_decrypted_payload_parser-plaintext_setup p es e n few fits no_marker some_payload there
      short =
    let os = render es in
    let pl = payload_wire p.payload_len p.payload in
    let (tail, tail_is) = payload_marker p.payload_len p.payload some_payload in
    let total = length-plaintext p es in
    let lp = length-payload_wire p.payload_len p.payload there in
    let lr = length-render-le-most es e in
    let pl_le : length pl ≤ 1 + p.payload_len = ground arith in
    let left : sub16 (length (plaintext p es)) 1 ≡ length os + length pl = omega arith in
    let empty : os ≡ [] → parsed es (0xFF ∷ tail) 0 ≡ [] = λ q.
      ap (λ (l : List CoapOption). parsed l (0xFF ∷ tail) 0) (render-nil es q)
      ∙ unfold parsed in refl in
    let got = payload_array p.payload_len p.payload some_payload there in
    let reads =
      read_options-append (λ q m. oscore_packet_options_parser q m e_options_slots) os 0xFF tail
        (length pl) (parsed es (0xFF ∷ tail) 0) no_marker (inl refl) (omega arith) empty
        (parser-render es e_options_slots (0xFF ∷ tail) e few (omega arith)) in
    (
      parsed es (0xFF ∷ tail) 0,
      got.0,
      rw
          (
            plaintext_length-plaintext p es there (omega arith),
            plaintext_setup-plaintext p es e fits there (omega arith),
          )
          (decode p es pl (length pl) (parsed es (0xFF ∷ tail) 0) left (
              subst
                (λ t.
                  read_options (λ q m. oscore_packet_options_parser q m e_options_slots) (os ++ t)
                    (length os + length pl)
                  ≡ ok (parsed es (0xFF ∷ tail) 0, t, length pl))
                (sym tail_is) reads)
            ∙ ap (λ (q : ByteArray). ok (p.header.code, parsed es (0xFF ∷ tail) 0, q)) got.1),
      content-parsed es (0xFF ∷ tail) 0 e n,
      got.2,
      got.3,
    )

options_end_overrun :
    (bs : Bytes) (n options_len : ℕ)
    → NoMarker bs
    → length bs ≤ n
    → options_end n bs options_len ≡ fault
unfolding options_end
options_end_overrun [] n options_len no_marker fits = refl
options_end_overrun (b ∷ bs) n options_len no_marker fits =
    let ih =
      options_end_overrun bs (n - 1) ((options_len + 1) % 2 ^ 16) no_marker.1 (omega arith) in
    let t₁ : (b == 0xFF) ≡ false = ground arith in
    let t₂ : (n == 0) ≡ false = ground arith in rw (t₁, t₂) ih

read_options_overrun :
    (parse : Bytes → ℕ → Result (List CoapOption)) (bs : Bytes)
    → NoMarker bs
    → read_options parse bs (length bs) ≡ fault
unfolding read_options
read_options_overrun parse [] no_marker = refl
read_options_overrun parse (b ∷ bs) no_marker =
    let t₁ : (b == 0xFF) ≡ false = ground arith in
    let t₂ : (suc (length bs) == 0) ≡ false = ground arith in
    rw (t₁, t₂, options_end_overrun (b ∷ bs) (suc (length bs)) 0 no_marker (omega arith)) refl

-- Without a payload there is no marker in the plaintext, and the parser reads the byte behind it: in the array of
-- just its length that is a read past the end, whatever the options are, if no byte of their
-- encoding is 0xFF and the plaintext is shorter than 2^16 bytes.
pub oscore_decrypted_payload_parser_overrun :
    (p : CoapPacket) (es : List CoapOption)
    → AllEncodable es
    → most es < 2 ^ 16
    → NoMarker (render es)
    → p.payload_len ≡ 0
    → 1 + most es + 1 < 2 ^ 16
    → (plaintext_setup p es (plaintext_length p (length (render es))) >>= λ b.
        oscore_decrypted_payload_parser (record { len = b.size; ptr = some b.bytes }))
      ≡ fault
oscore_decrypted_payload_parser_overrun p es e fits no_marker no_payload short =
    let parse = λ (q : Bytes) (m : ℕ). oscore_packet_options_parser q m e_options_slots in
    let total = length-plaintext p es in
    let lr = length-render-le-most es e in
    let there : p.payload_len ≤ length (memory p.payload) = omega arith in
    let lp = length-payload_wire p.payload_len p.payload there in
    let nothing : payload_wire p.payload_len p.payload ≡ [] =
      rw no_payload (unfold payload_wire in refl) in
    let all : plaintext p es ≡ p.header.code ∷ render es =
      unfold plaintext in rw (nothing, append-nil (render es)) refl in
    let left : sub16 (suc (length (render es))) 1 ≡ length (render es) = omega arith in
    let bound : length (plaintext p es) < 2 ^ 16 = rw all (omega arith) in
    rw
      (
        plaintext_length-plaintext p es there bound,
        plaintext_setup-plaintext p es e fits there bound,
        all,
      )
      (unfold oscore_decrypted_payload_parser in
        rw (left, read_options_overrun parse (render es) no_marker) refl)
