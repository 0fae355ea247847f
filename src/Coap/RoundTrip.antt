-- ===== src/Coap/RoundTrip.antt =====
-- Writing a packet with `coap2buf` and reading it with `buf2coap`.
pub mod Parts
use uoscore_uedhoc.Base.{
  List, [], ap, append_assoc, arith, drop-append, false, if◌then◌else◌, length, length-take, none,
  ok, refl, some, suc, sym, take, zero, ℕ, ◌%◌, ◌++◌, ◌+◌, ◌<◌, ◌==◌, ◌>>=◌, ◌^◌, ◌∙◌, ◌∷◌, ◌≡◌,
  ◌≤◌,
}
use uoscore_uedhoc.Coap.{CoapOption, CoapPacket, max_option_count}
use uoscore_uedhoc.Coap.Encode.Render.{render}
use uoscore_uedhoc.Coap.Parse.{buf2coap, buf2options, buf2options_header, read_token, sub16}
use uoscore_uedhoc.Coap.Parse.Options.{content-parsed, options_parse_loop-render, parsed}
use uoscore_uedhoc.Coap.Serialize.{coap2buf}
use uoscore_uedhoc.Coap.Serialize.Wire.{
  IsWritable, coap2buf-wire, header_wire, length-wire, payload_wire, token_bytes, wire,
}
use uoscore_uedhoc.Coap.RoundTrip.Parts.{
  AllShort, AllShort-AllReadBack, IsReadable, NoMarker, PacketContent, StopsAt, options_end-append,
  options_tail, packet_content, read_header-header_wire, read_options-append, received,
  received_payload, render-nil,
}
use uoscore_uedhoc.Memory.{Bytes, Pointer, memory, read}
use uoscore_uedhoc.Memory.Writes.{read-prefix, read-take}

read_token-le :
    (tkl : ℕ) (p : Bytes) → tkl ≤ 8 → read_token tkl p ≡ ok (if tkl == 0 then none else some p)
unfolding read_token
read_token-le tkl p h = ground arith

-- The length that is left behind the header and the token.
left_length :
    (p : CoapPacket)
    → IsReadable p
    → sub16 (sub16 (length (wire p)) 4) p.header.tkl
      ≡ length (render p.options) + length (payload_wire p.payload_len p.payload)
left_length p r = omega (arith, length-wire p r.writable, r.fits)

buf2options-render :
    (p : CoapPacket) (rest : Bytes)
    → IsReadable p
    → buf2options (render p.options ++ rest) (length (render p.options)) max_option_count
      ≡ ok (parsed p.options rest 0)
unfolding buf2options buf2options_header
buf2options-render p rest r =
    options_parse_loop-render (λ x. (x + 13) % 2 ^ 16) (λ x. (x + 269) % 2 ^ 16) p.options
      (length (render p.options)) max_option_count 0 0 rest r.writable.options
      (AllShort-AllReadBack p.options r.short) r.few
      (omega (arith, length-wire p r.writable, r.fits)) (omega arith)

buf2coap-wire :
    (p : CoapPacket) (behind : ℕ) (rest : Bytes)
    → IsReadable p
    → buf2coap (record { len = length (wire p); ptr = some (wire p ++ (behind ∷ rest)) })
      ≡ ok (received p (behind ∷ rest))
unfolding buf2coap received
buf2coap-wire p behind rest r =
    let w = r.writable in
    let hw = header_wire p.header in
    let tk = token_bytes p in
    let os = render p.options in
    let pl = payload_wire p.payload_len p.payload in
    let (b, tail, tail_is, stops, left_is, payload_is) =
      options_tail p.payload_len p.payload behind rest w.payload_there in
    let lt : length tk ≡ p.header.tkl =
      omega (arith, length-take p.header.tkl (memory p.token), w.token_there) in
    let split : wire p ++ (behind ∷ rest) ≡ hw ++ (tk ++ (os ++ (b ∷ tail))) =
      unfold wire in simp append_assoc (ap (λ (t : Bytes). hw ++ (tk ++ (os ++ t))) tail_is) in
    let l₀ : length hw ≡ 4 = unfold header_wire in refl in
    let empty : os ≡ [] → parsed p.options (b ∷ tail) 0 ≡ [] = λ e.
      ap (λ (l : List CoapOption). parsed l (b ∷ tail) 0) (render-nil p.options e)
      ∙ unfold parsed in refl in
    rw (
      split,
      read_header-header_wire p (tk ++ (os ++ (b ∷ tail))) w,
      drop-append 4 hw (tk ++ (os ++ (b ∷ tail))) l₀,
      read_token-le p.header.tkl (tk ++ (os ++ (b ∷ tail))) r.tkl_le,
      drop-append p.header.tkl tk (os ++ (b ∷ tail)) lt,
      left_length p r,
      read_options-append (λ q n. buf2options q n max_option_count) os b tail (length pl)
          (parsed p.options (b ∷ tail) 0) r.no_marker stops
          (omega (arith, total_length p w, r.fits)) empty (buf2options-render p (b ∷ tail) r),
      tail_is,
      left_is,
      payload_is,
    )
  where
    total_length : (q : CoapPacket) → IsWritable q → length (render q.options) ≤ length (wire q)
    total_length q w = omega (arith, length-wire q w)

-- A pointer that is NULL for no bytes, and else points to them and what follows.
pub read-pointer :
    (n : ℕ) (source : Pointer) (rest : Bytes)
    → n ≤ length (memory source)
    → read (if n == 0 then none else some (take n (memory source) ++ rest)) n ≡ read source n
read-pointer zero source rest h = unfold read in refl
read-pointer (suc n) source rest h =
    let t : (suc n == 0) ≡ false = ground arith in
    let front : Bytes = take (suc n) (memory source) in
    let l : length front ≡ suc n = omega (arith, length-take (suc n) (memory source)) in
    rw t (
      ap (λ (k : ℕ). read (some (front ++ rest)) k) (sym l)
      ∙ read-prefix front rest
      ∙ sym (read-take source (suc n) h))

received-packet_content :
    (p : CoapPacket) (rest : Bytes)
    → IsReadable p
    → packet_content (received p rest) ≡ packet_content p
unfolding received received_payload
received-packet_content p rest r =
    let w = r.writable in
    let pl = payload_wire p.payload_len p.payload ++ rest in
    λ i. record {
      header = p.header;
      token = read-pointer p.header.tkl p.token (render p.options ++ pl) w.token_there i;
      options = content-parsed p.options pl 0 w.options r.numbered i;
      payload_len = p.payload_len;
      payload = read-pointer p.payload_len p.payload rest w.payload_there i;
    }

-- What `coap2buf` writes into an array that is long enough, `buf2coap` reads back: the same header,
-- token, options and payload. There must be one more byte of memory behind the packet, whatever it
-- holds. No option value may be 13 bytes long or longer, no byte of the encoded options may be 0xFF, and
-- there are at most 20 options, numbered by their deltas.
pub buf2coap-coap2buf :
    (p : CoapPacket) (capacity behind : ℕ) (rest : Bytes)
    → IsReadable p
    → length (wire p) ≤ capacity
    → capacity < 2 ^ 16
    → (q : CoapPacket) × ((coap2buf p capacity >>= λ out.
          buf2coap (record { len = out.0; ptr = some (out.1 ++ (behind ∷ rest)) }))
        ≡ ok q)
      × (packet_content q ≡ packet_content p)
buf2coap-coap2buf p capacity behind rest r fits hc = (
  received p (behind ∷ rest),
  rw (coap2buf-wire p capacity r.writable hc fits) (buf2coap-wire p behind rest r),
  received-packet_content p (behind ∷ rest) r,
)
