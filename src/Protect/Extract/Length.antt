-- ===== src/Protect/Extract/Length.antt =====
-- The length that is computed for the encrypted options, against what the encoder writes.
use uoscore_uedhoc.Base.{
  Bool-cases, List, [], arith, dest_buffer_to_small, err, false, inl, inr, length, length-append,
  refl, replicate, some, true, ℕ, ◌%◌, ◌++◌, ◌+◌, ◌-◌, ◌<◌, ◌==◌, ◌^◌, ◌∙◌, ◌∷◌, ◌≡◌, ◌≢◌, ◌≤◌,
}
use uoscore_uedhoc.Coap.{CoapOption, CoapPacket}
use uoscore_uedhoc.Coap.Encode.Render.{
  AllEncodable, IsEncodable, extension, length-value_bytes, option_prefix, render, value_bytes,
}
use uoscore_uedhoc.Coap.Parse.{sub16}
use uoscore_uedhoc.Coap.Serialize.{put_payload}
use uoscore_uedhoc.Coap.Serialize.Wire.{most, option_bytes-render}
use uoscore_uedhoc.Memory.{Buffer, Bytes, room, start}
use uoscore_uedhoc.Memory.Writes.{memcpy_s-ok, memcpy_s_small, put-ok, read-prefix, room-eq}
use uoscore_uedhoc.OptionClass.{is_class_e}
use uoscore_uedhoc.Protect.Extract.{counted_extra_bytes, e_u_options_extract, extract_loop}
use uoscore_uedhoc.Protect.Extract.Split.{delta_sum}
use uoscore_uedhoc.Protect.Plaintext.{plaintext_length, plaintext_setup}

-- All options are of class E, none with a delta or a length of 13, and all can be encoded.
abbrev pub AllProtected : ℕ → List CoapOption → Type 0
AllProtected nr [] = Unit
AllProtected nr (o ∷ os) =
    (is_class_e (nr + o.delta) ≡ true)
    × (o.delta ≢ 13)
    × (o.len ≢ 13)
    × IsEncodable o
    × AllProtected (nr + o.delta) os

length-extension : (v : ℕ) → v ≢ 13 → length (extension v) ≡ counted_extra_bytes v
unfolding extension counted_extra_bytes
length-extension v h = ground arith

length-header_counted :
    (o : CoapOption)
    → o.delta ≢ 13
    → o.len ≢ 13
    → length (option_prefix o.delta o.len)
      ≡ 1 + counted_extra_bytes o.delta + counted_extra_bytes o.len
unfolding option_prefix
length-header_counted o hd hl = omega (
  arith,
  length-append (extension o.delta) (extension o.len),
  length-extension o.delta hd,
  length-extension o.len hl,
)

counted_extra_bytes-le : (v : ℕ) → counted_extra_bytes v ≤ 2
unfolding counted_extra_bytes
counted_extra_bytes-le v = ground arith

length-render_cons :
    (o : CoapOption) (number : ℕ) (os : List CoapOption)
    → length (render (record o { option_number = number } ∷ os))
      ≡ length (option_prefix o.delta o.len) + length (value_bytes o) + length (render os)
unfolding render
length-render_cons o number os = omega (
  arith,
  length-append (option_prefix o.delta o.len) (value_bytes o ++ render os),
  length-append (value_bytes o) (render os),
)

extract_loop-length :
    (os : List CoapOption) (nr u_sum e_len : ℕ)
    → nr + delta_sum os < 256
    → e_len + most os < 2 ^ 16
    → AllProtected nr os
    → (extract_loop os nr nr u_sum e_len).e_options_len
      ≡ e_len + length (render (extract_loop os nr nr u_sum e_len).e_options)
unfolding extract_loop
extract_loop-length [] nr u_sum e_len h fits a = unfold render in omega arith
extract_loop-length (o ∷ os) nr u_sum e_len h fits a =
    let size = 1 + counted_extra_bytes o.delta + counted_extra_bytes o.len + o.len in
    let c₁ = counted_extra_bytes-le o.delta in
    let c₂ = counted_extra_bytes-le o.len in
    let n : (nr + o.delta) % 2 ^ 16 ≡ nr + o.delta = omega arith in
    let d : sub16 (nr + o.delta) nr ≡ o.delta = omega arith in
    let s : (nr + o.delta) % 256 ≡ nr + o.delta = omega arith in
    let l : (e_len + size) % 2 ^ 16 ≡ e_len + size = omega arith in
    let ih =
      extract_loop-length os (nr + o.delta) u_sum (e_len + size) (omega arith) (omega arith) a.4 in
    let tail = (extract_loop os (nr + o.delta) (nr + o.delta) u_sum (e_len + size)).e_options in
    rw (n, a.0, d, s, l)
      (omega (
        arith,
        ih,
        length-render_cons o (nr + o.delta) tail,
        length-header_counted o a.1 a.2,
        length-value_bytes o a.3,
      ))

-- Where every option of a packet is of class E and none has a delta or a length of 13, the length that is
-- computed for the encrypted options is that of their encoding. The option numbers stay below 256, and all
-- options together are shorter than 2^16 bytes.
pub e_options_len-render :
    (packet : CoapPacket)
    → delta_sum packet.options < 256
    → most packet.options < 2 ^ 16
    → AllProtected 0 packet.options
    → (e_u_options_extract packet).e_options_len
      ≡ length (render (e_u_options_extract packet).e_options)
unfolding e_u_options_extract
e_options_len-render packet h fits a =
    extract_loop-length packet.options 0 0 0 (omega arith) (omega arith) a ∙ omega arith

-- Such an option, numbered.
abbrev numbered : CoapOption → CoapOption
numbered o = record o { option_number = o.delta }

extract_single :
    (packet : CoapPacket) (o : CoapOption)
    → packet.options ≡ o ∷ []
    → is_class_e o.delta ≡ true
    → o.delta < 13
    → e_u_options_extract packet ≡ record {
      e_options = numbered o ∷ [];
      e_options_len = (1 + counted_extra_bytes o.len + o.len) % 2 ^ 16;
      u_options = [];
    }
unfolding e_u_options_extract extract_loop
extract_single packet o only e small =
    let n : (0 + o.delta) % 2 ^ 16 ≡ o.delta = omega arith in
    let d : sub16 o.delta 0 ≡ o.delta = omega arith in
    let m : o.delta % 256 ≡ o.delta = omega arith in
    let z : counted_extra_bytes o.delta ≡ 0 = unfold counted_extra_bytes in ground arith in
    let s : (0 + (1 + 0 + counted_extra_bytes o.len + o.len)) % 2 ^ 16
        ≡ (1 + counted_extra_bytes o.len + o.len) % 2 ^ 16 =
      omega arith in
    rw (only, n, e, d, m, z, s)

-- Its encoding takes 15 bytes, and 14 are counted.
length-render_thirteen :
    (o : CoapOption)
    → o.delta < 13
    → o.len ≡ 13
    → IsEncodable o
    → length (render (numbered o ∷ [])) ≡ 15
length-render_thirteen o small long there =
    let none_more : length (render []) ≡ 0 = unfold render in refl in
    let header_is : length (option_prefix o.delta o.len) ≡ 2 =
      unfold option_prefix extension in
      ground (arith, length-append (extension o.delta) (extension o.len)) in
    omega (arith, length-render_cons o o.delta [], length-value_bytes o there)

counted_thirteen : (n : ℕ) → n ≡ 13 → (1 + counted_extra_bytes n + n) % 2 ^ 16 ≡ 14
unfolding counted_extra_bytes
counted_thirteen n h = ground arith

module _ (packet : CoapPacket) (o : CoapOption) (small : o.delta < 13) (long : o.len ≡ 13)
    (there : IsEncodable o) where
  most_is : most (numbered o ∷ []) ≡ 18
  most_is = omega arith

  zeroes : Bytes
  zeroes = replicate (most (numbered o ∷ []) - length (render (numbered o ∷ []))) 0

  numbered_there : AllEncodable (numbered o ∷ [])
  numbered_there = (
    record {
      delta_fits = there.delta_fits;
      len_fits = there.len_fits;
      value_there = there.value_there;
    },
    tt,
  )

  -- The plaintext array of 15 bytes has room for the code and 14 bytes.
  options_refused : plaintext_setup packet (numbered o ∷ []) 15 ≡ err dest_buffer_to_small
  unfolding plaintext_setup zeroes
  options_refused =
      let l = length-render_thirteen o small long there in
      rw (
        put-ok (start 15) (packet.header.code ∷ []) (omega arith),
        option_bytes-render (numbered o ∷ []) numbered_there (omega (arith, most_is)),
        memcpy_s_small (record { size = 15; bytes = packet.header.code ∷ [] }) 14
            (some (render (numbered o ∷ []) ++ zeroes)) (length (render (numbered o ∷ [])))
            (omega arith),
      )

  -- With a payload the options fit, and the payload then lacks one byte.
  payload_refused :
      0 < packet.payload_len
      → packet.payload_len < 2 ^ 15
      → plaintext_setup packet (numbered o ∷ []) (16 + packet.payload_len)
        ≡ err dest_buffer_to_small
  unfolding plaintext_setup put_payload zeroes
  payload_refused pos fits =
      let capacity = 16 + packet.payload_len in
      let os = render (numbered o ∷ []) in
      let l = length-render_thirteen o small long there in
      let b₀ : Buffer = record { size = capacity; bytes = packet.header.code ∷ [] } in
      let b₁ : Buffer = record { size = capacity; bytes = (packet.header.code ∷ []) ++ os } in
      let b₂ : Buffer = record { size = capacity; bytes = b₁.bytes ++ (0xFF ∷ []) } in
      let t : (packet.payload_len == 0) ≡ false = ground arith in
      let l₁ = length-append b₁.bytes (0xFF ∷ []) in
      rw (
        put-ok (start capacity) (packet.header.code ∷ []) (omega arith),
        option_bytes-render (numbered o ∷ []) numbered_there (omega (arith, most_is)),
        memcpy_s-ok b₀ (room capacity (length b₀.bytes)) (some (os ++ zeroes)) (length os) os
            (read-prefix os zeroes) (omega (arith, room-eq capacity (length b₀.bytes)))
            (omega arith),
        t,
        put-ok b₁ (0xFF ∷ []) (omega arith),
        memcpy_s_small b₂ (room capacity (length b₂.bytes)) packet.payload packet.payload_len
            (omega (arith, room-eq capacity (length b₂.bytes))),
      )

-- A packet whose only option is of class E, with a delta below 13 and a value of 13 bytes, cannot be
-- protected, with a payload or without: the plaintext array comes out one byte too short for it.
pub plaintext_setup_thirteen :
    (packet : CoapPacket) (o : CoapOption)
    → packet.options ≡ o ∷ []
    → is_class_e o.delta ≡ true
    → o.delta < 13
    → o.len ≡ 13
    → IsEncodable o
    → packet.payload_len < 2 ^ 15
    → plaintext_setup packet
        (e_u_options_extract packet).e_options
        (plaintext_length packet (e_u_options_extract packet).e_options_len)
      ≡ err dest_buffer_to_small
plaintext_setup_thirteen packet o only e small long there fits =
    let r = extract_single packet o only e small in
    let c = counted_thirteen o.len long in
    rw (r, c)
      (elim (Bool-cases (packet.payload_len == 0)) [
        | inl none_left ↦
            let len_is : plaintext_length packet 14 ≡ 15 =
              unfold plaintext_length in rw none_left in
            rw len_is (options_refused packet o small long there)
        | inr some_left ↦
            let len_is : plaintext_length packet 14 ≡ 16 + packet.payload_len =
              unfold plaintext_length in rw some_left (omega arith) in
            rw len_is (payload_refused packet o small long there (ground arith) fits)
      ])
