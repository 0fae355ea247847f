-- ===== src/Coap/Serialize/Bounds.antt =====
-- `coap2buf` for arrays of every length.
use uoscore_uedhoc.Base.{
  ==_iff, Bool-cases, [], arith, dest_buffer_to_small, err, false, fault, if◌then◌else◌, inl, inr,
  leb, length, length-append, length-take, ltb, ltb→le, ltb→lt, lt→ltb, ok, refl, replicate, some,
  ℕ, ◌&&◌, ◌++◌, ◌+◌, ◌-◌, ◌<◌, ◌==◌, ◌^◌, ◌||◌, ◌∙◌, ◌∷◌, ◌≡◌, ◌≤◌,
}
use uoscore_uedhoc.Coap.{CoapPacket}
use uoscore_uedhoc.Coap.Encode.Render.{render}
use uoscore_uedhoc.Coap.Serialize.{coap2buf, header_bytes, put_payload, put_token}
use uoscore_uedhoc.Coap.Serialize.Wire.{
  IsWritable, coap2buf-front, coap2buf-wire, coap2buf_marker_overflow, front,
  header_bytes-header_wire, header_wire, length-front, length-payload_wire, length-wire, most,
  option_bytes-render, put_token-token_bytes, token_bytes, wire,
}
use uoscore_uedhoc.Memory.{Buffer, Bytes, memory, put, room, start}
use uoscore_uedhoc.Memory.Writes.{memcpy_s_small, put-ok, room-eq}

put_small : (b : Buffer) (bs : Bytes) → b.size < length b.bytes + length bs → put b bs ≡ fault
unfolding put
put_small b bs short = ground arith

-- The array ends in the header.
no_header : (p : CoapPacket) (capacity : ℕ) → capacity < 4 → coap2buf p capacity ≡ fault
unfolding coap2buf
no_header p capacity short =
    let four : length (header_bytes p.header) ≡ 4 = unfold header_bytes in refl in
    rw (put_small (start capacity) (header_bytes p.header) (omega arith)) refl

-- It ends in the token.
no_token :
    (p : CoapPacket) (capacity : ℕ)
    → capacity < 2 ^ 16
    → 4 ≤ capacity
    → capacity < 4 + p.header.tkl
    → coap2buf p capacity ≡ err dest_buffer_to_small
unfolding coap2buf put_token
no_token p capacity hc there short =
    let four : length (header_bytes p.header) ≡ 4 = unfold header_bytes in refl in
    let has_token = lt→ltb 0 p.header.tkl (omega arith) in
    let b₀ : Buffer = record { size = capacity; bytes = header_bytes p.header } in
    rw
      (
        put-ok (start capacity) (header_bytes p.header) (omega arith),
        has_token,
        memcpy_s_small b₀ (room capacity (length (header_bytes p.header))) p.token p.header.tkl
            (omega (arith, room-eq capacity (length (header_bytes p.header)))),
      )
      refl

-- It ends in the options.
no_options :
    (p : CoapPacket) (capacity : ℕ)
    → IsWritable p
    → capacity < 2 ^ 16
    → 4 + p.header.tkl ≤ capacity
    → capacity < 4 + p.header.tkl + length (render p.options)
    → coap2buf p capacity ≡ err dest_buffer_to_small
unfolding coap2buf
no_options p capacity w hc there short =
    let hw = header_wire p.header in
    let tk = token_bytes p in
    let os = render p.options in
    let zeroes : Bytes = replicate (most p.options - length os) 0 in
    let l₀ : length hw ≡ 4 = unfold header_wire in refl in
    let l₁ = length-append hw tk in
    let lt : length tk ≡ p.header.tkl =
      omega (arith, length-take p.header.tkl (memory p.token), w.token_there) in
    let b₁ : Buffer = record { size = capacity; bytes = hw ++ tk } in
    rw
      (
        header_bytes-header_wire p w,
        put-ok (start capacity) hw (omega arith),
        put_token-token_bytes capacity p (record { size = capacity; bytes = hw }) w refl hc
            (omega arith),
        option_bytes-render p.options w.options w.options_fit,
        memcpy_s_small b₁ (room capacity (length (hw ++ tk))) (some (os ++ zeroes)) (length os)
            (omega (arith, room-eq capacity (length (hw ++ tk)))),
      )
      refl

-- It ends in the payload, behind the marker.
no_payload :
    (p : CoapPacket) (capacity : ℕ)
    → IsWritable p
    → capacity < 2 ^ 16
    → 0 < p.payload_len
    → 4 + p.header.tkl + length (render p.options) < capacity
    → capacity < 4 + p.header.tkl + length (render p.options) + 1 + p.payload_len
    → coap2buf p capacity ≡ err dest_buffer_to_small
unfolding put_payload
no_payload p capacity w hc some_payload there short =
    let f = length-front p w in
    let nonzero : (p.payload_len == 0) ≡ false = ground arith in
    let b₂ : Buffer = record { size = capacity; bytes = front p } in
    let b₃ : Buffer = record { size = capacity; bytes = front p ++ (0xFF ∷ []) } in
    let l = length-append (front p) (0xFF ∷ []) in
    coap2buf-front p capacity w hc (omega arith)
    ∙ rw
        (
          nonzero,
          put-ok b₂ (0xFF ∷ []) (omega arith),
          memcpy_s_small b₃ (room capacity (length b₃.bytes)) p.payload p.payload_len
              (omega (arith, room-eq capacity (length b₃.bytes))),
        )
        refl

-- What `coap2buf` does for a packet whose fields are in range and arrays of every length below 2^16. It writes the
-- whole message and reports its length where the array is long enough for it. Where it is not, it writes past its
-- end if the header does not fit or if the array ends right in front of the payload marker, and else it refuses.
pub coap2buf_lem :
    (p : CoapPacket) (capacity : ℕ)
    → IsWritable p
    → capacity < 2 ^ 16
    → coap2buf p capacity ≡ (
        let front_len = 4 + p.header.tkl + length (render p.options) in
        if leb (length (wire p)) capacity
        then ok (length (wire p), wire p)
        else (if ltb capacity 4 || (capacity == front_len && ltb 0 p.payload_len)
            then fault
            else err dest_buffer_to_small))
coap2buf_lem p capacity w hc =
    let os_len = length (render p.options) in
    let total = length-wire p w in
    let pl = length-payload_wire p.payload_len p.payload w.payload_there in
    let front_len = 4 + p.header.tkl + os_len in
    elim (Bool-cases (leb (length (wire p)) capacity)) [
      | inl fits ↦ rw fits (coap2buf-wire p capacity w hc (ground arith))
      | inr long ↦
          let short : capacity < length (wire p) = ground arith in
          elim (Bool-cases (ltb capacity 4)) [
            | inl tiny ↦ rw (long, tiny) (no_header p capacity (ltb→lt capacity 4 tiny))
            | inr four ↦
                let there = ltb→le capacity 4 four in
                elim (Bool-cases (ltb capacity (4 + p.header.tkl))) [
                  | inl in_token ↦
                      let ends = ltb→lt capacity (4 + p.header.tkl) in_token in
                      let other : (capacity == front_len) ≡ false = ground arith in
                      rw (long, four, other) (no_token p capacity hc there ends)
                  | inr token ↦
                      let has_token = ltb→le capacity (4 + p.header.tkl) token in
                      elim (Bool-cases (ltb capacity front_len)) [
                        | inl in_options ↦
                            let ends = ltb→lt capacity front_len in_options in
                            let other : (capacity == front_len) ≡ false = ground arith in
                            rw (long, four, other) (no_options p capacity w hc has_token ends)
                        | inr options ↦
                            let has_options = ltb→le capacity front_len options in
                            let some_payload : 0 < p.payload_len = ground arith in
                            elim (Bool-cases (capacity == front_len)) [
                              | inl full ↦
                                  rw (long, four, full, lt→ltb 0 p.payload_len some_payload)
                                    (coap2buf_marker_overflow p capacity w hc
                                      ((==_iff capacity front_len).0 full) some_payload)
                              | inr more ↦
                                  rw (long, four, more)
                                    (no_payload p capacity w hc some_payload (ground arith)
                                      (ground arith))
                            ]
                      ]
                ]
          ]
    ]
