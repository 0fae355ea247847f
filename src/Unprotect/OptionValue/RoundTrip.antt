-- ===== src/Unprotect/OptionValue/RoundTrip.antt =====
-- The receiver takes the value of the OSCORE option apart as the sender has put it together.
use uoscore_uedhoc.Base.{
  Result, [], ap, append_assoc, arith, drop-append, false, length, length-append, ok, refl, some,
  suc, true, ℕ, ◌%◌, ◌++◌, ◌+◌, ◌-◌, ◌/◌, ◌==◌, ◌^◌, ◌||◌, ◌∙◌, ◌∷◌, ◌≡◌, ◌≤◌,
}
use uoscore_uedhoc.Coap.{CoapOption, CoapPacket, CompressedOscoreOption}
use uoscore_uedhoc.Memory.{ByteArray, Bytes, Pointer, null_array, read}
use uoscore_uedhoc.Memory.Writes.{length-read, read-prefix}
use uoscore_uedhoc.Protect.OptionValue.{get_oscore_opt_val_len, oscore_option_generate}
use uoscore_uedhoc.Protect.OptionValue.Generate.{oscore_option_generate-option_value}
use uoscore_uedhoc.Protect.OptionValue.Layout.{flags, option_value}
use uoscore_uedhoc.Unprotect.OptionValue.{
  option_parser_loop, oscore_option_parser, parse_kid_context, parse_piv, parse_value,
}

-- What the parser finds in a value: each field, read out of the memory that it points to.
pub record ParsedFields : Type 0 where
  pub k : ℕ
  pub n : ℕ
  pub piv : Result Bytes
  pub kid_context : Result Bytes
  pub kid : Result Bytes

abbrev pub fields_of : CompressedOscoreOption → ParsedFields
fields_of o = record {
  k = o.k;
  n = o.n;
  piv = read o.piv.ptr o.piv.len;
  kid_context = read o.kid_context.ptr o.kid_context.len;
  kid = read o.kid.ptr o.kid.len;
}

abbrev pub oscore_with : Bytes → Bytes → CoapOption
oscore_with value rest = record {
  delta = 9;
  len = length value;
  value = some (value ++ rest);
  option_number = 9;
}

parse_value-plain :
    (pb kb rest : Bytes) (out : CompressedOscoreOption)
    → 1 ≤ length pb
    → length pb ≤ 5
    → length kb ≤ 7
    → (out' : CompressedOscoreOption) × (parse_value (oscore_with (option_value pb [] kb) rest) out
        ≡ ok out')
      × (fields_of out'
          ≡ record { k = 1; n = length pb; piv = ok pb; kid_context = ok []; kid = ok kb })
unfolding parse_value parse_piv parse_kid_context read
parse_value-plain pb kb rest out pos small short =
    let p = length pb in
    let total : length (option_value pb [] kb) ≡ suc (p + length kb) =
      omega (arith, length-append pb kb) in
    let some_value : (suc (p + length kb) == 0) ≡ false = ground arith in
    let h : (p + 0 + 8) / 2 ^ 4 % 2 ≡ 0 = omega arith in
    let k : (p + 0 + 8) / 2 ^ 3 % 2 ≡ 1 = omega arith in
    let n : (p + 0 + 8) % 8 ≡ p = omega arith in
    let nonzero : (p == 0) ≡ false = ground arith in
    let valid : (p == 6 || p == 7) ≡ false = ground arith in
    let left : ((suc (p + length kb) % 256 + 255) % 256 + 256 - p) % 256 ≡ length kb =
      omega arith in
    let tail : (pb ++ kb) ++ rest ≡ pb ++ (kb ++ rest) = append_assoc pb kb rest in
    let skip = drop-append p pb (kb ++ rest) refl in
    (
      record {
        h = 0;
        k = 1;
        n = p;
        piv = record { len = p; ptr = some (pb ++ (kb ++ rest)) };
        kid_context = null_array;
        kid = record { len = length kb; ptr = some (kb ++ rest) };
      },
      rw (total, some_value, h, k, n, nonzero, valid, tail, skip, left) refl,
      (λ i. record {
        k = 1;
        n = p;
        piv = read-prefix pb (kb ++ rest) i;
        kid_context = ok [];
        kid = read-prefix kb rest i;
      }),
    )

parse_value-context :
    (c : ℕ) (pb cb kb rest : Bytes) (out : CompressedOscoreOption)
    → 1 ≤ length pb
    → length pb ≤ 5
    → length cb ≤ 7
    → length kb ≤ 7
    → (out' : CompressedOscoreOption) × (parse_value
          (oscore_with (option_value pb (c ∷ cb) kb) rest)
          out
        ≡ ok out')
      × (fields_of out'
          ≡ record { k = 1; n = length pb; piv = ok pb; kid_context = ok (c ∷ cb); kid = ok kb })
unfolding parse_value parse_piv parse_kid_context
parse_value-context c pb cb kb rest out pos small few short =
    let p = length pb in
    let m = length (c ∷ cb) in
    let total : length (option_value pb (c ∷ cb) kb) ≡ suc (p + 1 + m + length kb) =
      omega (arith, length-append pb ((m ∷ c ∷ cb) ++ kb), length-append (m ∷ c ∷ cb) kb) in
    let some_value : (suc (p + 1 + m + length kb) == 0) ≡ false = ground arith in
    let flag : flags p m ≡ p + 16 + 8 = ground arith in
    let h : (p + 16 + 8) / 2 ^ 4 % 2 ≡ 1 = omega arith in
    let k : (p + 16 + 8) / 2 ^ 3 % 2 ≡ 1 = omega arith in
    let n : (p + 16 + 8) % 8 ≡ p = omega arith in
    let nonzero : (p == 0) ≡ false = ground arith in
    let valid : (p == 6 || p == 7) ≡ false = ground arith in
    let left : (((suc (p + 1 + m + length kb) % 256 + 255) % 256 + 256 - p) % 256 + 2 ^ 9 - (m + 1))
          % 256
        ≡ length kb =
      omega arith in
    let inner : ((m ∷ c ∷ cb) ++ kb) ++ rest ≡ m ∷ ((c ∷ cb) ++ (kb ++ rest)) =
      append_assoc (m ∷ c ∷ cb) kb rest in
    let tail : (pb ++ ((m ∷ c ∷ cb) ++ kb)) ++ rest ≡ pb ++ (m ∷ ((c ∷ cb) ++ (kb ++ rest))) =
      append_assoc pb ((m ∷ c ∷ cb) ++ kb) rest ∙ ap (λ (t : Bytes). pb ++ t) inner in
    let skip = drop-append p pb (m ∷ ((c ∷ cb) ++ (kb ++ rest))) refl in
    let skip₂ = drop-append m (c ∷ cb) (kb ++ rest) refl in
    (
      record {
        h = 1;
        k = 1;
        n = p;
        piv = record { len = p; ptr = some (pb ++ (m ∷ ((c ∷ cb) ++ (kb ++ rest)))) };
        kid_context = record { len = m; ptr = some ((c ∷ cb) ++ (kb ++ rest)) };
        kid = record { len = length kb; ptr = some (kb ++ rest) };
      },
      rw (total, some_value, flag, h, k, n, nonzero, valid, tail, skip, skip₂, left) refl,
      (λ i. record {
        k = 1;
        n = p;
        piv = read-prefix pb (m ∷ ((c ∷ cb) ++ (kb ++ rest))) i;
        kid_context = read-prefix (c ∷ cb) (kb ++ rest) i;
        kid = read-prefix kb rest i;
      }),
    )

parse_value-option_value :
    (pb cb kb rest : Bytes) (out : CompressedOscoreOption)
    → 1 ≤ length pb
    → length pb ≤ 5
    → length cb ≤ 8
    → length kb ≤ 7
    → (out' : CompressedOscoreOption) × (parse_value (oscore_with (option_value pb cb kb) rest) out
        ≡ ok out')
      × (fields_of out'
          ≡ record { k = 1; n = length pb; piv = ok pb; kid_context = ok cb; kid = ok kb })
parse_value-option_value pb [] kb rest out pos small few short =
    parse_value-plain pb kb rest out pos small short
parse_value-option_value pb (c ∷ cb) kb rest out pos small few short =
    parse_value-context c pb cb kb rest out pos small (omega arith) short

-- The OSCORE option that `oscore_option_generate` makes of a Partial IV of 1 to 5 bytes, a KID of at most 7
-- and a KID context of at most 8, in the buffer of 22 bytes, is found by `oscore_option_parser` in a packet
-- whose one option it is, and taken apart into the same three byte strings, whatever the struct held before.
pub oscore_option_parser-oscore_option_generate :
    (piv kid kid_context : ByteArray) (pb kb cb buf : Bytes) (packet : CoapPacket)
    (out : CompressedOscoreOption)
    → read piv.ptr piv.len ≡ ok pb
    → read kid.ptr kid.len ≡ ok kb
    → read kid_context.ptr kid_context.len ≡ ok cb
    → 1 ≤ piv.len
    → piv.len ≤ 5
    → kid.len ≤ 7
    → kid_context.len ≤ 8
    → length buf ≡ 22
    → (value : Pointer) × (out' : CompressedOscoreOption) × (oscore_option_generate piv kid
          kid_context
          (get_oscore_opt_val_len piv kid kid_context)
          buf
        ≡ ok value)
      × (oscore_option_parser
            (record packet {
              options =
                  record {
                    delta = 9;
                    len = get_oscore_opt_val_len piv kid kid_context;
                    value = value;
                    option_number = 9;
                  }
                  ∷ [];
            })
            out
          ≡ ok (out', true))
      × (fields_of out'
          ≡ record { k = 1; n = piv.len; piv = ok pb; kid_context = ok cb; kid = ok kb })
unfolding oscore_option_parser option_parser_loop
oscore_option_parser-oscore_option_generate piv kid kid_context pb kb cb buf packet out hp hk hc pos
      small short few size =
    let lp = length-read piv.ptr piv.len hp in
    let lk = length-read kid.ptr kid.len hk in
    let lc = length-read kid_context.ptr kid_context.len hc in
    let (rest, made, len) =
      oscore_option_generate-option_value piv kid kid_context pb kb cb buf hp hk hc pos small short
        few size in
    let (out', parses, same) =
      parse_value-option_value pb cb kb rest out (omega arith) (omega arith) (omega arith)
        (omega arith) in
    (
      some (option_value pb cb kb ++ rest),
      out',
      made,
      rw (len, parses) refl,
      same
          ∙ ap (λ (n : ℕ). record { k = 1; n = n; piv = ok pb; kid_context = ok cb; kid = ok kb })
              lp,
    )
