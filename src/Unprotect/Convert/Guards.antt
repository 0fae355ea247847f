-- ===== src/Unprotect/Convert/Guards.antt =====
-- What `oscore2coap` does before and without the decryption.
use uoscore_uedhoc.Base.{
  All, List, [], arith, authentication_error, err, false, kid_recipent_id_mismatch, length, ltb,
  none, ok, refl, some, true, ℕ, ◌==◌, ◌∷◌, ◌≡◌, ◌≢◌, ◌≤◌,
}
use uoscore_uedhoc.Coap.{CoapOption, CoapPacket, CompressedOscoreOption}
use uoscore_uedhoc.Coap.Parse.{buf2coap}
use uoscore_uedhoc.Context.{Context}
use uoscore_uedhoc.Crypto.{aes_ccm_16_64_128, authenticated, cose_decrypt, run_ccm}
use uoscore_uedhoc.Memory.{ByteArray, Bytes, array_equals, read}
use uoscore_uedhoc.OptionClass.{coap_option_oscore}
use uoscore_uedhoc.Platform.{Cbor, TinyCrypt}
use uoscore_uedhoc.Protect.Convert.{auth_tag_len, is_request}
use uoscore_uedhoc.Unprotect.Convert.{
  Found, deliver, matching_kid, oscore2coap, payload_decrypt, oscore_received, receiver_update,
  unprotect,
}
use uoscore_uedhoc.Unprotect.OptionValue.{option_parser_loop, oscore_option_parser}

option_parser_loop_none :
    (os : List CoapOption) (out : CompressedOscoreOption)
    → All (λ (o : CoapOption). o.option_number ≢ coap_option_oscore) os
    → option_parser_loop os out false ≡ ok (out, false)
unfolding option_parser_loop
option_parser_loop_none [] out h = refl
option_parser_loop_none (o ∷ os) out h =
    let n : (o.option_number == coap_option_oscore) ≡ false = ground arith in
    rw (n, option_parser_loop_none os out h.1)

-- A received packet without an OSCORE option is left alone: no output, no error, and the same context.
pub oscore2coap_plain :
    (cbor : Cbor) (tc : TinyCrypt) (found : Found) (buf : ByteArray) (capacity : ℕ) (c : Context)
    (packet : CoapPacket)
    → buf2coap buf ≡ ok packet
    → All (λ (o : CoapOption). o.option_number ≢ coap_option_oscore) packet.options
    → oscore2coap cbor tc found buf capacity c ≡ (ok none, c)
unfolding oscore2coap unprotect oscore_received oscore_option_parser
oscore2coap_plain cbor tc found buf capacity c packet e h =
    rw (e, option_parser_loop_none packet.options found.oscore_option h)

-- A request whose KID is not the Recipient ID of the context is refused, before anything is decrypted or
-- derived: the context stays the same.
oscore2coap_mismatch :
    (cbor : Cbor) (tc : TinyCrypt) (found : Found) (buf : ByteArray) (capacity : ℕ) (c : Context)
    (packet : CoapPacket) (option : CompressedOscoreOption)
    → oscore_received found.oscore_option buf ≡ ok (some (packet, option))
    → is_request packet.header.code ≡ true
    → array_equals c.rc.recipient_id option.kid ≡ ok false
    → oscore2coap cbor tc found buf capacity c ≡ (err kid_recipent_id_mismatch, c)
unfolding oscore2coap unprotect receiver_update matching_kid
oscore2coap_mismatch cbor tc found buf capacity c packet option e r m = rw (e, r, m)

-- A response whose ciphertext does not authenticate, under the nonce of the context and whatever additional
-- data, gives the authentication error and no output, and the context stays the same.
pub oscore2coap_forged :
    (cbor : Cbor) (tc : TinyCrypt) (found : Found) (buf : ByteArray) (capacity : ℕ) (c : Context)
    (packet : CoapPacket) (option : CompressedOscoreOption)
    (ciphertext nonce aad recipient_key : Bytes)
    → oscore_received found.oscore_option buf ≡ ok (some (packet, option))
    → is_request packet.header.code ≡ false
    → auth_tag_len ≤ packet.payload_len
    → read packet.payload packet.payload_len ≡ ok ciphertext
    → read c.rrc.nonce.ptr c.rrc.nonce.len ≡ ok nonce
    → read c.rrc.aad.ptr c.rrc.aad.len ≡ ok aad
    → read c.rc.recipient_key.ptr c.rc.recipient_key.len ≡ ok recipient_key
    → tc.ccm_config (length nonce) ≡ true
    → ((n : ℕ) (external : Bytes) → tc.ccm_decrypt recipient_key nonce n external ciphertext ≡ none)
    → oscore2coap cbor tc found buf capacity c ≡ (err authentication_error, c)
unfolding oscore2coap unprotect receiver_update deliver payload_decrypt cose_decrypt
    aes_ccm_16_64_128 run_ccm authenticated
oscore2coap_forged cbor tc found buf capacity c packet option ciphertext nonce aad recipient_key e r
      l h₁ h₂ h₃ h₄ config forged =
    let n : ltb packet.payload_len auth_tag_len ≡ false = ground arith in
    rw (e, r, n, h₁, h₂, h₃, h₄, config, forged)
