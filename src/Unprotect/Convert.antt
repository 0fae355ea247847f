-- ===== src/Unprotect/Convert.antt =====
-- `oscore2coap` of modules/oscore/src/oscore2coap.c: from an OSCORE packet in a buffer to a CoAP packet in
-- a buffer. What the call finds in its own arrays comes in as `Found`.
pub mod Guards
use uoscore_uedhoc.Base.{
  Bool, List, Option, Result, err, false, fault, if◌then◌else◌, kid_recipent_id_mismatch, ltb, none,
  ok, some, true, ℕ, ◌-◌, ◌>>=◌,
}
use uoscore_uedhoc.Coap.{CoapOption, CoapPacket, CompressedOscoreOption}
use uoscore_uedhoc.Coap.Parse.{buf2coap}
use uoscore_uedhoc.Coap.Serialize.{coap2buf}
use uoscore_uedhoc.Context.{Context, server}
use uoscore_uedhoc.Context.Update.{M, context_update, ◌then_do◌}
use uoscore_uedhoc.Crypto.{cose_decrypt}
use uoscore_uedhoc.Memory.{ByteArray, Bytes, array_equals, read}
use uoscore_uedhoc.Platform.{Cbor, TinyCrypt}
use uoscore_uedhoc.Protect.Convert.{auth_tag_len, is_request}
use uoscore_uedhoc.Unprotect.OptionValue.{oscore_option_parser}
use uoscore_uedhoc.Unprotect.Payload.RoundTrip.{plaintext}
use uoscore_uedhoc.Unprotect.Reorder.{o_coap_pkg_generate}

pub record Found : Type 0 where
  pub oscore_option : CompressedOscoreOption
  pub u_behind : List CoapOption
  pub e_behind : List CoapOption

-- The guard on the KID of a request, and the update that follows it. A response changes nothing.
unfoldable pub matching_kid : Result Bool → M (Unit {0}) → M (Unit {0})
matching_kid (ok true) m c = m c
matching_kid (ok false) m c = (err kid_recipent_id_mismatch, c)
matching_kid (err e) m c = (err e, c)
matching_kid fault m c = (fault, c)

unfoldable pub receiver_update :
    Cbor → TinyCrypt → Bool → CompressedOscoreOption → List CoapOption → M (Unit {0})
receiver_update cbor tc false option options c = (ok tt, c)
receiver_update cbor tc true option options c =
    matching_kid (array_equals c.rc.recipient_id option.kid)
      (context_update cbor tc server options option.piv option.kid_context) c

-- `payload_decrypt`, into an array that is shorter than the ciphertext by the tag.
unfoldable pub payload_decrypt : Cbor → TinyCrypt → Context → CoapPacket → Result ByteArray
payload_decrypt cbor tc c packet = if ltb packet.payload_len auth_tag_len then fault else (do
  ciphertext ← read packet.payload packet.payload_len
  nonce ← read c.rrc.nonce.ptr c.rrc.nonce.len
  aad ← read c.rrc.aad.ptr c.rrc.aad.len
  key_bytes ← read c.rc.recipient_key.ptr c.rc.recipient_key.len
  let len = packet.payload_len - auth_tag_len
  plaintext ← cose_decrypt cbor tc ciphertext len nonce aad key_bytes
  ok (record { len = len; ptr = some plaintext }))

-- From the updated context on.
unfoldable pub deliver : Cbor → TinyCrypt → Found → ℕ → CoapPacket → Context → Result (ℕ × Bytes)
deliver cbor tc found capacity packet c = do
  plaintext ← payload_decrypt cbor tc c packet
  o_coap_packet ← o_coap_pkg_generate plaintext packet found.u_behind found.e_behind
  coap2buf o_coap_packet capacity

-- The packet and its OSCORE option, or none if it is not an OSCORE packet.
unfoldable pub oscore_received :
    CompressedOscoreOption → ByteArray → Result (Option (CoapPacket × CompressedOscoreOption))
oscore_received initial buf_in = do
  packet ← buf2coap buf_in
  (option, oscore_pkt) ← oscore_option_parser packet initial
  ok (if oscore_pkt then some (packet, option) else none)

unfoldable pub unprotect :
    Cbor
    → TinyCrypt
    → Found
    → ℕ
    → Result (Option (CoapPacket × CompressedOscoreOption))
    → M (Option (ℕ × Bytes))
unprotect cbor tc found capacity (ok none) = λ c. (ok none, c)
unprotect cbor tc found capacity (ok (some (packet, option))) =
    receiver_update cbor tc (is_request packet.header.code) option packet.options then_do λ c.
    (do out ← deliver cbor tc found capacity packet c; ok (some out), c)
unprotect cbor tc found capacity (err e) = λ c. (err e, c)
unprotect cbor tc found capacity fault = λ c. (fault, c)

-- The result is none where the code returns with `oscore_pkg_flag` false, which leaves `buf_out` alone.
unfoldable pub oscore2coap : Cbor → TinyCrypt → Found → ByteArray → ℕ → M (Option (ℕ × Bytes))
oscore2coap cbor tc found buf_in capacity =
    unprotect cbor tc found capacity (oscore_received found.oscore_option buf_in)
