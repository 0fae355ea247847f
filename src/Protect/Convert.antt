-- ===== src/Protect/Convert.antt =====
-- `coap2oscore` of modules/oscore/src/coap2oscore.c: from a CoAP packet in a buffer to an OSCORE packet in a
-- buffer. What the call finds in its own arrays comes in as `Scratch`.
pub mod Counts
use uoscore_uedhoc.Base.{
  Bool, List, Result, bit_and, drop, err, false, fault, if◌then◌else◌, length, ltb, none, ok, some,
  take, true, value_len_to_long_error, ℕ, ◌%◌, ◌++◌, ◌+◌, ◌==◌, ◌>>=◌, ◌^◌,
}
use uoscore_uedhoc.Coap.{
  CoapOption, CoapPacket, code_class_mask, oscore_opt_value_len, request_class,
}
use uoscore_uedhoc.Coap.Parse.{buf2coap}
use uoscore_uedhoc.Coap.Serialize.{coap2buf}
use uoscore_uedhoc.Context.{Context, ReqRespContext, client}
use uoscore_uedhoc.Context.Piv.{sender_seq_num2piv}
use uoscore_uedhoc.Context.Update.{M, context_update, sets, ◌then_do◌}
use uoscore_uedhoc.Crypto.{cose_encrypt}
use uoscore_uedhoc.Memory.{ByteArray, Bytes, null_array, read}
use uoscore_uedhoc.Platform.{Cbor, TinyCrypt}
use uoscore_uedhoc.Protect.Extract.{e_u_options_extract}
use uoscore_uedhoc.Protect.OptionValue.{get_oscore_opt_val_len, oscore_option_generate}
use uoscore_uedhoc.Protect.Packet.{OscoreOption, oscore_pkg_generate}
use uoscore_uedhoc.Protect.Plaintext.{plaintext_length, plaintext_setup}
use uoscore_uedhoc.Unprotect.Payload.RoundTrip.{plaintext}

pub record Scratch : Type 0 where
  pub plaintext_bytes : Bytes
  pub option_buf : Bytes

abbrev pub auth_tag_len : ℕ
auth_tag_len = 8

-- `(CODE_CLASS_MASK & header.code) == 0`
abbrev pub is_request : ℕ → Bool
is_request code = bit_and code code_class_mask == request_class

-- Up to the plaintext: the packet, the unprotected options, and the `plaintext_len` bytes to encrypt.
unfoldable pub prepare : Scratch → ByteArray → Result (CoapPacket × List CoapOption × Bytes)
prepare scratch buf = do
  packet ← buf2coap buf
  let parts = e_u_options_extract packet
  let plaintext_len = plaintext_length packet parts.e_options_len
  b ← plaintext_setup packet parts.e_options plaintext_len
  ok (
    packet,
    parts.u_options,
    take plaintext_len (b.bytes ++ drop (length b.bytes) scratch.plaintext_bytes),
  )

-- `sender_seq_num2piv(c->sc.sender_seq_num++, &c->rrc.piv)`: the number, a uint64_t, counts on before the
-- call, whatever the call returns.
unfoldable pub next_piv : M (Unit {0})
next_piv c =
    sets (λ c₁. sender_seq_num2piv c.sc.sender_seq_num c₁.rrc.piv)
      (λ a c₁. record c₁ { rrc = record c₁.rrc { piv = a } })
      (record c { sc = record c.sc { sender_seq_num = (c.sc.sender_seq_num + 1) % 2 ^ 64 } })

-- The number, the nonce and the additional data are made anew for a request only.
unfoldable pub sender_update : Cbor → TinyCrypt → Bool → List CoapOption → M (Unit {0})
sender_update cbor tc true options =
    next_piv then_do context_update cbor tc client options null_array null_array
sender_update cbor tc false options = λ c. (ok tt, c)

-- The OSCORE option has a value in a request only.
unfoldable pub outer_option : Bool → Bytes → ReqRespContext → Result OscoreOption
outer_option false buf rrc = ok (record { len = 0; value = none })
outer_option true buf rrc = do
  let len = get_oscore_opt_val_len rrc.piv rrc.kid rrc.kid_context
  if ltb oscore_opt_value_len len then err value_len_to_long_error else (do
    value ← oscore_option_generate rrc.piv rrc.kid rrc.kid_context len buf
    ok (record { len = len; value = value }))

-- `plaintext_encrypt`, with the ciphertext as long as the plaintext and the tag.
unfoldable pub plaintext_encrypt : Cbor → TinyCrypt → Context → Bytes → Result Bytes
plaintext_encrypt cbor tc c plaintext = do
  nonce ← read c.rrc.nonce.ptr c.rrc.nonce.len
  aad ← read c.rrc.aad.ptr c.rrc.aad.len
  key_bytes ← read c.sc.sender_key.ptr c.sc.sender_key.len
  cose_encrypt cbor tc plaintext (length plaintext + auth_tag_len) nonce aad key_bytes

-- From the updated context on.
unfoldable pub emit :
    Cbor
    → TinyCrypt
    → Scratch
    → ℕ
    → CoapPacket
    → List CoapOption
    → Bytes
    → Context
    → Result (ℕ × Bytes)
emit cbor tc scratch capacity packet u_options plaintext c = do
  option ← outer_option (is_request packet.header.code) scratch.option_buf c.rrc
  ciphertext ← plaintext_encrypt cbor tc c plaintext
  oscore_pkt ←
      oscore_pkg_generate packet u_options (length plaintext + auth_tag_len) (some ciphertext)
        option
  coap2buf oscore_pkt capacity

-- The whole conversion, once the plaintext is there.
unfoldable pub protect :
    Cbor → TinyCrypt → Scratch → ℕ → Result (CoapPacket × List CoapOption × Bytes) → M (ℕ × Bytes)
protect cbor tc scratch capacity (ok (packet, u_options, plaintext)) =
    sender_update cbor tc (is_request packet.header.code) packet.options then_do λ c.
    (emit cbor tc scratch capacity packet u_options plaintext c, c)
protect cbor tc scratch capacity (err e) = λ c. (err e, c)
protect cbor tc scratch capacity fault = λ c. (fault, c)

-- `capacity` is `*buf_oscore_len` at the call.
unfoldable pub coap2oscore : Cbor → TinyCrypt → Scratch → ByteArray → ℕ → M (ℕ × Bytes)
coap2oscore cbor tc scratch buf_o_coap capacity =
    protect cbor tc scratch capacity (prepare scratch buf_o_coap)
