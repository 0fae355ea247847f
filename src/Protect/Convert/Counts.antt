-- ===== src/Protect/Convert/Counts.antt =====
-- What `coap2oscore` does to the security context.
use uoscore_uedhoc.Base.{List, ap, ok, refl, true, ℕ, ◌%◌, ◌+◌, ◌^◌, ◌∙◌, ◌≡◌}
use uoscore_uedhoc.Coap.{CoapOption, CoapPacket}
use uoscore_uedhoc.Context.{CommonContext, Context, RecipientContext, SenderContext, client}
use uoscore_uedhoc.Context.Update.{context_update}
use uoscore_uedhoc.Context.Update.Keeps.{
  Unshared, and_then-part, context_update-client-Keeps, settle-part,
}
use uoscore_uedhoc.Memory.{ByteArray, Bytes, null_array}
use uoscore_uedhoc.Platform.{Cbor, TinyCrypt}
use uoscore_uedhoc.Protect.Convert.{
  Scratch, coap2oscore, emit, is_request, next_piv, prepare, protect, sender_update,
}

-- What one message after another goes on with: all of a context but the fields that a request sets anew.
pub record Lasting : Type 0 where
  pub cc : CommonContext
  pub sc : SenderContext
  pub rc : RecipientContext
  pub kid : ByteArray
  pub kid_context : ByteArray

abbrev pub lasting : Context → Lasting
lasting c = record {
  cc = c.cc;
  sc = c.sc;
  rc = c.rc;
  kid = c.rrc.kid;
  kid_context = c.rrc.kid_context;
}

abbrev pub counted_on : Context → Context
counted_on c = record c { sc = record c.sc { sender_seq_num = (c.sc.sender_seq_num + 1) % 2 ^ 64 } }

next_piv-lasting : (c : Context) → lasting (next_piv c).1 ≡ lasting (counted_on c)
unfolding next_piv
next_piv-lasting c = settle-part lasting _ (λ a c₁. refl) _ (counted_on c)

sender_update-lasting :
    (cbor : Cbor) (tc : TinyCrypt) (options : List CoapOption) (c : Context)
    → lasting (sender_update cbor tc true options c).1 ≡ lasting (counted_on c)
unfolding sender_update
sender_update-lasting cbor tc options c =
    and_then-part lasting (next_piv c).0 (next_piv c).1
      (context_update cbor tc client options null_array null_array)
      (λ c₁. ap kept (context_update-client-Keeps cbor tc options null_array null_array c₁))
    ∙ next_piv-lasting c
  where
    kept : Unshared → Lasting
    kept u = record { cc = u.cc; sc = u.sc; rc = u.rc; kid = u.kid; kid_context = u.kid_context }

-- A request whose plaintext can be made counts the sender sequence number on by 1, in a uint64_t, whether
-- the conversion then fails or not, and changes nothing else that lasts: the keys, the identifiers and
-- the contexts stay.
pub coap2oscore-request-lasting :
    (cbor : Cbor) (tc : TinyCrypt) (scratch : Scratch) (buf : ByteArray) (capacity : ℕ)
    (c : Context) (packet : CoapPacket) (u_options : List CoapOption) (message : Bytes)
    → prepare scratch buf ≡ ok (packet, u_options, message)
    → is_request packet.header.code ≡ true
    → lasting (coap2oscore cbor tc scratch buf capacity c).1 ≡ lasting (counted_on c)
unfolding coap2oscore protect
coap2oscore-request-lasting cbor tc scratch buf capacity c packet u_options message e r =
    let s = sender_update cbor tc true packet.options c in
    rw (e, r)
      (and_then-part lasting s.0 s.1
          (λ c₁. (emit cbor tc scratch capacity packet u_options message c₁, c₁)) (λ c₁. refl)
        ∙ sender_update-lasting cbor tc packet.options c)
