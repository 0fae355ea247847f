-- ===== src/Context/Update/Server.antt =====
-- `context_update` on a server.
use uoscore_uedhoc.Base.{
  List, Result, ap, arith, dest_buffer_to_small, drop, err, false, fault, length, le→ltb, lt→ltb,
  ok, refl, some, true, ℕ, ◌++◌, ◌<◌, ◌==◌, ◌∙◌, ◌≡◌, ◌≤◌,
}
use uoscore_uedhoc.Coap.{CoapOption, max_piv_len}
use uoscore_uedhoc.Context.{CommonContext, Context, RecipientContext, SenderContext, server}
use uoscore_uedhoc.Context.Update.{
  and_then, calculate_aad, calculate_nonce, context_update, role_update, server_update,
  set_id_context, set_kid_context, set_piv, settle, unless_equal, update_keys, ◌then_do◌,
}
use uoscore_uedhoc.Context.Update.Keeps.{
  Unshared, and_then-part, calculate_aad-Keeps, calculate_nonce-Keeps, then_do-Keeps, unshared,
}
use uoscore_uedhoc.Memory.{ByteArray, Bytes, array_equals, copy_within, memcpy_s_over, read}
use uoscore_uedhoc.Memory.Writes.{read-take}
use uoscore_uedhoc.Platform.{Cbor, TinyCrypt}

-- What a new ID Context would derive anew, and the sender's counter.
pub record Keys : Type 0 where
  pub cc : CommonContext
  pub sc : SenderContext
  pub rc : RecipientContext

abbrev pub keys : Context → Keys
keys c = record { cc = c.cc; sc = c.sc; rc = c.rc }

server_update-keys :
    (cbor : Cbor) (tc : TinyCrypt) (new_piv new_kid_context : ByteArray) (c : Context)
    → array_equals c.cc.id_context new_kid_context ≡ ok true
    → keys (server_update cbor tc new_piv new_kid_context c).1 ≡ keys c
unfolding server_update set_piv unless_equal
server_update-keys cbor tc new_piv new_kid_context c same =
    after_piv (copy_within max_piv_len c.rrc.piv new_piv)
  where
    after_piv :
        (r : Result ByteArray)
        → keys
            (and_then (settle r (λ a c₁. record c₁ { rrc = record c₁.rrc { piv = a } }) c) (λ c₁.
              unless_equal
                (array_equals c₁.cc.id_context new_kid_context)
                (update_keys cbor tc new_kid_context)
                c₁)).1
          ≡ keys c
    after_piv (ok a) = rw same refl
    after_piv (err e) = refl
    after_piv fault = refl

-- A server that receives the KID context that is its ID Context keeps its common, sender and recipient
-- contexts, whether the call fails or not.
pub context_update-server-keys :
    (cbor : Cbor) (tc : TinyCrypt) (options : List CoapOption) (new_piv new_kid_context : ByteArray)
    (c : Context)
    → array_equals c.cc.id_context new_kid_context ≡ ok true
    → keys (context_update cbor tc server options new_piv new_kid_context c).1 ≡ keys c
unfolding context_update role_update
context_update-server-keys cbor tc options new_piv new_kid_context c same =
    let s = server_update cbor tc new_piv new_kid_context c in
    let rest =
      then_do-Keeps unshared calculate_nonce (calculate_aad cbor options) calculate_nonce-Keeps
        (calculate_aad-Keeps cbor options) in
    and_then-part keys s.0 s.1 (calculate_nonce then_do calculate_aad cbor options)
      (λ c₁. ap (λ (u : Unshared). record { cc = u.cc; sc = u.sc; rc = u.rc }) (rest c₁))
    ∙ server_update-keys cbor tc new_piv new_kid_context c same

copy_within-ok :
    (size : ℕ) (dest src : ByteArray) (m bs : Bytes)
    → dest.ptr ≡ some m
    → size ≤ length m
    → read src.ptr src.len ≡ ok bs
    → src.len ≤ size
    → copy_within size dest src
      ≡ ok (record { len = src.len; ptr = some (bs ++ drop (length bs) m) })
unfolding copy_within memcpy_s_over
copy_within-ok size dest src m bs at enough there fits =
    let t = le→ltb size src.len fits in rw (t, there, at, read-take (some m) src.len (omega arith))

-- A server refuses a KID context that is longer than its ID Context so far, of at most 8 bytes as it may be:
-- the room for the new ID Context is taken to be the length of the old one.
pub context_update-server_refuses :
    (cbor : Cbor) (tc : TinyCrypt) (options : List CoapOption) (new_piv new_kid_context : ByteArray)
    (c : Context) (pb kb piv_buf kid_context_buf : Bytes)
    → read new_piv.ptr new_piv.len ≡ ok pb
    → read new_kid_context.ptr new_kid_context.len ≡ ok kb
    → c.rrc.piv.ptr ≡ some piv_buf
    → 5 ≤ length piv_buf
    → c.rrc.kid_context.ptr ≡ some kid_context_buf
    → 8 ≤ length kid_context_buf
    → new_piv.len ≤ 5
    → new_kid_context.len ≤ 8
    → c.cc.id_context.len < new_kid_context.len
    → (context_update cbor tc server options new_piv new_kid_context c).0 ≡ err dest_buffer_to_small
unfolding context_update role_update server_update set_piv unless_equal update_keys set_kid_context
    set_id_context array_equals
context_update-server_refuses cbor tc options new_piv new_kid_context c pb kb piv_buf
      kid_context_buf hp hk at_piv piv_room at_kid kid_room small few longer =
    let other : (c.cc.id_context.len == new_kid_context.len) ≡ false = ground arith in
    let refused : copy_within c.cc.id_context.len c.cc.id_context new_kid_context
        ≡ err dest_buffer_to_small =
      unfold copy_within memcpy_s_over in
      rw (lt→ltb c.cc.id_context.len new_kid_context.len longer) in
    rw (
      copy_within-ok 5 c.rrc.piv new_piv piv_buf pb at_piv piv_room hp small,
      other,
      copy_within-ok 8 c.rrc.kid_context new_kid_context kid_context_buf kb at_kid kid_room hk few,
      refused,
    )
