-- ===== src/Context/Update.antt =====
-- `context_update` of modules/oscore/src/security_context.c. A call that fails leaves the fields that it has
-- set, so each step returns the context beside its result.
pub mod Keeps
pub mod Server
use uoscore_uedhoc.Base.{Bool, List, Result, err, false, fault, ok, true, ◌>>=◌}
use uoscore_uedhoc.Coap.{CoapOption, max_kid_context_len, max_piv_len}
use uoscore_uedhoc.Context.{Context, DevType, client, server}
use uoscore_uedhoc.Context.Aad.{aad_length, create_aad}
use uoscore_uedhoc.Context.Derive.{derive_common_iv, derive_recipient_key, derive_sender_key}
use uoscore_uedhoc.Memory.{ByteArray, array_equals, copy_within, store_through}
use uoscore_uedhoc.Nonce.{create_nonce}
use uoscore_uedhoc.Platform.{Cbor, TinyCrypt}

abbrev pub M : Type 0 → Type 0
M A = Context → Result A × Context

-- What follows a step: it runs on the new context, unless the step failed.
abbrev pub and_then : {A B : Type 0} → Result A × Context → M B → Result B × Context
and_then (ok a, c) k = k c
and_then (err e, c) k = (err e, c)
and_then (fault, c) k = (fault, c)

infixr 5 ◌then_do◌
abbrev pub ◌then_do◌ : {A B : Type 0} → M A → M B → M B
◌then_do◌ m k c = and_then (m c) k

abbrev pub settle :
    {A : Type 0} → Result A → (A → Context → Context) → Context → Result (Unit {0}) × Context
settle (ok a) set_to c = (ok tt, set_to a c)
settle (err e) set_to c = (err e, c)
settle fault set_to c = (fault, c)

-- A step that computes a value from the context and sets it there, unless it fails.
abbrev pub sets : {A : Type 0} → (Context → Result A) → (A → Context → Context) → M (Unit {0})
sets step set_to c = settle (step c) set_to c

unfoldable pub set_piv : ByteArray → M (Unit {0})
set_piv new_piv =
    sets (λ c. copy_within max_piv_len c.rrc.piv new_piv)
      (λ a c. record c { rrc = record c.rrc { piv = a } })

unfoldable pub set_kid_context : ByteArray → M (Unit {0})
set_kid_context new_kid_context =
    sets (λ c. copy_within max_kid_context_len c.rrc.kid_context new_kid_context)
      (λ a c. record c { rrc = record c.rrc { kid_context = a } })

-- The room is the length that the ID Context has so far.
unfoldable pub set_id_context : ByteArray → M (Unit {0})
set_id_context new_kid_context =
    sets (λ c. copy_within c.cc.id_context.len c.cc.id_context new_kid_context)
      (λ a c. record c { cc = record c.cc { id_context = a } })

unfoldable pub update_keys : Cbor → TinyCrypt → ByteArray → M (Unit {0})
update_keys cbor tc new_kid_context =
    set_kid_context new_kid_context
    then_do set_id_context new_kid_context
    then_do sets (λ c. derive_common_iv cbor tc c.cc) (λ cc c. record c { cc = cc })
    then_do sets (λ c. derive_sender_key cbor tc c.cc c.sc) (λ sc c. record c { sc = sc })
    then_do sets (λ c. derive_recipient_key cbor tc c.cc c.rc) (λ rc c. record c { rc = rc })

-- The keys are derived anew if the ID Context differs from the received KID context.
unfoldable pub unless_equal : Result Bool → M (Unit {0}) → M (Unit {0})
unless_equal (ok true) m c = (ok tt, c)
unless_equal (ok false) m c = m c
unless_equal (err e) m c = (err e, c)
unless_equal fault m c = (fault, c)

unfoldable pub server_update : Cbor → TinyCrypt → ByteArray → ByteArray → M (Unit {0})
server_update cbor tc new_piv new_kid_context = set_piv new_piv then_do λ c.
    unless_equal (array_equals c.cc.id_context new_kid_context)
      (update_keys cbor tc new_kid_context) c

unfoldable pub calculate_nonce : M (Unit {0})
calculate_nonce =
    sets
      (λ c. do
        nonce ← create_nonce c.rrc.kid c.rrc.piv c.cc.common_iv
        store_through c.rrc.nonce.ptr nonce)
      (λ p c. record c { rrc = record c.rrc { nonce = record c.rrc.nonce { ptr = p } } })

-- `aad_length` stores into `c->rrc.aad.len`, and `create_aad` fills the array.
unfoldable pub set_aad_len : Cbor → List CoapOption → M (Unit {0})
set_aad_len cbor options =
    sets (λ c. aad_length cbor options c.cc.aead_alg c.rrc.kid c.rrc.piv)
      (λ n c. record c { rrc = record c.rrc { aad = record c.rrc.aad { len = n } } })

unfoldable pub fill_aad : Cbor → List CoapOption → M (Unit {0})
fill_aad cbor options =
    sets
      (λ c. do
        aad ← create_aad cbor options c.cc.aead_alg c.rrc.kid c.rrc.piv c.rrc.aad.len
        store_through c.rrc.aad.ptr aad)
      (λ p c. record c { rrc = record c.rrc { aad = record c.rrc.aad { ptr = p } } })

unfoldable pub calculate_aad : Cbor → List CoapOption → M (Unit {0})
calculate_aad cbor options = set_aad_len cbor options then_do fill_aad cbor options

-- What only a server does.
unfoldable pub role_update : Cbor → TinyCrypt → DevType → ByteArray → ByteArray → M (Unit {0})
role_update cbor tc server new_piv new_kid_context = server_update cbor tc new_piv new_kid_context
role_update cbor tc client new_piv new_kid_context = λ c. (ok tt, c)

unfoldable pub context_update :
    Cbor → TinyCrypt → DevType → List CoapOption → ByteArray → ByteArray → M (Unit {0})
context_update cbor tc dev options new_piv new_kid_context =
    role_update cbor tc dev new_piv new_kid_context
    then_do calculate_nonce
    then_do calculate_aad cbor options
