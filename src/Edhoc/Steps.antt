-- ===== src/Edhoc/Steps.antt =====
-- What both roles do in the same way: the labels of the derived keys, the encryption of message 2 by a key
-- stream, and the keys of message 3, in modules/edhoc/src/initiator.c and modules/edhoc/src/responder.c.
pub mod Keystream
use uoscore_uedhoc.Base.{Bool, [], drop, false, length, ok, true, ◌++◌, ◌>>=◌, ◌>>◌, ◌∷◌}
use uoscore_uedhoc.Context.Init.{own}
use uoscore_uedhoc.Edhoc.{
  EdhocResult, Suite, a_3ae_default_size, aead_iv_default_size, aead_key_default_size, contents,
}
use uoscore_uedhoc.Edhoc.CryptoWrapper.{hkdf_extract, shared_secret_derive, sign, verify}
use uoscore_uedhoc.Edhoc.Host.{Host, ecdh_secret, fresh, memcmp_equal, sign_or_mac_local}
use uoscore_uedhoc.Edhoc.Keys.{a_xae_encode, okm_calc}
use uoscore_uedhoc.Edhoc.Mac.{SignatureOrMac}
use uoscore_uedhoc.Memory.{ByteArray, Bytes}

-- "K_2m", "IV_2m", "K_3m", "IV_3m", "K_3ae", "IV_3ae" and "KEYSTREAM_2".
abbrev pub label_k_2m : Bytes
label_k_2m = b'K' ∷ b'_' ∷ b'2' ∷ b'm' ∷ []

abbrev pub label_iv_2m : Bytes
label_iv_2m = b'I' ∷ b'V' ∷ b'_' ∷ b'2' ∷ b'm' ∷ []

abbrev pub label_k_3m : Bytes
label_k_3m = b'K' ∷ b'_' ∷ b'3' ∷ b'm' ∷ []

abbrev pub label_iv_3m : Bytes
label_iv_3m = b'I' ∷ b'V' ∷ b'_' ∷ b'3' ∷ b'm' ∷ []

abbrev pub label_k_3ae : Bytes
label_k_3ae = b'K' ∷ b'_' ∷ b'3' ∷ b'a' ∷ b'e' ∷ []

abbrev pub label_iv_3ae : Bytes
label_iv_3ae = b'I' ∷ b'V' ∷ b'_' ∷ b'3' ∷ b'a' ∷ b'e' ∷ []

abbrev pub label_keystream_2 : Bytes
label_keystream_2 = b'K' ∷ b'E' ∷ b'Y' ∷ b'S' ∷ b'T' ∷ b'R' ∷ b'E' ∷ b'A' ∷ b'M' ∷ b'_' ∷ b'2' ∷ []

-- The secret of the ephemeral keys, and PRK_2e.
unfoldable pub derive_prk_2e : Host → Suite → Bytes → Bytes → EdhocResult Bytes
derive_prk_2e h suite secret_key public_key = do
  g_xy ←
      shared_secret_derive h suite.edhoc_ecdh_curve secret_key public_key (fresh h ecdh_secret 32)
  hkdf_extract h suite.edhoc_hash [] g_xy

pub record Keys3 : Type 0 where
  pub k_3ae : Bytes
  pub iv_3ae : Bytes
  pub a_3ae : Bytes

unfoldable pub derive_keys_3 : Host → Suite → Bytes → Bytes → EdhocResult Keys3
derive_keys_3 h suite prk_3e2m th3 = do
  k ← okm_calc h suite.edhoc_aead suite.edhoc_hash label_k_3ae prk_3e2m th3 aead_key_default_size
  iv_bytes ←
      okm_calc h suite.edhoc_aead suite.edhoc_hash label_iv_3ae prk_3e2m th3 aead_iv_default_size
  a ← a_xae_encode h th3 a_3ae_default_size
  ok (record { k_3ae = k; iv_3ae = iv_bytes; a_3ae = a })

-- Whether the other party is who it says: its MAC against the one computed here, or its signature. Both are read at
-- the start of the array for them, whatever the length of what came is.
unfoldable pub authentic :
    Host → Bool → Suite → SignatureOrMac → ByteArray → Bytes → EdhocResult Bool
authentic h true suite own pk sign_or_mac = memcmp_equal (length own.mac) own.mac sign_or_mac
authentic h false suite own pk sign_or_mac = do
  key_bytes ← contents pk
  verify h suite.edhoc_sign_curve key_bytes own.m sign_or_mac false

-- The MAC of a party with a static DH key, or a signature in an array of 64 bytes that has the MAC in front.
unfoldable pub sign_or_mac_of :
    Host → Bool → Suite → ByteArray → ByteArray → SignatureOrMac → EdhocResult Bytes
sign_or_mac_of h true suite sk pk own = ok own.mac
sign_or_mac_of h false suite sk pk own = do
  sk_bytes ← contents sk
  pk_bytes ← contents pk
  sign h suite.edhoc_sign_curve sk_bytes pk_bytes own.m
      (own.mac ++ drop (length own.mac) (fresh h sign_or_mac_local 64))
