-- ===== src/Tests/Contexts.antt =====
-- The theorems on sequence numbers, nonces and the security context at concrete inputs.
use uoscore_uedhoc.Base.{
  All, [], arith, dest_buffer_to_small, drop, err, fault, inr, ok, refl, replicate, some, true,
  ◌++◌, ◌>>=◌, ◌^◌, ◌↔◌, ◌∷◌, ◌≡◌,
}
use uoscore_uedhoc.Context.{client, server}
use uoscore_uedhoc.Context.Aad.{aad_length, create_aad, create_aad-aad_length, external_aad}
use uoscore_uedhoc.Context.Piv.{sender_seq_num2piv}
use uoscore_uedhoc.Context.Piv.Digits.{
  byte_count, digits_le, sender_seq_num2piv-digits_le, sender_seq_num2piv_refuses,
}
use uoscore_uedhoc.Context.Piv.Reuse.{request_nonce, request_nonce_reuse}
use uoscore_uedhoc.Context.Update.{context_update}
use uoscore_uedhoc.Context.Update.Keeps.{context_update-client-Keeps, unshared}
use uoscore_uedhoc.Context.Update.Server.{
  context_update-server-keys, context_update-server_refuses, keys,
}
use uoscore_uedhoc.Crypto.{hkdf_salt, hkdf_sha_256}
use uoscore_uedhoc.Crypto.Expand.{hkdf, hkdf_sha_256-hkdf, hkdf_sha_256_wraps}
use uoscore_uedhoc.Memory.{Bytes, IsByte, array_equals, null_array, read}
use uoscore_uedhoc.Nonce.{create_nonce}
use uoscore_uedhoc.Nonce.Unique.{Holds, create_nonce_iff, padded}
use uoscore_uedhoc.Tests.Data.{
  array_of, closed_crypt, context_bytes, id_bytes, iv_bytes, one_piv, short_context, three_context,
  uri_path, zeroes_cbor,
}

iv_bytes-Holds : Holds (array_of iv_bytes) iv_bytes
iv_bytes-Holds = record { content_is = unfold read in refl; in_range = all_bytes }
  where
    all_bytes : All IsByte iv_bytes
    all_bytes = (
      omega arith,
      (
        omega arith,
        (
          omega arith,
          (
            omega arith,
            (
              omega arith,
              (
                omega arith,
                (
                  omega arith,
                  (
                    omega arith,
                    (omega arith, (omega arith, (omega arith, (omega arith, (omega arith, tt))))),
                  ),
                ),
              ),
            ),
          ),
        ),
      ),
    )

id_bytes-Holds : Holds (array_of id_bytes) id_bytes
id_bytes-Holds = record {
  content_is = unfold read in refl;
  in_range = (omega arith, (omega arith, tt));
}

two_bytes-Holds : Holds (array_of (0 ∷ 3 ∷ [])) (0 ∷ 3 ∷ [])
two_bytes-Holds = record {
  content_is = unfold read in refl;
  in_range = (omega arith, (omega arith, tt));
}

one_byte-Holds : Holds (array_of (3 ∷ [])) (3 ∷ [])
one_byte-Holds = record { content_is = unfold read in refl; in_range = (omega arith, tt) }

create_nonce_iff_example :
    (create_nonce (array_of id_bytes) (array_of (0 ∷ 3 ∷ [])) (array_of iv_bytes)
      ≡ create_nonce (array_of id_bytes) (array_of (3 ∷ [])) (array_of iv_bytes))
    ↔ ((id_bytes ≡ id_bytes) × (padded 5 (0 ∷ 3 ∷ []) ≡ padded 5 (3 ∷ [])))
create_nonce_iff_example =
    create_nonce_iff (array_of id_bytes) (array_of id_bytes) (array_of (0 ∷ 3 ∷ []))
      (array_of (3 ∷ [])) (array_of iv_bytes) id_bytes id_bytes (0 ∷ 3 ∷ []) (3 ∷ []) iv_bytes
      id_bytes-Holds id_bytes-Holds two_bytes-Holds one_byte-Holds iv_bytes-Holds (omega arith)
      (omega arith) (omega arith) (omega arith) refl

sender_seq_num2piv-digits_le_example :
    sender_seq_num2piv 0x0102 (array_of (9 ∷ 9 ∷ 9 ∷ 9 ∷ 9 ∷ []))
    ≡ ok (record {
      len = byte_count 0x0102;
      ptr = some (digits_le 0x0102 ++ drop (byte_count 0x0102) (9 ∷ 9 ∷ 9 ∷ 9 ∷ 9 ∷ []));
    })
sender_seq_num2piv-digits_le_example =
    sender_seq_num2piv-digits_le 0x0102 (array_of (9 ∷ 9 ∷ 9 ∷ 9 ∷ 9 ∷ [])) (9 ∷ 9 ∷ 9 ∷ 9 ∷ 9 ∷ [])
      refl (omega arith) (omega arith)

sender_seq_num2piv_refuses_example :
    sender_seq_num2piv (2 ^ 40) (array_of (replicate 5 0)) ≡ err dest_buffer_to_small
sender_seq_num2piv_refuses_example =
    sender_seq_num2piv_refuses (2 ^ 40) (array_of (replicate 5 0)) (omega arith) (omega arith)

request_nonce_reuse_example :
    (nonce : Bytes) × (request_nonce
        (array_of id_bytes)
        (array_of (replicate 5 0))
        (array_of iv_bytes)
        1
      ≡ ok nonce)
    × (request_nonce (array_of id_bytes) (array_of (replicate 5 0)) (array_of iv_bytes) 256
        ≡ ok nonce)
request_nonce_reuse_example =
    request_nonce_reuse (array_of id_bytes) (array_of (replicate 5 0)) (array_of iv_bytes) id_bytes
      (replicate 5 0) iv_bytes id_bytes-Holds (omega arith) refl (omega arith) iv_bytes-Holds refl 1
      (omega arith) (omega arith)

create_aad-aad_length_example :
    (aad_length zeroes_cbor (uri_path ∷ []) 10 (array_of id_bytes) (array_of (3 ∷ []))
      >>= create_aad zeroes_cbor (uri_path ∷ []) 10 (array_of id_bytes) (array_of (3 ∷ [])))
    ≡ ok (replicate 9 0)
unfolding external_aad
create_aad-aad_length_example =
    create_aad-aad_length zeroes_cbor (uri_path ∷ []) 10 (array_of id_bytes) (array_of (3 ∷ []))
      id_bytes (3 ∷ []) (id_bytes-Holds.content_is) (one_byte-Holds.content_is) (omega arith)

context_update-client-Keeps_example :
    unshared
      (context_update zeroes_cbor closed_crypt client
        (uri_path ∷ [])
        null_array
        null_array
        short_context).1
    ≡ unshared short_context
context_update-client-Keeps_example =
    context_update-client-Keeps zeroes_cbor closed_crypt (uri_path ∷ []) null_array null_array
      short_context

abbrev zero_mac : Bytes → Bytes → Bytes
zero_mac k m = replicate 32 0

salt_read : read (array_of (1 ∷ 2 ∷ [])).ptr 2 ≡ ok (1 ∷ 2 ∷ [])
unfolding read
salt_read = refl

short_salt : hkdf_salt (array_of (1 ∷ 2 ∷ [])) ≡ ok (1 ∷ 2 ∷ [])
unfolding hkdf_salt read
short_salt = refl

hkdf_sha_256-hkdf_example :
    hkdf_sha_256 closed_crypt iv_bytes (array_of (1 ∷ 2 ∷ [])) id_bytes 40
    ≡ some (ok (hkdf zero_mac (1 ∷ 2 ∷ []) iv_bytes id_bytes 40))
hkdf_sha_256-hkdf_example =
    hkdf_sha_256-hkdf closed_crypt zero_mac (λ k m. refl) (λ k m. refl) iv_bytes id_bytes
      (1 ∷ 2 ∷ []) (array_of (1 ∷ 2 ∷ [])) 40 (inr (omega arith, salt_read)) (omega arith)

hkdf_sha_256_wraps_example :
    hkdf_sha_256 closed_crypt iv_bytes (array_of (1 ∷ 2 ∷ [])) id_bytes 8130 ≡ some fault
hkdf_sha_256_wraps_example =
    hkdf_sha_256_wraps closed_crypt zero_mac (λ k m. refl) (λ k m. refl) iv_bytes id_bytes
      (1 ∷ 2 ∷ []) (array_of (1 ∷ 2 ∷ [])) 8130 short_salt (omega arith) (omega arith)

no_context : array_equals short_context.cc.id_context null_array ≡ ok true
unfolding array_equals
no_context = refl

context_update-server-keys_example :
    keys
      (context_update zeroes_cbor closed_crypt server
        (uri_path ∷ [])
        (array_of (20 ∷ []))
        null_array
        short_context).1
    ≡ keys short_context
context_update-server-keys_example =
    context_update-server-keys zeroes_cbor closed_crypt (uri_path ∷ []) (array_of (20 ∷ []))
      null_array short_context no_context

context_update-server_refuses_example :
    (context_update zeroes_cbor closed_crypt server
      (uri_path ∷ [])
      (array_of (20 ∷ []))
      (array_of context_bytes)
      short_context).0
    ≡ err dest_buffer_to_small
context_update-server_refuses_example =
    context_update-server_refuses zeroes_cbor closed_crypt (uri_path ∷ []) (array_of (20 ∷ []))
      (array_of context_bytes) short_context (20 ∷ []) context_bytes (replicate 5 0) (replicate 8 0)
      one_piv three_context refl (omega arith) refl (omega arith) (omega arith) (omega arith)
      (omega arith)
