-- ===== src/Lib.antt =====
-- The two modules of the repository: OSCORE (modules/oscore), the protection of CoAP packets after RFC 8613, and
-- EDHOC (modules/edhoc), the key exchange that gives two endpoints the keys for it.
--
-- A CoAP endpoint initialises a security context (`oscore_context_init`), hands each packet that it sends to
-- `coap2oscore`, and each that it receives to `oscore2coap`. `coap2oscore` reads the packet out of its buffer
-- (`buf2coap`), divides the options into those to encrypt and the others (`e_u_options_extract`), makes the
-- plaintext, updates the context if the packet is a request (`sender_seq_num2piv`, `context_update`), encrypts
-- (`cose_encrypt`), puts the OSCORE option among the open options, and writes the new packet (`coap2buf`).
-- `oscore2coap` goes the other way: it takes the OSCORE option apart, lets the context follow a request,
-- decrypts, takes the payload apart and puts the options in order again.
--
-- An EDHOC initiator (`edhoc_initiator_run`) sends message 1, and a responder (`edhoc_responder_run`) answers with
-- message 2, if it supports the suite that message 1 selects. Each derives keys from its own secrets, the public
-- keys in the messages and the transcript hashes (`th2_calculate`, `prk_derive`, `okm_calc`), encrypts its identity
-- and a signature or MAC (`signature_or_mac_msg_create`, `plaintext_encode`), and checks those of the other
-- (`plaintext_split`, `retrieve_cred`, `verify`). After message 3 both hold PRK_4x3m and TH_4, from which
-- `edhoc_exporter` makes the secrets for OSCORE.
--
-- The files and the code:
--   Base          the shared names; lists, Boolean tests, and the results of calls: `OscoreError` is the enum
--                 of modules/oscore/inc/error.h
--   Memory        modules/oscore/src/byte_array.c and modules/oscore/src/memcpy_s.c: pointers, arrays, copies
--   Coap          modules/oscore/inc/coap.h and modules/oscore/src/coap.c: Encode has
--                 `options_into_byte_string`, Parse has `buf2options` and `buf2coap`, Serialize has `coap2buf`
--   OptionClass   modules/oscore/src/option.c
--   Nonce         modules/oscore/src/nonce.c
--   Platform      TinyCBOR and TinyCrypt, as parameters
--   Crypto        modules/oscore/src/crypto_wrapper.c and modules/oscore/src/oscore_cose.c
--   Context       modules/oscore/inc/security_context.h; Piv, Init and Update have the functions of
--                 modules/oscore/src/security_context.c, Derive its derivations and
--                 modules/oscore/src/hkdf_info.c, Aad has modules/oscore/src/aad.c
--   Protect       modules/oscore/src/coap2oscore.c, one file per function; Convert has `coap2oscore` itself
--   Unprotect     modules/oscore/src/oscore2coap.c in the same way; Convert has `oscore2coap` itself
--   Edhoc         modules/edhoc/edhoc.h, modules/edhoc/src/suites.c and modules/edhoc/src/edhoc_method_type.c. Host
--                 has the libraries and the transport, as parameters; CryptoWrapper, RetrieveCred and Plaintext
--                 the files of these names in modules/edhoc/src, Decoder cbor_decoder.c, Keys hkdf_info.c, okm.c,
--                 prk.c, edhoc_exporter.c and a_Xae_encode.c, Transcript th.c, Mac signature_or_mac_msg.c, and
--                 Exchange err_msg.c; Messages, Initiator and Responder initiator.c and responder.c, Steps what
--                 these two share. Agreement is about both roles at once
--   Tests         concrete inputs
-- Files inside these modules hold the proofs, and are named for what they are about.
--
-- How code becomes definitions. A function of the source is a function of the same name, with the results that
-- it stores through pointers in its result. `ok` is a return with OscoreNoError, `err` a return with that error,
-- and `fault` an access outside an object, after which the C program has no meaning. An array that is filled
-- from the start is a `Buffer` with its size and what is written, so a store past its end is a fault; a
-- pointer is the list of the bytes from it to the end of its object. Integers are natural numbers with the wrap
-- at their width written out. A function that changes the context takes it and returns it beside the result, so
-- what a failed call leaves behind is seen. What a local array or struct holds before it is set is an argument.
-- The order of the bytes of a uint64_t in memory is that of a little-endian machine.
--
-- A run of an EDHOC role takes a `Session` and returns it: the messages sent and received so far, and the error
-- message that is given to the caller. An array of the caller is read where it is handed to a function. The parser
-- of TinyCBOR is told of bytes and tells the first item of them and where it ends, which is not behind the last of
-- them. `aead` writes a tag of eight bytes behind its output without a test of the room there; the model does not
-- test it either, since `signature_or_mac_msg_create` always hands it a single byte. `memcmp` is taken to read
-- no further than the first difference. G_X and C_I of message 1 are handed on with their lengths, though the
-- code passes the whole array of G_X to the curve; a G_X of 32 bytes fills it. The struct of the OSCORE option
-- that is sent has no option number here, since the code always sets it to 9. The sizes of the arrays are those of the build for certificates.
--
-- Loops are recursive functions over what they go through: the options, the slots left in the array, the bytes
-- left, the blocks left. Only the expansion loop of `hkdf_sha_256` runs on fuel, 257 rounds: its counter is a
-- uint8_t, so it comes to an end or to a store in front of the output within 256 rounds. The same loop in
-- modules/edhoc goes by the blocks up to the last, behind which its counter is above it or has wrapped.
--
-- Not modelled: the output for debugging (print_util.c); the samples and the tests of the repository; and the inside
-- of TinyCBOR, TinyCrypt, compact25519 and the functions `tx` and `rx` of the user, which are not part of the
-- repository. A context whose KID context shares memory with the arrays of the caller is left out too.
pub mod Base
pub mod Memory
pub mod Coap
pub mod OptionClass
pub mod Nonce
pub mod Platform
pub mod Crypto
pub mod Context
pub mod Protect
pub mod Unprotect
pub mod Edhoc
pub mod Tests
