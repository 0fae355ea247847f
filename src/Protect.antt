-- ===== src/Protect.antt =====
-- modules/oscore/src/coap2oscore.c: from a CoAP packet to an OSCORE packet, one module a function.
pub mod Extract
pub mod Plaintext
pub mod OptionValue
pub mod Packet
pub mod Convert
