-- ===== src/Unprotect.antt =====
-- modules/oscore/src/oscore2coap.c: from an OSCORE packet to a CoAP packet.
pub mod OptionValue
pub mod Payload
pub mod Reorder
pub mod Convert
