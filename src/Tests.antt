-- ===== src/Tests.antt =====
-- Concrete packets and contexts, and the theorems of the library applied to them.
mod Data
mod Packets
mod Contexts
mod Options
mod Conversions
mod Toy
mod Handshake
mod Protocol
mod Messages
