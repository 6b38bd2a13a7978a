-- ===== src/Protocol.antt =====
-- walflux/protocol.py: the decoder of pgoutput messages, protocol version 1.
pub mod Message
pub mod Reader
pub mod Decode
pub mod Convert
pub mod Encode
pub mod Parts
pub mod Rules
pub mod Reads
pub mod Fields
pub mod Messages
pub mod RoundTrip
