-- ===== src/Wire.antt =====
-- vertex/wire/codec.py: the state packet, its frames, and the accounting of received frames.
pub mod Packet
pub mod Codec
pub mod RoundTrip
pub mod Raw
pub mod Total
pub mod Reencode
pub mod Monitor
pub mod Accounting
pub mod InOrder
