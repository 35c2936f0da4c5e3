-- ===== src/Serial.antt =====
-- vertex/serial: the framed protocol to the nRF (proto.py) and the link that carries it (link.py).
pub mod FrameType
pub mod Frame
pub mod Parser
pub mod Stream
pub mod Sound
pub mod Contains
pub mod Link
pub mod StateReport
pub mod StateRoundTrip
pub mod Payload
pub mod PayloadLen
pub mod Microgrid
pub mod UsbPacket
pub mod Stats
