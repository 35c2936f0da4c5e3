-- ===== src/Transports.antt =====
-- vertex/transports: several media behind one (multi.py), the loopback bus (loopback.py), and UDP
-- broadcast (udp.py).
pub mod Udp
pub mod Multi
pub mod FanOut
pub mod Counting
pub mod Loopback
pub mod Broadcast
