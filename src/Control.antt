-- ===== src/Control.antt =====
-- The control connection between the hub and an agent: vertex/control.
pub mod Protocol
pub mod Transport
pub mod Server
pub mod Client
