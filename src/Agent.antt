-- ===== src/Agent.antt =====
-- vertex/agent: what an agent knows of its neighbours (neighbors.py), the relay of a board (relay.py),
-- the log of a run (runlog.py), the commands of its process (service.py) and the pace of its loops
-- (agent.py).
pub mod Relay
pub mod RunLog
pub mod Service
pub mod Periodic
pub mod Neighbors
