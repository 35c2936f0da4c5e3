-- ===== src/Hub.antt =====
-- vertex/hub: the run of an experiment over the fleet (runner.py).
pub mod Runner
pub mod Phases
pub mod Outcome
