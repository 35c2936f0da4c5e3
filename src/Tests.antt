-- ===== src/Tests.antt =====
-- Runs of the program's parts on concrete inputs.
mod WireRuns
mod SerialRuns
mod LinkRuns
mod AgentRuns
mod HubRuns
mod MediaRuns
mod BusRuns
mod PayloadRuns
mod TextCodec
mod ControlRuns
mod NodeRuns
mod ServiceRuns
mod NetworkRuns
