-- ===== src/Agent/Service/Starting.antt =====
-- `_start` of vertex/agent/service.py follows the life cycle.
use vertex_testbed.Agent.Service.{
  start_assigned, Assignment, LocalAgent, World, AgentService, is_some, is_relay, is_running,
  relay_started, start_relay, start_local, start_logged,
}
use vertex_testbed.Agent.Relay.{BleRelay, ble_relay}
use vertex_testbed.Agent.Relay
use vertex_testbed.Agent.RunLog.{RunLog, run_log}
use vertex_testbed.Agent.RunLog
use vertex_testbed.Common.{
  Option, none, some, Result, ok, err, true, false, Exception, ◌&&◌, not, ◌≡◌, refl, arith,
}
use vertex_testbed.Common.Bytes.{Bytes}
use vertex_testbed.Agent.Service.Lifecycle.{is_valid, Operation, Follows, Follows-if}

module _ {Args : Type 0} (world : World Args) where
  start_local-Follows :
      (s s' : AgentService) (a : Assignment) (name : Bytes) (o : Option LocalAgent)
      → is_valid s ≡ true
      → is_relay s ≡ false
      → is_running s ≡ false
      → s.assignment ≡ some a
      → s' ≡ record s { runlog = s'.runlog }
      → s.agent ≡ o
      → Follows s (Operation.starting name) (start_local world s' a name o)
  unfolding start_local
  start_local-Follows s s' a name none h k r e q p = ground arith
  start_local-Follows s s' a name (some agent) h k r e q p = ground arith

  start_relay-Follows :
      (s s' : AgentService) (a : Assignment) (name : Bytes) (o : Option BleRelay)
      → is_valid s ≡ true
      → is_relay s ≡ true
      → is_running s ≡ false
      → s.assignment ≡ some a
      → s' ≡ record s { runlog = s'.runlog }
      → s.relay ≡ o
      → Follows s (Operation.starting name) (start_relay world s' a name o)
  unfolding start_relay relay_started
  start_relay-Follows s s' a name none h k r e q p = ground arith
  start_relay-Follows s s' a name (some relay) h k r e q p =
      go (Relay.start world.link relay world.epoch_us)
    where
      go :
          (x : BleRelay × Result (Unit {0}))
          → Follows s (Operation.starting name) (relay_started world s' a name x)
      go (r', err x) = ground arith
      go (r', ok u) = ground arith

  start_logged-Follows :
      (s : AgentService) (a : Assignment) (name : Bytes) (x : Result RunLog)
      → is_valid s ≡ true
      → s.assignment ≡ some a
      → is_running s ≡ false
      → Follows s (Operation.starting name) (start_logged world s a name x)
  unfolding start_logged
  start_logged-Follows s a name (err x) h e r = ground arith
  start_logged-Follows s a name (ok l) h e r =
      Follows-if s (Operation.starting name) (not world.log_opens) _ _ (λ n. ground arith)
        (λ n.
          Follows-if s (Operation.starting name) (is_relay s) (start_relay world s' a name s.relay)
            (start_local world s' a name s.agent)
            (λ t. start_relay-Follows s s' a name s.relay h t r e refl refl)
            (λ f. start_local-Follows s s' a name s.agent h f r e refl refl))
    where
      s' : AgentService
      s' = record s { runlog = some (RunLog.start l) }

  start_raises :
      (s : AgentService) (name : Bytes) (e : Exception)
      → is_valid s ≡ true
      → Follows s (Operation.starting name) (s, err e)
  start_raises s name e h = ground arith

  pub start_assigned-Follows :
      (s : AgentService) (name : Bytes) (o : Option Assignment)
      → is_valid s ≡ true
      → s.assignment ≡ o
      → Follows s (Operation.starting name) (start_assigned world s name o)
  unfolding start_assigned
  start_assigned-Follows s name none h e = start_raises s name Exception.runtime_error h
  start_assigned-Follows s name (some a) h e =
      Follows-if s (Operation.starting name) (not (is_some s.agent) && not (is_some s.relay)) _ _
        (λ m. start_raises s name Exception.runtime_error h)
        (λ m.
          Follows-if s (Operation.starting name) (is_running s) _ _
            (λ t. start_raises s name Exception.runtime_error h)
            (λ f. start_logged-Follows s a name (run_log a.log 25) h e f))
