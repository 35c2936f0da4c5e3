-- ===== src/Agent/Service/Configuring.antt =====
-- `_configure` of vertex/agent/service.py follows the life cycle.
use vertex_testbed.Agent.Service.{
  Assignment, LocalAgent, World, AgentService, is_relay, is_running, same_type, relay_built,
  build_relay, relay_updated, configure_relay, build_agent, agent_updated, configure_local,
  configure_as,
}
use vertex_testbed.Agent.Relay.{BleRelay, ble_relay}
use vertex_testbed.Agent.Relay
use vertex_testbed.Common.{Option, none, some, Result, ok, err, true, false, not, ◌≡◌, refl, arith}
use vertex_testbed.Agent.Service.Lifecycle.{is_valid, Operation, Follows, Follows-if}

module _ {Args : Type 0} (world : World Args) where
  build_agent-Follows :
      (s s' : AgentService) (a : Assignment)
      → is_valid s ≡ true
      → is_relay s ≡ false
      → is_running s ≡ false
      → s' ≡ record s { assignment = some a }
      → Follows s Operation.configuring (build_agent world s' a)
  unfolding build_agent
  build_agent-Follows s s' a h k r e = ground arith

  agent_updated-Follows :
      (s : AgentService) (a : Assignment) (agent : LocalAgent)
      → is_valid s ≡ true
      → is_relay s ≡ false
      → is_running s ≡ true
      → s.agent ≡ some agent
      → Follows s Operation.configuring (agent_updated world s a agent)
  unfolding agent_updated
  agent_updated-Follows s a agent h k r e = ground arith

  configure_local-Follows :
      (s : AgentService) (a : Assignment)
      → is_valid s ≡ true
      → is_relay s ≡ false
      → Follows s Operation.configuring (configure_local world s a)
  unfolding configure_local
  configure_local-Follows s a h k =
      Follows-if s Operation.configuring (is_running s) _ _ (λ t. by_agent s.agent refl t)
        (λ f. build_agent-Follows s (record s { assignment = some a }) a h k f refl)
    where
      by_agent :
          (o : Option LocalAgent)
          → s.agent ≡ o
          → is_running s ≡ true
          → Follows s Operation.configuring (elim o [
            | some agent ↦ agent_updated world s a agent
            | none ↦ build_agent world (record s { assignment = some a }) a
          ])
      by_agent none e t = absurd (ground arith)
      by_agent (some agent) e t = agent_updated-Follows s a agent h k t e

  relay_built-Follows :
      (s s' : AgentService) (a : Assignment) (x : BleRelay × Result (Unit {0}))
      → is_valid s ≡ true
      → is_relay s ≡ true
      → is_running s ≡ false
      → s' ≡ record s { assignment = some a }
      → Follows s Operation.configuring (relay_built world s' a x)
  unfolding relay_built
  relay_built-Follows s s' a (r, err e) h k f p = ground arith
  relay_built-Follows s s' a (r, ok u) h k f p = ground arith

  build_relay-Follows :
      (s : AgentService) (a : Assignment)
      → is_valid s ≡ true
      → is_relay s ≡ true
      → is_running s ≡ false
      → Follows s Operation.configuring (build_relay world (record s { assignment = some a }) a)
  unfolding build_relay
  build_relay-Follows s a h k f =
      Follows-if s Operation.configuring world.has_link _ _
        (λ t.
          relay_built-Follows s (record s { assignment = some a }) a
            (Relay.configure world.link ble_relay a.relayed a.radio) h k f refl)
        (λ t. ground arith)

  relay_updated-Follows :
      (s : AgentService) (a : Assignment) (r : BleRelay) (x : BleRelay × Result (Unit {0}))
      → is_valid s ≡ true
      → is_relay s ≡ true
      → is_running s ≡ true
      → s.relay ≡ some r
      → Follows s Operation.configuring (relay_updated world s a x)
  unfolding relay_updated
  relay_updated-Follows s a r (r', err e) h k f p = ground arith
  relay_updated-Follows s a r (r', ok u) h k f p = ground arith

  configure_relay-Follows :
      (s : AgentService) (a : Assignment)
      → is_valid s ≡ true
      → is_relay s ≡ true
      → Follows s Operation.configuring (configure_relay world s a)
  unfolding configure_relay
  configure_relay-Follows s a h k =
      Follows-if s Operation.configuring (is_running s) _ _ (λ t. by_relay s.relay refl t)
        (λ f. build_relay-Follows s a h k f)
    where
      by_relay :
          (o : Option BleRelay)
          → s.relay ≡ o
          → is_running s ≡ true
          → Follows s Operation.configuring (elim o [
            | some r ↦ relay_updated world s a (Relay.configure world.link r a.relayed a.radio)
            | none ↦ build_relay world (record s { assignment = some a }) a
          ])
      by_relay none e t = absurd (ground arith)
      by_relay (some r) e t =
          relay_updated-Follows s a r (Relay.configure world.link r a.relayed a.radio) h k t e

  pub configure_as-Follows :
      (s : AgentService) (x : Result Assignment)
      → is_valid s ≡ true
      → Follows s Operation.configuring (configure_as world s x)
  unfolding configure_as
  configure_as-Follows s (err e) h = ground arith
  configure_as-Follows s (ok a) h =
      Follows-if s Operation.configuring (not (same_type a.node_type s.node_type)) _ _
        (λ t. ground arith)
        (λ f.
          Follows-if s Operation.configuring (is_relay s) _ _ (λ t. configure_relay-Follows s a h t)
            (λ u. configure_local-Follows s a h u))
