-- ===== src/Agent/Service/Phases.antt =====
-- The commands of `AgentService` against the life cycle that its documentation describes.
use vertex_testbed.Agent.Service.{
  finished, finalize, stopped_relay, halt_agent, AgentType, LocalAgent, World, AgentService,
  agent_service, Reply, is_some, is_relay, is_running, configure, start, finish_run, halt,
  after_halt, stop,
}
use vertex_testbed.Agent.Relay.{BleRelay}
use vertex_testbed.Agent.RunLog.{RunLog}
use vertex_testbed.Common.{
  ap, sym, subst, Bool-cases, List, [], ◌∷◌, Option, none, some, Result, ok, err, true, false, Bool,
  Exception, if◌then◌else◌, ◌≡◌, refl, arith, ◌⊎◌, inl, inr,
}
use vertex_testbed.Agent.Service.Lifecycle.{
  Phase, idle, phase, is_valid, Operation, succeeded, next, may, Follows, Follows-if,
}
use vertex_testbed.Agent.Service.Starting.{start_assigned-Follows}
use vertex_testbed.Agent.Service.Configuring.{configure_as-Follows}

module _ {Args : Type 0} (world : World Args) where
  finished_relay-Follows :
      (s : AgentService) (o : Option BleRelay) (x : Option RunLog × Result (Unit {0}))
      → is_valid s ≡ true
      → is_relay s ≡ true
      → is_some s.run_name ≡ true
      → s.relay ≡ o
      → Follows s Operation.stopping (finished world (record s { relay = stopped_relay world o }) x)
  unfolding finished
  finished_relay-Follows s none x h k r e = absurd (ground arith)
  finished_relay-Follows s (some relay) (log, err x) h k r e = ground arith
  finished_relay-Follows s (some relay) (log, ok u) h k r e = ground arith

  finished_local-Follows :
      (s : AgentService) (agent : LocalAgent) (x : Option RunLog × Result (Unit {0}))
      → is_valid s ≡ true
      → is_relay s ≡ false
      → is_running s ≡ true
      → s.agent ≡ some agent
      → Follows s Operation.stopping (
          finished world
            (record s { tasks = false; agent = some (record agent { running = false }) })
            x)
  unfolding finished
  finished_local-Follows s agent (log, err x) h k r e = ground arith
  finished_local-Follows s agent (log, ok u) h k r e = ground arith

  after_halt-Follows :
      (s : AgentService) (o : Option LocalAgent)
      → is_valid s ≡ true
      → is_relay s ≡ false
      → is_running s ≡ true
      → s.agent ≡ o
      → Follows s Operation.stopping (after_halt world (halt_agent world s o))
  unfolding after_halt halt_agent finish_run
  after_halt-Follows s none h k r e = absurd (ground arith)
  after_halt-Follows s (some agent) h k r e =
      by_stop (Bool-cases (world.transport_stops agent.params))
    where
      s' : AgentService
      s' = record s { tasks = false; agent = some (record agent { running = false }) }

      by_stop :
          (world.transport_stops agent.params ≡ true) ⊎ (world.transport_stops agent.params ≡ false)
          → Follows s Operation.stopping (after_halt world (halt_agent world s (some agent)))
      by_stop (inl t) =
          subst (λ x. Follows s Operation.stopping (after_halt world x))
            (sym (ap (λ b. if b then (s', ok tt) else (s', err Exception.runtime_error)) t))
            (finished_local-Follows s agent (finalize world s.runlog) h k r e)
      by_stop (inr f) =
          subst (λ x. Follows s Operation.stopping (after_halt world x))
            (sym (ap (λ b. if b then (s', ok tt) else (s', err Exception.runtime_error)) f))
            (ground arith)

  stop-Follows :
      (s : AgentService) → is_valid s ≡ true → Follows s Operation.stopping (stop world s)
  unfolding stop halt finish_run
  stop-Follows s h =
      Follows-if s Operation.stopping (is_relay s) _ _
        (λ t.
          Follows-if s Operation.stopping (is_some s.run_name) _ _
            (λ u. finished_relay-Follows s s.relay (finalize world s.runlog) h t u refl)
            (λ f. ground arith))
        (λ f.
          Follows-if s Operation.stopping (is_running s) _ _
            (λ t. after_halt-Follows s s.agent h f t refl) (λ u. ground arith))

  -- A command of the hub.
  abbrev pub execute : AgentService → Operation → Args → AgentService × Result Reply
  execute s Operation.configuring args = configure world s args
  execute s (Operation.starting name) args = start world s name
  execute s Operation.stopping args = stop world s

  execute-Follows :
      (s : AgentService) (o : Operation) (args : Args)
      → is_valid s ≡ true
      → Follows s o (execute s o args)
  unfolding configure start
  execute-Follows s Operation.configuring args h =
      configure_as-Follows world s (world.validate args) h
  execute-Follows s (Operation.starting name) args h =
      start_assigned-Follows world s name s.assignment h refl
  execute-Follows s Operation.stopping args h = stop-Follows s h

-- A command of a session: the operation, what its environment does meanwhile, and its arguments.
abbrev pub Order : Type 0 → Type 0
Order Args = Operation × (World Args × Args)

module _ {Args : Type 0} where
  abbrev pub executed : AgentService → Order Args → AgentService × Result Reply
  executed s (o, (world, args)) = execute world s o args

  abbrev pub execute_all : AgentService → List (Order Args) → AgentService
  execute_all s [] = s
  execute_all s (order ∷ os) = execute_all (executed s order).0 os

  -- The trace of a session: each operation with whether it succeeded.
  abbrev pub outcomes : AgentService → List (Order Args) → List (Operation × Bool)
  outcomes s [] = []
  outcomes s (order ∷ os) =
      (order.0, succeeded ((executed s order).1)) ∷ outcomes ((executed s order).0) os

abbrev pub next_all : Bool → Phase → List (Operation × Bool) → Phase
next_all relay p [] = p
next_all relay p ((o, good) ∷ os) = next_all relay (next relay p o good) os

abbrev pub MayAll : Bool → Phase → List (Operation × Bool) → Type 0
MayAll relay p [] = Unit {0}
MayAll relay p ((o, good) ∷ os) = (may p o good ≡ true) × MayAll relay (next relay p o good) os

module _ {Args : Type 0} where
  -- A session is a trace of the life cycle.
  abbrev pub Traces : Bool → AgentService → List (Order Args) → Phase → Type 0
  Traces relay s os p =
      (phase (execute_all s os) ≡ next_all relay p (outcomes s os)) × MayAll relay p (outcomes s os)

  execute_all-Traces :
      (os : List (Order Args)) (s : AgentService)
      → is_valid s ≡ true
      → Traces (is_relay s) s os (phase s)
  execute_all-Traces [] s h = (refl, tt)
  execute_all-Traces ((o, (world, args)) ∷ os) s h =
      go (execute-Follows world s o args h) (execute_all-Traces os ((execute world s o args).0))
    where
      s' : AgentService
      s' = (execute world s o args).0

      good : Bool
      good = succeeded ((execute world s o args).1)

      go :
          Follows s o (execute world s o args)
          → (is_valid s' ≡ true → Traces (is_relay s') s' os (phase s'))
          → (phase (execute_all s' os)
              ≡ next_all (is_relay s) (next (is_relay s) (phase s) o good) (outcomes s' os))
            × ((may (phase s) o good ≡ true)
                × MayAll (is_relay s) (next (is_relay s) (phase s) o good) (outcomes s' os))
      go (v, k, p, m) ih =
          let later : Traces (is_relay s) s' os (next (is_relay s) (phase s) o good) =
            subst (λ q. Traces (is_relay s) s' os q) p
              (subst (λ b. Traces b s' os (phase s')) k (ih v)) in
          (later.0, (m, later.1))

  -- The service implements the life cycle. Whatever the hub sends and whatever the environment does
  -- at each command, its files included, the phase of the process after a session, by the property
  -- `running` and by what it has built, is the one that the life cycle gives for the outcomes of the
  -- commands, and each outcome is one that it allows. So nothing starts before it is configured or
  -- while it runs, a configuration during a run leaves the run in progress under its name, and a stop
  -- that succeeds ends it; where a stop raises, the run of a relay is still in progress, and another
  -- agent's loops have ended.
  pub execute_all-refines :
      (node_type : AgentType) (os : List (Order Args))
      → Traces (is_relay (agent_service node_type)) (agent_service node_type) os idle
  execute_all-refines AgentType.ble os = execute_all-Traces os (agent_service AgentType.ble) refl
  execute_all-refines AgentType.wifi os = execute_all-Traces os (agent_service AgentType.wifi) refl
  execute_all-refines AgentType.bridge os =
      execute_all-Traces os (agent_service AgentType.bridge) refl
