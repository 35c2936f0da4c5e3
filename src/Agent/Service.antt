-- ===== src/Agent/Service.antt =====
-- The commands of `AgentService`, vertex/agent/service.py. What the environment decides is a
-- parameter, `World`: the validation by pydantic, the board behind the serial link, whether a
-- controller and a transport are built, started and stopped without raising, and whether the files
-- of the run's log are opened, closed and written without raising. Each command has its own.
pub mod Lifecycle
mod Starting
mod Configuring
pub mod Phases
pub mod Handlers
pub mod Serving
use vertex_testbed.Agent.Relay.{BleRelay, RequestLink, TypedPayload, ble_relay}
use vertex_testbed.Agent.Relay
use vertex_testbed.Agent.RunLog.{RunLog, RunMeta, run_log}
use vertex_testbed.Agent.RunLog
use vertex_testbed.Common.{
  List, [], ◌∷◌, ℕ, zero, suc, Option, none, some, Result, ok, err, true, false, Bool, Exception,
  ◌++◌, ◌&&◌, ◌||◌, if◌then◌else◌, not, ◌>>=◌, ◌>>◌, require,
}
use vertex_testbed.Common.Bytes.{Bytes}

pub data AgentType : Type 0 where
  ble wifi bridge : AgentType

abbrev pub same_type : AgentType → AgentType → Bool
same_type AgentType.ble AgentType.ble = true
same_type AgentType.wifi AgentType.wifi = true
same_type AgentType.bridge AgentType.bridge = true
same_type a b = false

-- An `AgentAssignment`: what the relay sends of it, the frame of its radio block, and the layout
-- of the log that its controller declares.
pub record Assignment : Type 0 where
  pub node_id : ℕ
  pub node_type : AgentType
  pub relayed : Relay.Assignment
  pub radio : Option TypedPayload
  pub log : RunMeta

-- A local `Agent`: the assignment its controller was built from or set to, and whether its
-- transport runs.
pub record LocalAgent : Type 0 where
  pub params : Assignment
  pub running : Bool

pub record World (Args : Type 0) : Type 0 where
  pub validate : Args → Result Assignment
  pub has_link : Bool
  pub link : RequestLink
  pub epoch_us : ℕ
  pub builds : Assignment → Bool
  pub accepts : Assignment → Bool
  pub transport_starts : Assignment → Bool
  pub transport_stops : Assignment → Bool
  pub log_opens : Bool
  pub log_closes : Bool
  pub log_finalizes : Bool

-- `_tasks` is empty or not.
pub record AgentService : Type 0 where
  pub node_type : AgentType
  pub assignment : Option Assignment
  pub agent : Option LocalAgent
  pub relay : Option BleRelay
  pub runlog : Option RunLog
  pub run_name : Option Bytes
  pub tasks : Bool

-- The constructor.
abbrev pub agent_service : AgentType → AgentService
agent_service node_type = record {
  node_type = node_type;
  assignment = none;
  agent = none;
  relay = none;
  runlog = none;
  run_name = none;
  tasks = false;
}

-- What a command replies.
pub data Reply : Type 0 where
  configured : ℕ → Bool → Reply
  started : Bytes → ℕ → Reply
  stopped : Option Bytes → ℕ → Bool → Reply

abbrev pub is_some {ℓ} : {A : Type ℓ} → Option A → Bool
is_some none = false
is_some (some a) = true

abbrev pub is_relay : AgentService → Bool
is_relay s = same_type s.node_type AgentType.ble

-- `running`
abbrev pub is_running : AgentService → Bool
is_running s = s.tasks || (is_relay s && is_some s.run_name)

abbrev samples_of : Option RunLog → ℕ
samples_of none = 0
samples_of (some l) = l.samples

module _ {Args : Type 0} (world : World Args) where
  -- `_build_relay`, and what `_configure` does with it.
  unfoldable pub relay_built :
      AgentService → Assignment → BleRelay × Result (Unit {0}) → AgentService × Result Reply
  relay_built s a (r, err e) = (s, err e)
  relay_built s a (r, ok u) = (record s { relay = some r }, ok (Reply.configured a.node_id false))

  unfoldable pub build_relay : AgentService → Assignment → AgentService × Result Reply
  unfolding relay_built
  build_relay s a =
      if world.has_link
      then relay_built s a (Relay.configure world.link ble_relay a.relayed a.radio)
      else (s, err Exception.runtime_error)

  -- A live update of a relay that runs.
  unfoldable pub relay_updated :
      AgentService → Assignment → BleRelay × Result (Unit {0}) → AgentService × Result Reply
  relay_updated s a (r, err e) = (record s { relay = some r }, err e)
  relay_updated s a (r, ok u) =
      (record s { relay = some r; assignment = some a }, ok (Reply.configured a.node_id true))

  unfoldable pub configure_relay : AgentService → Assignment → AgentService × Result Reply
  unfolding relay_updated build_relay
  configure_relay s a =
      let fresh = build_relay (record s { assignment = some a }) a in
      if is_running s
      then elim s.relay [
        | some r ↦ relay_updated s a (Relay.configure world.link r a.relayed a.radio)
        | none ↦ fresh
      ]
      else fresh

  -- `self.agent = self._build(assignment)`
  unfoldable pub build_agent : AgentService → Assignment → AgentService × Result Reply
  build_agent s a =
      if world.builds a
      then (
        record s { agent = some (record { params = a; running = false }) },
        ok (Reply.configured a.node_id false),
      )
      else (s, err Exception.value_error)

  unfoldable pub agent_updated :
      AgentService → Assignment → LocalAgent → AgentService × Result Reply
  agent_updated s a agent =
      if world.accepts a
      then (
        record s { agent = some (record agent { params = a }); assignment = some a },
        ok (Reply.configured a.node_id true),
      )
      else (s, err Exception.value_error)

  unfoldable pub configure_local : AgentService → Assignment → AgentService × Result Reply
  unfolding build_agent agent_updated
  configure_local s a =
      let fresh = build_agent (record s { assignment = some a }) a in
      if is_running s
      then elim s.agent [ some agent ↦ agent_updated s a agent | none ↦ fresh ]
      else fresh

  unfoldable pub configure_as : AgentService → Result Assignment → AgentService × Result Reply
  unfolding configure_relay configure_local
  configure_as s (err e) = (s, err e)
  configure_as s (ok a) =
      if not (same_type a.node_type s.node_type)
      then (s, err Exception.value_error)
      else (if is_relay s then configure_relay s a else configure_local s a)

  -- `_configure`
  unfoldable pub configure : AgentService → Args → AgentService × Result Reply
  unfolding configure_as
  configure s args = configure_as s (world.validate args)

  -- The end of `_start`, of a relay and of an agent that computes its law itself.
  unfoldable pub relay_started :
      AgentService → Assignment → Bytes → BleRelay × Result (Unit {0}) → AgentService × Result Reply
  relay_started s a name (r, err e) = (record s { relay = some r }, err e)
  relay_started s a name (r, ok u) = (
    record s { relay = some r; run_name = some name; tasks = false },
    ok (Reply.started name a.node_id),
  )

  unfoldable pub start_relay :
      AgentService → Assignment → Bytes → Option BleRelay → AgentService × Result Reply
  unfolding relay_started
  start_relay s a name none = (s, err Exception.assertion_error)
  start_relay s a name (some r) = relay_started s a name (Relay.start world.link r world.epoch_us)

  unfoldable pub start_local :
      AgentService → Assignment → Bytes → Option LocalAgent → AgentService × Result Reply
  start_local s a name none = (s, err Exception.assertion_error)
  start_local s a name (some agent) =
      if world.transport_starts agent.params
      then (
        record s {
          agent = some (record agent { running = true });
          run_name = some name;
          tasks = true;
        },
        ok (Reply.started name a.node_id),
      )
      else (s, err Exception.runtime_error)

  -- The run's log is opened before the relay or the transport is started.
  unfoldable pub start_logged :
      AgentService → Assignment → Bytes → Result RunLog → AgentService × Result Reply
  unfolding start_relay start_local
  start_logged s a name (err e) = (s, err e)
  start_logged s a name (ok log) =
      let s' : AgentService = record s { runlog = some (RunLog.start log) } in
      if not world.log_opens
      then (s, err Exception.os_error)
      else (if is_relay s then start_relay s' a name s.relay else start_local s' a name s.agent)

  -- `_start`, by the assignment.
  unfoldable pub start_assigned :
      AgentService → Bytes → Option Assignment → AgentService × Result Reply
  unfolding start_logged
  start_assigned s name none = (s, err Exception.runtime_error)
  start_assigned s name (some a) =
      if not (is_some s.agent) && not (is_some s.relay)
      then (s, err Exception.runtime_error)
      else (if is_running s
          then (s, err Exception.runtime_error)
          else start_logged s a name (run_log a.log 25))

  unfoldable pub start : AgentService → Bytes → AgentService × Result Reply
  unfolding start_assigned
  start s name = start_assigned s name s.assignment

  abbrev pub stopped_relay : Option BleRelay → Option BleRelay
  stopped_relay none = none
  stopped_relay (some r) = some ((Relay.stop world.link r).0)

  -- `finalize` closes the log and then writes the run's document; both may raise.
  unfoldable pub finalize : Option RunLog → Option RunLog × Result (Unit {0})
  finalize none = (none, ok tt)
  finalize (some l) =
      if world.log_closes
      then (some (RunLog.close l), if world.log_finalizes then ok tt else err Exception.os_error)
      else (some l, err Exception.os_error)

  unfoldable pub finished :
      AgentService → Option RunLog × Result (Unit {0}) → AgentService × Result Reply
  finished s (log, err e) = (record s { runlog = log }, err e)
  finished s (log, ok u) = (
    record s { runlog = log; run_name = none },
    ok (Reply.stopped s.run_name (samples_of log) true),
  )

  unfoldable pub finish_run : AgentService → AgentService × Result Reply
  unfolding finalize finished
  finish_run s = finished s (finalize s.runlog)

  -- `_halt`: the tasks end, then the agent's transport is stopped, which may raise.
  unfoldable pub halt_agent : AgentService → Option LocalAgent → AgentService × Result (Unit {0})
  halt_agent s none = (record s { tasks = false }, ok tt)
  halt_agent s (some agent) =
      let s' : AgentService = record s {
        tasks = false;
        agent = some (record agent { running = false });
      } in
      if world.transport_stops agent.params then (s', ok tt) else (s', err Exception.runtime_error)

  unfoldable pub halt : AgentService → AgentService × Result (Unit {0})
  unfolding halt_agent
  halt s = halt_agent s s.agent

  unfoldable pub after_halt : AgentService × Result (Unit {0}) → AgentService × Result Reply
  unfolding finish_run
  after_halt (s, err e) = (s, err e)
  after_halt (s, ok u) = finish_run s

  -- `_stop`
  unfoldable pub stop : AgentService → AgentService × Result Reply
  unfolding halt after_halt finish_run
  stop s =
      if is_relay s
      then (if is_some s.run_name
          then finish_run (record s { relay = stopped_relay s.relay })
          else (s, ok (Reply.stopped none 0 false)))
      else (if is_running s
          then after_halt (halt s)
          else (s, ok (Reply.stopped s.run_name (samples_of s.runlog) false)))
