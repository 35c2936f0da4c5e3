-- ===== src/Tests/ServiceRuns.antt =====
-- A session of the agent's service, and a connection to it, on concrete inputs.
use vertex_testbed.Agent.Service.{AgentType, Assignment, World, AgentService, agent_service, Reply}
use vertex_testbed.Agent.Service.Lifecycle.{configuring, starting, stopping, idle}
use vertex_testbed.Agent.Service.Phases.{execute_all-refines, Order, Traces}
use vertex_testbed.Agent.Service.Handlers.{rows, DataDir, Dictionaries}
use vertex_testbed.Control.Protocol.{Request, Command}
use vertex_testbed.Control.Transport.{StreamReader, closed}
use vertex_testbed.Control.Server.{Connection}
use vertex_testbed.Common.{zero, List, [], ◌∷◌, ℕ, none, Result, ok, err, true, false, Exception}
use vertex_testbed.Common.Bytes.{Bytes}
use vertex_testbed.Common.Int.{pos}

abbrev assignment : Assignment
assignment = record {
  node_id = 3;
  node_type = AgentType.wifi;
  relayed = record {
    node_id = 3;
    enabled = true;
    neighbors = 1 ∷ [];
    algorithm = record {
      dt_ms = pos 100;
      clock_ms = pos 200;
      state0 = pos 0;
      vstate0 = pos 0;
      vartheta0 = pos 0;
      counter0 = pos 0;
      gain_ij = pos 1;
      delta = pos 1;
      eta = pos 1;
      alpha = pos 1;
    };
    disturbance = record {
      active = true;
      sine_amplitude = pos 1;
      frequency = pos 1;
      phase = pos 0;
      noise_amplitude = pos 0;
      noise_offset = pos 0;
      beta = pos 1;
      samples = pos 10;
    };
    disturbance_seed = 7;
  };
  radio = none;
  log = record {
    neighbors = 1 ∷ [];
    dim = 1;
    state_columns = [];
    timing_columns = [];
    record_bytes = 0;
    samples = 0;
  };
}

-- The number 0 is not an assignment, and the transport of this node does not stop.
abbrev validated : ℕ → Result Assignment
validated zero = err Exception.value_error
validated n = ok assignment

abbrev world : World ℕ
world = record {
  validate = validated;
  has_link = false;
  link = λ n t bs. err Exception.link_error;
  epoch_us = 0;
  builds = λ a. true;
  accepts = λ a. true;
  transport_starts = λ a. true;
  transport_stops = λ a. false;
  log_opens = true;
  log_closes = true;
  log_finalizes = true;
}

-- A session: a start that is too early, a configuration that is refused, and a run.
-- The files of the log do not open.
abbrev full_disk : World ℕ
full_disk = record world { log_opens = false }

abbrev session : List (Order ℕ)
session =
    (starting (5 ∷ []), (world, 0))
    ∷ (configuring, (world, 0))
    ∷ (configuring, (world, 1))
    ∷ (starting (5 ∷ []), (full_disk, 0))
    ∷ (starting (5 ∷ []), (world, 0))
    ∷ (configuring, (world, 2))
    ∷ (starting (6 ∷ []), (world, 0))
    ∷ (stopping, (world, 0))
    ∷ []

execute_all-refines_example : Traces false (agent_service AgentType.wifi) session idle
execute_all-refines_example = execute_all-refines AgentType.wifi session

abbrev reply_number : Reply → ℕ
reply_number (Reply.configured n live) = n
reply_number (Reply.started name n) = n
reply_number (Reply.stopped name n was) = n

abbrev data_dir : DataDir
data_dir = record {
  glob = λ name n. record { name = 3 ∷ []; is_rows = true; contents = 1 ∷ 2 ∷ [] } ∷ [];
  file = λ name n artifact. none;
  runs = (5 ∷ []) ∷ [];
}

abbrev dictionaries : Dictionaries ℕ
dictionaries = record {
  run_name = λ args. 5 ∷ [];
  start_name = λ args. 5 ∷ [];
  artifact = λ args. rows;
  reply = reply_number;
  run_list = λ runs. 8;
  status = λ s. 9;
  empty = 0;
}

abbrev text : Exception → Bytes
text e = 3 ∷ []

abbrev connection : Connection AgentService
connection = record { state = agent_service AgentType.wifi; written = []; served = 0; errors = 0 }

abbrev requests : List (Request ℕ)
requests =
    record { command = Command.configure; args = 1; version = 1 }
    ∷ record { command = Command.fetch; args = 4; version = 1 }
    ∷ []

abbrev stream : StreamReader
stream = record {
  arriving = (0 ∷ 1 ∷ 12 ∷ []) ∷ (12 ∷ 10 ∷ 0 ∷ 5 ∷ 15 ∷ 12 ∷ 10 ∷ []) ∷ [];
  ending = closed;
}
