-- ===== src/Tests/NodeRuns.antt =====
-- The parts of a node's process, and the topology, on concrete inputs.
use vertex_testbed.Agent.Relay.{OnReport, Assignment, RequestLink, ble_relay, configure}
use vertex_testbed.Agent.Relay.Frames.{configure-AsksQuietly, AsksQuietly, assignment_after}
use vertex_testbed.Agent.Relay.Reports.{
  handle_all-Handled, handle_all, heard_by, state_reports, state_frames,
}
use vertex_testbed.Agent.RunLog.{
  Doubles, RunMeta, Sample, RunLog, column_names, row_of, run_log, start, close, recover_rows,
}
use vertex_testbed.Agent.RunLog.Layout.{row_of-entries, columns_of, cells_of, entries, FitsMeta}
use vertex_testbed.Agent.RunLog.Recovery.{IsDouble, recover_rows-flat, flat}
use vertex_testbed.Agent.RunLog.Written.{recover_rows-append_all, append_all, rows_of}
use vertex_testbed.Agent.Periodic.{Loop, run_periodic}
use vertex_testbed.Agent.Periodic.Pace.{run_periodic-Paced, Paced}
use vertex_testbed.Serial.Frame.{Frame}
use vertex_testbed.Serial.FrameType
use vertex_testbed.Common.{
  replicate, zero, suc, List, [], ◌∷◌, ℕ, Option, none, some, ok, err, true, false, Exception, ◌++◌,
  ◌≡◌, refl, arith, ◌+◌, length, inr,
}
use vertex_testbed.Common.Bytes.{Bytes}
use vertex_testbed.Common.Int.{pos}

-- A board that refuses its second request.
abbrev board : RequestLink
board zero t bs = ok (record { type = FrameType.ack; payload = [] })
board (suc zero) t bs = err Exception.link_error
board n t bs = ok (record { type = FrameType.ack; payload = [] })

abbrev assignment : Assignment
assignment = record {
  node_id = 3;
  enabled = true;
  neighbors = 1 ∷ 2 ∷ [];
  algorithm = record {
    dt_ms = pos 100;
    clock_ms = pos 200;
    state0 = pos 0;
    vstate0 = pos 0;
    vartheta0 = pos 0;
    counter0 = pos 0;
    gain_ij = pos 1;
    delta = pos 1;
    eta = pos 1;
    alpha = pos 1;
  };
  disturbance = record {
    active = true;
    sine_amplitude = pos 1;
    frequency = pos 1;
    phase = pos 0;
    noise_amplitude = pos 0;
    noise_offset = pos 0;
    beta = pos 1;
    samples = pos 10;
  };
  disturbance_seed = 7;
}

configure-AsksQuietly_example :
    AsksQuietly ble_relay (configure board ble_relay assignment (some (FrameType.radio, 1 ∷ []))).0
    × ((configure board ble_relay assignment (some (FrameType.radio, 1 ∷ []))).0.assignment
        ≡ assignment_after ble_relay assignment
            (configure board ble_relay assignment (some (FrameType.radio, 1 ∷ []))).1)
configure-AsksQuietly_example =
    configure-AsksQuietly board ble_relay assignment (some (FrameType.radio, 1 ∷ []))
      (λ q. omega arith)

-- A report without neighbours, a STATE frame that is too short, and a frame that answers a request.
abbrev frames : List (Frame × Option ℕ)
frames =
    (record { type = FrameType.state; payload = replicate 25 0 }, none)
    ∷ (record { type = FrameType.state; payload = 1 ∷ [] }, some 5)
    ∷ (record { type = FrameType.ack; payload = [] }, none)
    ∷ []

abbrev listener : OnReport
listener = some (λ report t. false)

handle_all-Handled_example :
    let r' = handle_all listener ble_relay frames in
    (r'.handed_on ≡ ble_relay.handed_on ++ heard_by listener (state_reports frames))
    × (r'.counters.reports ≡ ble_relay.counters.reports + length (state_reports frames))
    × (r'.counters.reports + r'.counters.malformed
        ≡ ble_relay.counters.reports + ble_relay.counters.malformed + state_frames frames)
handle_all-Handled_example = handle_all-Handled listener frames ble_relay

abbrev first : Bytes → ℕ
first [] = 0
first (b ∷ bs) = b

-- Numbers in place of doubles.
abbrev numbers : Doubles ℕ
numbers = record {
  nought = 0;
  unit = 1;
  pack = λ v. v ∷ 0 ∷ 0 ∷ 0 ∷ 0 ∷ 0 ∷ 0 ∷ 0 ∷ [];
  unpack = first;
}

numbers-IsDouble : IsDouble numbers
numbers-IsDouble = record { eight = λ v. refl; exact = λ v. refl }

abbrev two_neighbours : RunMeta
two_neighbours = record {
  neighbors = 4 ∷ 9 ∷ [];
  dim = 2;
  state_columns = 0 ∷ [];
  timing_columns = 1 ∷ 2 ∷ [];
  record_bytes = 0;
  samples = 0;
}

abbrev sample : Sample ℕ
sample = record {
  t_s = 10;
  channels = 50 ∷ [];
  neighbor_vstates = 41 ∷ 42 ∷ 91 ∷ [];
  neighbor_fresh = true ∷ [];
  device_t_s = none;
  neighbor_seq = 6 ∷ 7 ∷ [];
  neighbor_rssi = [];
  timing = 1 ∷ 2 ∷ [];
}

row_of-entries_example :
    (column_names two_neighbours ≡ columns_of numbers (entries numbers two_neighbours sample))
    × (row_of numbers two_neighbours sample
        ≡ cells_of numbers (entries numbers two_neighbours sample))
row_of-entries_example = row_of-entries numbers two_neighbours sample (inr refl) (refl, refl)

recover_rows-flat_example :
    recover_rows numbers
      (record two_neighbours { record_bytes = 16 })
      (flat numbers ((5 ∷ 6 ∷ []) ∷ (7 ∷ 8 ∷ []) ∷ []) ++ (9 ∷ 0 ∷ 0 ∷ []))
    ≡ ok ((5 ∷ 6 ∷ []) ∷ (7 ∷ 8 ∷ []) ∷ [])
recover_rows-flat_example =
    recover_rows-flat numbers numbers-IsDouble (record two_neighbours { record_bytes = 16 }) 2
      ((5 ∷ 6 ∷ []) ∷ (7 ∷ 8 ∷ []) ∷ []) (9 ∷ 0 ∷ 0 ∷ []) refl (omega arith) (refl, (refl, tt))
      (omega arith)

abbrev new_log : RunLog
new_log = record {
  meta = record two_neighbours { record_bytes = 120 };
  flush_every = 25;
  ncols = 15;
  is_open = false;
  file = [];
  buf = [];
  since_flush = 0;
  samples = 0;
}

new_log_made : run_log two_neighbours 25 ≡ ok new_log
unfolding run_log
new_log_made = refl

start-FitsMeta : FitsMeta numbers (start new_log).meta sample
unfolding start
start-FitsMeta = (refl, refl)

recover_rows-append_all_example :
    (l' : RunLog) × (append_all numbers (start new_log) (sample ∷ sample ∷ []) ≡ ok l')
    × (recover_rows numbers (close l').meta (close l').file
        ≡ ok (rows_of numbers (start new_log).meta (sample ∷ sample ∷ [])))
    × ((close l').meta.samples
        ≡ length (rows_of numbers (start new_log).meta (sample ∷ sample ∷ [])))
recover_rows-append_all_example =
    recover_rows-append_all numbers numbers-IsDouble two_neighbours 25 new_log
      (sample ∷ sample ∷ []) new_log_made (start-FitsMeta, (start-FitsMeta, tt))

-- A loop of ten ticks that oversleeps by more than two periods once.
abbrev loop : Loop
loop = record {
  now = 100;
  next_deadline = 110;
  timing = record {
    iterations = 0;
    late_iterations = 0;
    max_error = 0;
    total_error = 0;
    overruns = 0;
  };
}

run_periodic-Paced_example : Paced 1 loop 3 (run_periodic 1 loop ((0, 2) ∷ (25, 1) ∷ (0, 3) ∷ []))
run_periodic-Paced_example =
    run_periodic-Paced 1 loop ((0, 2) ∷ (25, 1) ∷ (0, 3) ∷ []) (omega arith)
