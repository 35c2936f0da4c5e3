-- ===== src/Tests/HubRuns.antt =====
-- A run of the hub (vertex/hub/runner.py) over three nodes.
use vertex_testbed.Hub.Outcome.{run-report_ok, run-barrier}
use vertex_testbed.Hub.Phases.{phase}
use vertex_testbed.Common.{refl, ◌≡◌, ◌+◌, ◌≤◌, ◌==◌, All, not, [], ◌∷◌, some, true, false}
use vertex_testbed.Hub.Runner.{report_ok, Event, Fleet, run}

-- Node 2 refuses its configuration; the others answer everything.
abbrev fleet : Fleet
fleet = record {
  configures = λ i. not (i == 2);
  starts = λ i. some (100 + i);
  stops = λ i. some 40;
  fetches = λ i a. some i;
  reconfigures = λ at i. true;
}

abbrev event : Event
event = record { at = 10; nodes = 3 ∷ 8 ∷ [] }

run-barrier_example :
    let r = run fleet 0 60 (event ∷ []) (1 ∷ 2 ∷ 3 ∷ []) in
    All (λ c. phase c ≤ 1) r.0 × All (λ n. n.started ≡ false) r.1.nodes × (r.1.written ≡ false)
run-barrier_example = run-barrier fleet 0 60 (event ∷ []) (1 ∷ 2 ∷ 3 ∷ []) 2 refl refl

run-report_ok_example : report_ok (run fleet 0 60 (event ∷ []) (1 ∷ 3 ∷ [])).1 ≡ true
run-report_ok_example = run-report_ok fleet 0 60 (event ∷ []) (1 ∷ 3 ∷ [])
