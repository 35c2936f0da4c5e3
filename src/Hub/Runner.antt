-- ===== src/Hub/Runner.antt =====
-- `ExperimentRunner.run` of vertex/hub/runner.py. The agents at the other end of the control
-- connection are a parameter, `Fleet`: what each of them answers to each command. The commands that
-- `asyncio.gather` issues together stand in the order of the node ids.
use vertex_testbed.Common.{
  Exception, ◌-◌, length, require, leb, ◌==◌, elem, true, ltb, ◌>>◌, ◌&&◌, not, ◌++◌, false, Bool,
  map, Result, if◌then◌else◌, List, [], ◌∷◌, ℕ, Option, none, some, ok,
}

-- `ARTIFACTS`
pub data Artifact : Type 0 where
  meta rows : Artifact

abbrev pub artifacts : List Artifact
artifacts = meta ∷ rows ∷ []

-- What went wrong at a node, without its text.
pub data Fault : Type 0 where
  configure_failed start_failed stop_failed not_started : Fault
  fetch_failed : Artifact → Fault

-- `started_at` is the hub's clock; `files` holds the names of the artefacts fetched.
pub record NodeOutcome : Type 0 where
  pub node_id : ℕ
  pub configured : Bool
  pub started : Bool
  pub stopped : Bool
  pub samples : ℕ
  pub started_at : Option ℕ
  pub files : List (Artifact × ℕ)
  pub errors : List Fault

abbrev pub node_outcome : ℕ → NodeOutcome
node_outcome id = record {
  node_id = id;
  configured = false;
  started = false;
  stopped = false;
  samples = 0;
  started_at = none;
  files = [];
  errors = [];
}

abbrev pub no_errors : List Fault → Bool
no_errors [] = true
no_errors (e ∷ es) = false

-- `NodeOutcome.ok`
abbrev pub is_ok : NodeOutcome → Bool
is_ok n = n.configured && n.started && no_errors n.errors

-- Answers: to `configure`; to `start`, with the hub's clock when it came; to `stop`, with the
-- samples; to `fetch`, with the file's name; and to the `configure` of an event at a time.
pub record Fleet : Type 0 where
  pub configures : ℕ → Bool
  pub starts : ℕ → Option ℕ
  pub stops : ℕ → Option ℕ
  pub fetches : ℕ → Artifact → Option ℕ
  pub reconfigures : ℕ → ℕ → Bool

-- `_configure_one`
unfoldable pub configure_one : Fleet → NodeOutcome → NodeOutcome
configure_one fleet out =
    if fleet.configures out.node_id
    then record out { configured = true }
    else record out { errors = out.errors ++ (configure_failed ∷ []) }

unfoldable pub started_by : Option ℕ → NodeOutcome → NodeOutcome
started_by none out = record out { errors = out.errors ++ (start_failed ∷ []) }
started_by (some now) out = record out { started = true; started_at = some now }

-- `_start_one`
unfoldable pub start_one : Fleet → NodeOutcome → NodeOutcome
unfolding started_by
start_one fleet out = started_by (fleet.starts out.node_id) out

unfoldable pub stopped_by : Option ℕ → NodeOutcome → NodeOutcome
stopped_by none out = record out { errors = out.errors ++ (stop_failed ∷ []) }
stopped_by (some n) out = record out { stopped = true; samples = n }

-- `_stop_one`
unfoldable pub stop_one : Fleet → NodeOutcome → NodeOutcome
unfolding stopped_by
stop_one fleet out = stopped_by (fleet.stops out.node_id) out

unfoldable pub fetched : Option ℕ → Artifact → NodeOutcome → NodeOutcome
fetched none artifact out = record out { errors = out.errors ++ (fetch_failed artifact ∷ []) }
fetched (some name) artifact out = record out { files = out.files ++ ((artifact, name) ∷ []) }

-- `_collect_one`: the loop over the artefacts that are left.
unfoldable pub collect_one : Fleet → List Artifact → NodeOutcome → NodeOutcome
unfolding fetched
collect_one fleet [] out = out
collect_one fleet (a ∷ rest) out =
    collect_one fleet rest (fetched (fleet.fetches out.node_id a) a out)

-- A command to one node.
pub data Command : Type 0 where
  clear configure reconfigure stop : ℕ → Command
  start : ℕ → ℕ → Command
  fetch : ℕ → Artifact → Command

-- A change that the manifest schedules for some nodes.
pub record Event : Type 0 where
  pub at : ℕ
  pub nodes : List ℕ

pub data Note : Type 0 where
  skipped : ℕ → Note
  applied : ℕ → List ℕ → Note

pub record RunReport : Type 0 where
  pub nodes : List NodeOutcome
  pub spread : ℕ
  pub notes : List Note
  pub written : Bool

-- `RunReport.ok`
abbrev pub all_ok : List NodeOutcome → Bool
all_ok [] = true
all_ok (n ∷ ns) = is_ok n && all_ok ns

abbrev pub report_ok : RunReport → Bool
report_ok r = not (length r.nodes == 0) && all_ok r.nodes

abbrev pub all_configured : List NodeOutcome → Bool
all_configured [] = true
all_configured (n ∷ ns) = n.configured && all_configured ns

-- The fault that the barrier adds to a node that was configured.
unfoldable pub held_back : NodeOutcome → NodeOutcome
held_back n = if n.configured then record n { errors = n.errors ++ (not_started ∷ []) } else n

-- The elements of `xs` that are among `ids`.
unfoldable pub among : List ℕ → List ℕ → List ℕ
among ids [] = []
among ids (x ∷ xs) = let rest = among ids xs in if elem x ids then x ∷ rest else rest

-- The targets of an event at `at` that take it.
unfoldable taken : Fleet → ℕ → List ℕ → List ℕ
taken fleet at [] = []
taken fleet at (x ∷ xs) =
    let rest = taken fleet at xs in if fleet.reconfigures at x then x ∷ rest else rest

-- The loop over the events, in the order of their times: the commands and the notes.
unfoldable pub apply_events : Fleet → ℕ → List ℕ → List Event → List Command × List Note
unfolding among taken
apply_events fleet duration ids [] = ([], [])
apply_events fleet duration ids (e ∷ es) =
    let (commands, notes) = apply_events fleet duration ids es in
    if leb duration e.at then (commands, skipped e.at ∷ notes) else (
      map reconfigure (among ids e.nodes) ++ commands,
      applied e.at (taken fleet e.at (among ids e.nodes)) ∷ notes,
    )

stamp_of : Option ℕ → List ℕ
stamp_of none = []
stamp_of (some t) = if t == 0 then [] else t ∷ []

-- `[n.started_at for n in report.nodes.values() if n.started_at]`
unfoldable pub stamps : List NodeOutcome → List ℕ
unfolding stamp_of
stamps [] = []
stamps (n ∷ ns) = stamp_of n.started_at ++ stamps ns

abbrev largest : List ℕ → ℕ
largest [] = 0
largest (x ∷ xs) = let m = largest xs in if leb m x then x else m

abbrev smallest : ℕ → List ℕ → ℕ
smallest d [] = d
smallest d (x ∷ xs) = let m = smallest x xs in if leb x m then x else m

-- `max(stamps) - min(stamps) if len(stamps) > 1 else 0.0`
unfoldable pub trigger_spread : List ℕ → ℕ
trigger_spread ts = if ltb 1 (length ts) then largest ts - smallest 0 ts else 0

abbrev pub fetches_of : List ℕ → List Command
fetches_of [] = []
fetches_of (x ∷ xs) = map (fetch x) artifacts ++ fetches_of xs

-- The part of `run` behind the barrier.
unfoldable pub run_configured :
    Fleet → ℕ → ℕ → List Event → List ℕ → List NodeOutcome → List Command × RunReport
unfolding apply_events
run_configured fleet epoch duration events ids nodes =
    let running = map (start_one fleet) nodes in
    let (changes, notes) = apply_events fleet duration ids events in
    let stopped = map (stop_one fleet) running in
    (
      map (λ i. start i epoch) ids ++ (changes ++ (map stop ids ++ fetches_of ids)),
      record {
        nodes = map (collect_one fleet artifacts) stopped;
        spread = trigger_spread (stamps running);
        notes = notes;
        written = true;
      },
    )

-- `run` for known node ids, with the events in the order of their times: the commands in the order
-- in which they are issued, and the report.
unfoldable pub run : Fleet → ℕ → ℕ → List Event → List ℕ → List Command × RunReport
unfolding run_configured
run fleet epoch duration events ids =
    let nodes = map (configure_one fleet) (map node_outcome ids) in
    let before = map clear ids ++ map configure ids in
    if not (all_configured nodes)
    then (before, record { nodes = map held_back nodes; spread = 0; notes = []; written = false })
    else (let (commands, report) = run_configured fleet epoch duration events ids nodes in
        (before ++ commands, report))

all_known : List ℕ → List ℕ → Bool
all_known known [] = true
all_known known (x ∷ xs) = elem x known && all_known known xs

-- The test on the node ids that `run` begins with.
unfoldable run_known :
    List ℕ → Fleet → ℕ → ℕ → List Event → List ℕ → Result (List Command × RunReport)
unfolding all_known
run_known known fleet epoch duration events ids = do
  require (all_known known ids) Exception.value_error
  ok (run fleet epoch duration events ids)
