-- ===== src/Agent/Service/Handlers.antt =====
-- The command table of `AgentService`, `_fetch`, `_list_runs` and `_status`, vertex/agent/service.py.
-- The data directory is a parameter, and so are the dictionaries in which values travel.
use vertex_testbed.Agent.Service.{
  AgentService, Assignment, World, Reply, configure, start, stop, is_relay, is_running,
}
use vertex_testbed.Agent.Relay.{BleRelay}
use vertex_testbed.Agent.Relay
use vertex_testbed.Control.Protocol.{Command, Response, blob, respond_ok, protocol_version}
use vertex_testbed.Control.Server.{CommandHandler}
use vertex_testbed.Common.{
  List, [], ◌∷◌, ℕ, Option, none, some, Result, ok, err, true, Bool, Exception, length,
  if◌then◌else◌,
}
use vertex_testbed.Common.Bytes.{Bytes}
use vertex_testbed.Common.Int.{pos}

-- The keys of `ARTIFACTS`, and a word that is none of them.
pub data Artifact : Type 0 where
  meta rows json other : Artifact

-- A file: its name, whether its suffix is one of `.bin`, `.csv` and `.jsonl`, and its contents.
pub record StoredFile : Type 0 where
  pub name : Bytes
  pub is_rows : Bool
  pub contents : Bytes

-- `glob` yields the sorted matches of `<node>.*` in a run's directory, `file` the file
-- `<node><suffix>`, and `runs` the sorted names of the directories.
pub record DataDir : Type 0 where
  pub glob : Bytes → ℕ → List StoredFile
  pub file : Bytes → ℕ → Artifact → Option StoredFile
  pub runs : List Bytes

-- How dictionaries are read and made.
pub record Dictionaries (Args : Type 0) : Type 0 where
  pub run_name : Args → Bytes
  pub start_name : Args → Bytes
  pub artifact : Args → Artifact
  pub reply : Reply → Args
  pub run_list : List Bytes → Args
  pub status : AgentService → Args
  pub empty : Args

abbrev first_rows : List StoredFile → Option StoredFile
first_rows [] = none
first_rows (f ∷ fs) = if f.is_rows then some f else first_rows fs

-- The `running` entry of `_status`: that of `BleRelay.status` replaces the service's own.
unfoldable pub status_running : AgentService → Bool
unfolding Relay.is_running
status_running s = elim s.relay [
  | none ↦ is_running s
  | some r ↦ if is_relay s then Relay.is_running r else is_running s
]

module _ {Args : Type 0} (world : World Args) (data_dir : DataDir) (dicts : Dictionaries Args) where
  abbrev Outcome : Type 0
  Outcome = AgentService × Result (Response Args × Option Bytes)

  unfoldable pub served : AgentService → Option StoredFile → Outcome
  served s none = (s, err Exception.file_not_found)
  served s (some f) = (
    s,
    ok (
      record {
        ok = true;
        kind = blob;
        data_ = dicts.empty;
        error = none;
        n_bytes = pos (length f.contents);
        name = f.name;
        version = protocol_version;
      },
      some f.contents,
    ),
  )

  unfoldable pub found : AgentService → Bytes → Artifact → Assignment → Outcome
  unfolding served
  found s name rows a = served s (first_rows (data_dir.glob name a.node_id))
  found s name meta a = served s (data_dir.file name a.node_id meta)
  found s name json a = served s (data_dir.file name a.node_id json)
  found s name other a = (s, err Exception.value_error)

  unfoldable pub fetch_as : AgentService → Bytes → Artifact → Option Assignment → Outcome
  unfolding found
  fetch_as s name other o = (s, err Exception.value_error)
  fetch_as s name artifact none = (s, err Exception.runtime_error)
  fetch_as s name artifact (some a) = found s name artifact a

  -- `_fetch`
  unfoldable pub fetch : Args → AgentService → Outcome
  unfolding fetch_as
  fetch args s = fetch_as s (dicts.run_name args) (dicts.artifact args) s.assignment

  unfoldable pub replied_with : AgentService × Result Reply → Outcome
  replied_with (s, err e) = (s, err e)
  replied_with (s, ok r) = (s, ok (respond_ok (dicts.reply r), none))

  -- `_handlers`
  unfoldable pub handlers : Command → Option (CommandHandler Args AgentService)
  unfolding fetch replied_with configure start stop
  handlers Command.status = some (λ args s. (s, ok (respond_ok (dicts.status s), none)))
  handlers Command.configure = some (λ args s. replied_with (configure world s args))
  handlers Command.start = some (λ args s. replied_with (start world s (dicts.start_name args)))
  handlers Command.stop = some (λ args s. replied_with (stop world s))
  handlers Command.list_runs =
      some (λ args s. (s, ok (respond_ok (dicts.run_list data_dir.runs), none)))
  handlers Command.fetch = some fetch
