-- ===== src/Transports/Multi.antt =====
-- `MultiTransport` of vertex/transports/multi.py. The member transports are a parameter, `Media`:
-- which of them start, stop and publish without raising. A member stands for its name.
use vertex_testbed.Common.Dict.{lookup, or_default, insert, Dict}
use vertex_testbed.Common.{
  ltb, Exception, ◌==◌, ◌+◌, length, ◌||◌, leb, not, true, elem, require, ◌>>◌, false, map, ◌++◌,
  if◌then◌else◌, Bool, Result, List, [], ◌∷◌, ℕ, suc, Option, none, some, ok,
}

pub record Media : Type 0 where
  pub starts : ℕ → Bool
  pub stops : ℕ → Bool
  pub publishes : ℕ → Bool

pub record MultiStats : Type 0 where
  pub published : ℕ
  pub partial : ℕ
  pub failed : ℕ
  pub per_medium_errors : Dict ℕ
  pub last_error : Option ℕ

-- A call of a member.
pub data Call : Type 0 where
  start_call stop_call publish_call : ℕ → Call

-- `calls` is what the members were called with, in order.
pub record MultiTransport : Type 0 where
  pub members : List ℕ
  pub started : List ℕ
  pub stats : MultiStats
  pub calls : List Call

abbrev has_repeat : List ℕ → Bool
has_repeat [] = false
has_repeat (x ∷ xs) = elem x xs || has_repeat xs

-- The constructor.
unfoldable multi_transport : List ℕ → Result MultiTransport
multi_transport members = do
  require (leb 2 (length members)) Exception.value_error
  require (not (has_repeat members)) Exception.value_error
  ok (record {
    members = members;
    started = [];
    stats = record {
      published = 0;
      partial = 0;
      failed = 0;
      per_medium_errors = [];
      last_error = none;
    };
    calls = [];
  })

abbrev pub reversed : List ℕ → List ℕ
reversed [] = []
reversed (x ∷ xs) = reversed xs ++ (x ∷ [])

-- The loop of `start` over the members that are left, and whether it raises. A member that raises
-- from `stop` is passed over.
unfoldable pub start_from : Media → List ℕ → MultiTransport → MultiTransport × Bool
start_from media [] t = (t, false)
start_from media (m ∷ ms) t =
    let next =
      start_from media ms
        (record t { started = t.started ++ (m ∷ []); calls = t.calls ++ (start_call m ∷ []) }) in
    if media.starts m then next else (
      record t {
        started = [];
        calls = t.calls ++ (start_call m ∷ map stop_call (reversed t.started));
      },
      true,
    )

unfoldable pub start : Media → MultiTransport → MultiTransport × Bool
unfolding start_from
start media t = start_from media t.members t

-- The first member that raises.
abbrev first_failing : (ℕ → Bool) → List ℕ → Option ℕ
first_failing good [] = none
first_failing good (m ∷ ms) = let rest = first_failing good ms in if good m then rest else some m

abbrev last_failing : (ℕ → Bool) → List ℕ → Option ℕ → Option ℕ
last_failing good [] e = e
last_failing good (m ∷ ms) e = last_failing good ms (if good m then e else some m)

abbrev or_else : Option ℕ → Option ℕ → Option ℕ
or_else none e = e
or_else (some m) e = some m

-- `stop`: `last_error` is that of the first member to raise, in the order of stopping.
unfoldable pub stop : Media → MultiTransport → MultiTransport
stop media t = record t {
  started = [];
  calls = t.calls ++ map stop_call (reversed t.started);
  stats = record (t.stats) {
    last_error = or_else (first_failing media.stops (reversed t.started)) t.stats.last_error;
  };
}

abbrev pub failures_of : Media → List ℕ → ℕ
failures_of media [] = 0
failures_of media (m ∷ ms) = let n = failures_of media ms in if media.publishes m then n else suc n

-- The counting of the members that raised from `publish`.
unfoldable pub count_errors : Media → List ℕ → Dict ℕ → Dict ℕ
count_errors media [] errors = errors
count_errors media (m ∷ ms) errors =
    count_errors media ms
      (if media.publishes m then errors else insert m (or_default (lookup m errors) 0 + 1) errors)

unfoldable pub publish : Media → MultiTransport → Result MultiTransport
unfolding count_errors
publish media t = do
  require (not (length t.started == 0)) Exception.runtime_error
  let failures = failures_of media t.started
  let stats = record (t.stats) {
    per_medium_errors = count_errors media t.started t.stats.per_medium_errors;
    last_error = last_failing media.publishes t.started t.stats.last_error;
  }
  ok (record t {
    calls = t.calls ++ map publish_call t.started;
    stats =
        if failures == 0
        then record stats { published = t.stats.published + 1 }
        else if ltb failures (length t.started)
        then record stats { partial = t.stats.partial + 1 }
        else record stats { failed = t.stats.failed + 1 };
  })
