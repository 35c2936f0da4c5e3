-- ===== src/Agent/Service/Lifecycle.antt =====
-- The life cycle that the documentation of vertex/agent/service.py describes, and what it means
-- that a command follows it.
use vertex_testbed.Agent.Service.{AgentService, Reply, is_some, is_relay, is_running}
use vertex_testbed.Common.{
  [], Option, none, some, Result, ok, err, true, false, Bool, ◌&&◌, ◌||◌, if◌then◌else◌, not, ◌≡◌,
  refl,
}
use vertex_testbed.Common.Bytes.{Bytes}

pub data Phase : Type 0 where
  idle ready : Phase
  running : Bytes → Phase

abbrev name_of : Option Bytes → Bytes
name_of none = []
name_of (some n) = n

abbrev pub phase : AgentService → Phase
phase s =
    if is_running s
    then running (name_of s.run_name)
    else (if is_some s.assignment && (is_some s.agent || is_some s.relay) then ready else idle)

-- What holds between two commands: a relay has no agent and no tasks of its own, and the others
-- have no relay; what has been built has an assignment, and what runs has been built and, where it
-- has tasks, has a name.
abbrev pub is_valid : AgentService → Bool
is_valid s =
    if is_relay s
    then (not (is_some s.agent)
        && not s.tasks
        && (not (is_some s.relay) || is_some s.assignment)
        && (not (is_some s.run_name) || is_some s.relay))
    else (not (is_some s.relay)
        && (not (is_some s.agent) || is_some s.assignment)
        && (not s.tasks || (is_some s.agent && is_some s.run_name)))

pub data Operation : Type 0 where
  configuring stopping : Operation
  starting : Bytes → Operation

abbrev pub succeeded {ℓ} : {A : Type ℓ} → Result A → Bool
succeeded (err e) = false
succeeded (ok a) = true

-- The life cycle of a relay, or of another agent: the phase after an operation that succeeds or
-- raises. A configuration of a run in progress leaves it in progress. A stop ends it; where the stop
-- raises, the loops of an agent have ended all the same, but the run of a relay is still in progress.
abbrev pub next : Bool → Phase → Operation → Bool → Phase
next relay (running n) configuring good = running n
next relay p configuring true = ready
next relay p configuring false = p
next relay p (starting n) true = running n
next relay p (starting n) false = p
next true (running n) stopping false = running n
next relay (running n) stopping good = ready
next relay p stopping good = p

-- Only what is ready is started, and only a run in progress can fail to stop.
abbrev pub may : Phase → Operation → Bool → Bool
may ready (starting n) true = true
may p (starting n) true = false
may (running n) stopping false = true
may p stopping false = false
may p o good = true

abbrev pub Follows : AgentService → Operation → AgentService × Result Reply → Type 0
Follows s o x =
    (is_valid (x.0) ≡ true)
    × (is_relay (x.0) ≡ is_relay s)
    × (phase (x.0) ≡ next (is_relay s) (phase s) o (succeeded (x.1)))
    × (may (phase s) o (succeeded (x.1)) ≡ true)

pub Follows-if :
    (s : AgentService) (o : Operation) (b : Bool) (x y : AgentService × Result Reply)
    → (b ≡ true → Follows s o x)
    → (b ≡ false → Follows s o y)
    → Follows s o (if b then x else y)
Follows-if s o true x y f g = f refl
Follows-if s o false x y f g = g refl
