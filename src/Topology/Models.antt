-- ===== src/Topology/Models.antt =====
-- `NodeSpec`, `CoordinationSpec` and `ExperimentManifest` of vertex/topology/models.py, with the
-- validators of the two that concern the graph. An address is a number.
use vertex_testbed.Agent.Service.{AgentType, same_type}
use vertex_testbed.Common.{
  List, [], ◌∷◌, ℕ, Option, none, some, Result, true, false, Bool, Exception, ◌==◌, ◌&&◌, ◌||◌, not,
  elem, leb, require, ◌>>◌, if◌then◌else◌,
}

pub record NodeSpec : Type 0 where
  pub id : ℕ
  pub ip : ℕ
  pub type : AgentType
  pub enabled : Bool
  pub neighbors : List ℕ

-- `pinned` holds the ids that have a pinning coefficient.
pub record ExperimentManifest : Type 0 where
  pub nodes : List NodeSpec
  pub pinned : Option (List ℕ)

abbrev max_node_id : ℕ
max_node_id = 255

abbrev pub repeats : List ℕ → Bool
repeats [] = false
repeats (x ∷ xs) = elem x xs || repeats xs

-- The range of `id`, and `_no_self_loop_or_dupes`.
unfoldable valid_node : NodeSpec → Result (Unit {0})
valid_node n = do
  require (leb 1 n.id && leb n.id max_node_id) Exception.value_error
  require (not (elem n.id n.neighbors)) Exception.value_error
  require (not (repeats n.neighbors)) Exception.value_error

-- `ids`
abbrev pub ids : List NodeSpec → List ℕ
ids [] = []
ids (n ∷ ns) = n.id ∷ ids ns

abbrev pub all_in : List ℕ → List ℕ → Bool
all_in [] known = true
all_in (j ∷ js) known = elem j known && all_in js known

abbrev pub all_declared : List NodeSpec → List ℕ → Bool
all_declared [] known = true
all_declared (n ∷ ns) known = all_in n.neighbors known && all_declared ns known

abbrev pub same_slot : NodeSpec → NodeSpec → Bool
same_slot m n = m.ip == n.ip && same_type m.type n.type

abbrev pub shares_slot : NodeSpec → List NodeSpec → Bool
shares_slot n [] = false
shares_slot n (m ∷ ms) = same_slot n m || shares_slot n ms

abbrev pub clashes : List NodeSpec → Bool
clashes [] = false
clashes (n ∷ ns) = shares_slot n ns || clashes ns

abbrev pub is_empty : List NodeSpec → Bool
is_empty [] = true
is_empty (n ∷ ns) = false

-- `_coherent`
unfoldable pub coherent : ExperimentManifest → Result (Unit {0})
coherent m = do
  require (not (is_empty m.nodes)) Exception.value_error
  require (not (repeats (ids m.nodes))) Exception.value_error
  require (all_declared m.nodes (ids m.nodes)) Exception.value_error
  require (not (clashes m.nodes)) Exception.value_error

-- `by_id`: of two nodes with one id the later stands.
abbrev pub by_id : List NodeSpec → ℕ → Option NodeSpec
by_id [] j = none
by_id (n ∷ ns) j = elim (by_id ns j) [ some m ↦ some m | none ↦ if n.id == j then some n else none ]
