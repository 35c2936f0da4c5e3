-- ===== src/Topology/Validate/Sound.antt =====
-- What a manifest without errors has.
use vertex_testbed.Topology.Validate.{
  DiGraph, Networkx, build_graph, is_enabled, n_max_neighbors_firmware,
}
use vertex_testbed.Topology.Models.{NodeSpec, by_id, ids}
use vertex_testbed.Agent.Service.{AgentType, same_type}
use vertex_testbed.Common.{
  List, [], ◌∷◌, ℕ, Option, none, some, true, false, Bool, ◌==◌, ◌&&◌, ◌||◌, elem, length, ◌≡◌, ◌≤◌,
}

abbrev pub has_edge : List (ℕ × ℕ) → ℕ → ℕ → Bool
has_edge [] u v = false
has_edge ((a, b) ∷ es) u v = (u == a && v == b) || has_edge es u v

-- A route from `p` to a vertex along the edges. It may lead through agents that are disabled.
pub data HasRoute (g : DiGraph) (p : ℕ) : ℕ → Type 0 where
  itself : HasRoute g p p
  onward : {u v : ℕ} → HasRoute g p u → has_edge g.edges u v ≡ true → HasRoute g p v

abbrev Pinned : Networkx → DiGraph → List ℕ → ℕ → Type 0
Pinned nx g ps v = (p : ℕ) × (elem p ps ≡ true) × HasRoute g p v

abbrev pub FitsBoard : NodeSpec → Type 0
FitsBoard n = same_type n.type AgentType.ble ≡ true → length n.neighbors ≤ n_max_neighbors_firmware

-- To every declared agent there is a route from one that is pinned and enabled.
abbrev pub AllReached : List NodeSpec → List ℕ → Type 0
AllReached nodes pinned =
    (v : ℕ)
    → elem v (ids nodes) ≡ true
    → (p : ℕ) × (elem p pinned ≡ true)
      × (is_enabled (by_id nodes p) ≡ true)
      × HasRoute (build_graph nodes) p v

abbrev pins_or : Option (List ℕ) → List ℕ → List ℕ
pins_or none d = d
pins_or (some p) d = p
