-- ===== src/Topology/Validate.antt =====
-- The errors of `check` in vertex/topology/validate.py. What the source takes from networkx is a
-- parameter, `Networkx`. The report's figures and its warnings are left out.
pub mod Sound
use vertex_testbed.Agent.Service.{AgentType, same_type}
use vertex_testbed.Topology.Models.{NodeSpec, ExperimentManifest, by_id, ids}
use vertex_testbed.Common.{
  List, [], ◌∷◌, ℕ, Option, none, some, true, false, Bool, ◌++◌, ◌==◌, ◌&&◌, ◌||◌, not, elem, leb,
  length, if◌then◌else◌,
}

-- A directed graph; an edge runs from the agent that is read to the one that reads it.
pub record DiGraph : Type 0 where
  pub vertices : List ℕ
  pub edges : List (ℕ × ℕ)

pub record Networkx : Type 0 where
  pub is_weakly_connected : DiGraph → Bool
  pub is_strongly_connected : DiGraph → Bool
  pub descendants : DiGraph → ℕ → List ℕ

abbrev edges_into : ℕ → List ℕ → List ℕ → List (ℕ × ℕ)
edges_into id [] known = []
edges_into id (j ∷ js) known =
    if elem j known then (j, id) ∷ edges_into id js known else edges_into id js known

abbrev all_edges : List NodeSpec → List ℕ → List (ℕ × ℕ)
all_edges [] known = []
all_edges (n ∷ ns) known = edges_into n.id n.neighbors known ++ all_edges ns known

-- `build_graph`, of all the nodes.
unfoldable pub build_graph : List NodeSpec → DiGraph
build_graph nodes = record { vertices = ids nodes; edges = all_edges nodes (ids nodes) }

pub data GraphError : Type 0 where
  pins_unknown nothing_pinned pins_disabled out_of_reach : GraphError
  isolated_nodes disconnected not_strong no_medium too_many_neighbours : GraphError

abbrev pub error_if : Bool → GraphError → List GraphError
error_if true e = e ∷ []
error_if false e = []

abbrev pub some_of : List ℕ → Bool
some_of [] = false
some_of (x ∷ xs) = true

-- The ids that are declared, and of those the ones that are enabled.
abbrev pub known_pins : List NodeSpec → List ℕ → List ℕ
known_pins nodes [] = []
known_pins nodes (p ∷ ps) =
    if elem p (ids nodes) then p ∷ known_pins nodes ps else known_pins nodes ps

abbrev pub is_enabled : Option NodeSpec → Bool
is_enabled none = false
is_enabled (some n) = n.enabled

abbrev pub live_pins : List NodeSpec → List ℕ → List ℕ
live_pins nodes [] = []
live_pins nodes (p ∷ ps) =
    if is_enabled (by_id nodes p) then p ∷ live_pins nodes ps else live_pins nodes ps

abbrev pub reach : Networkx → DiGraph → List ℕ → List ℕ
reach nx g [] = []
reach nx g (p ∷ ps) = p ∷ (nx.descendants g p ++ reach nx g ps)

abbrev pub outside : List ℕ → List ℕ → List ℕ
outside [] reached = []
outside (v ∷ vs) reached = if elem v reached then outside vs reached else v ∷ outside vs reached

-- The rest of `_check_reference`, for pins that are declared.
unfoldable pub check_pins : Networkx → List NodeSpec → DiGraph → List ℕ → List GraphError
check_pins nx nodes g pins =
    if not (some_of pins)
    then GraphError.nothing_pinned ∷ []
    else (let live : List ℕ = live_pins nodes pins in
        error_if (not (length live == length pins)) GraphError.pins_disabled
        ++ error_if (some_of live && some_of (outside g.vertices (reach nx g live)))
            GraphError.out_of_reach)

unfoldable pub check_pinned : Networkx → List NodeSpec → DiGraph → Option (List ℕ) → List GraphError
unfolding check_pins
check_pinned nx nodes g none = []
check_pinned nx nodes g (some pinned) =
    let pins : List ℕ = known_pins nodes pinned in
    error_if (not (length pins == length pinned)) GraphError.pins_unknown
    ++ check_pins nx nodes g pins

-- `_check_reference`
unfoldable pub check_reference : Networkx → ExperimentManifest → DiGraph → List GraphError
unfolding check_pinned
check_reference nx m g = check_pinned nx m.nodes g m.pinned

abbrev touches : ℕ → List (ℕ × ℕ) → Bool
touches v [] = false
touches v ((a, b) ∷ es) = v == a || v == b || touches v es

abbrev pub has_isolated : List ℕ → List (ℕ × ℕ) → Bool
has_isolated [] es = false
has_isolated (v ∷ vs) es = not (touches v es) || has_isolated vs es

-- `AGENT_MEDIA[a] & AGENT_MEDIA[b]`
abbrev pub share_medium : AgentType → AgentType → Bool
share_medium AgentType.ble AgentType.wifi = false
share_medium AgentType.wifi AgentType.ble = false
share_medium a b = true

abbrev pub hears : AgentType → Option NodeSpec → Bool
hears t none = true
hears t (some other) = share_medium t other.type

abbrev pub hears_all : List NodeSpec → AgentType → List ℕ → Bool
hears_all nodes t [] = true
hears_all nodes t (j ∷ js) = hears t (by_id nodes j) && hears_all nodes t js

abbrev pub all_hear : List NodeSpec → List NodeSpec → Bool
all_hear nodes [] = true
all_hear nodes (n ∷ ns) = hears_all nodes n.type n.neighbors && all_hear nodes ns

-- `N_MAX_NEIGHBORS_FIRMWARE`
abbrev pub n_max_neighbors_firmware : ℕ
n_max_neighbors_firmware = 4

abbrev pub fits_firmware : NodeSpec → Bool
fits_firmware n =
    not (same_type n.type AgentType.ble) || leb (length n.neighbors) n_max_neighbors_firmware

abbrev pub all_fit_firmware : List NodeSpec → Bool
all_fit_firmware [] = true
all_fit_firmware (n ∷ ns) = fits_firmware n && all_fit_firmware ns

-- `check(manifest, require_strong=...).errors`
unfoldable pub check : Networkx → ExperimentManifest → Bool → List GraphError
unfolding build_graph check_reference
check nx m require_strong =
    let g : DiGraph = build_graph m.nodes in
    check_reference nx m g
    ++ (error_if (has_isolated g.vertices g.edges) GraphError.isolated_nodes
        ++ (error_if (not (nx.is_weakly_connected g)) GraphError.disconnected
            ++ (error_if (require_strong && not (nx.is_strongly_connected g)) GraphError.not_strong
                ++ (error_if (not (all_hear m.nodes m.nodes)) GraphError.no_medium
                    ++ error_if (not (all_fit_firmware m.nodes)) GraphError.too_many_neighbours))))
