-- ===== src/Topology/Media.antt =====
-- Which agents hear each other: the media they have in common, for the links that a coherent
-- manifest of vertex/topology/models.py declares.
use vertex_testbed.Topology.Models.{
  NodeSpec, ExperimentManifest, by_id, ids, coherent, is_empty, repeats, all_declared, all_in,
}
use vertex_testbed.Topology.Validate.{share_medium, hears, hears_all, all_hear}
use vertex_testbed.Agent.Service.{AgentType}
use vertex_testbed.Common.{
  List, [], ◌∷◌, ℕ, Option, none, some, Result, ok, true, false, Bool, Exception, ◌==◌, ◌&&◌, not,
  elem, require, ◌>>◌, if◌then◌else◌, ◌≡◌, inl, inr, All, refl, sym, ◌∙◌, subst, arith, Bool-cases,
}

-- What carries packets: the board's radio, and the host's network.
pub data Medium : Type 0 where
  radio network : Medium

abbrev pub carries : AgentType → Medium → Bool
carries AgentType.ble network = false
carries AgentType.wifi radio = false
carries a medium = true

abbrev pub Shares : AgentType → AgentType → Type 0
Shares a b = (medium : Medium) × (carries a medium ≡ true) × (carries b medium ≡ true)

-- A neighbour is declared, and has a medium in common with the agent.
abbrev pub Hears : List NodeSpec → NodeSpec → Type 0
Hears nodes n =
    All (λ j. (m : NodeSpec) × (by_id nodes j ≡ some m) × Shares n.type m.type) n.neighbors

share_medium-Shares : (a b : AgentType) → share_medium a b ≡ true → Shares a b
share_medium-Shares AgentType.ble AgentType.ble h = (radio, refl, refl)
share_medium-Shares AgentType.ble AgentType.wifi h = absurd (ground arith)
share_medium-Shares AgentType.ble AgentType.bridge h = (radio, refl, refl)
share_medium-Shares AgentType.wifi AgentType.ble h = absurd (ground arith)
share_medium-Shares AgentType.wifi AgentType.wifi h = (network, refl, refl)
share_medium-Shares AgentType.wifi AgentType.bridge h = (network, refl, refl)
share_medium-Shares AgentType.bridge AgentType.ble h = (radio, refl, refl)
share_medium-Shares AgentType.bridge AgentType.wifi h = (network, refl, refl)
share_medium-Shares AgentType.bridge AgentType.bridge h = (radio, refl, refl)

by_id-declared :
    (nodes : List NodeSpec) (j : ℕ)
    → elem j (ids nodes) ≡ true
    → (m : NodeSpec) × (by_id nodes j ≡ some m)
by_id-declared [] j h = absurd (ground arith)
by_id-declared (n ∷ ns) j h = by_later (by_id ns j) refl (by_id-declared ns j)
  where
    found : Option NodeSpec → Option NodeSpec
    found o = elim o [ some m ↦ some m | none ↦ if n.id == j then some n else none ]

    by_later :
        (o : Option NodeSpec)
        → by_id ns j ≡ o
        → (elem j (ids ns) ≡ true → (m : NodeSpec) × (by_id ns j ≡ some m))
        → (m : NodeSpec) × (found o ≡ some m)
    by_later (some m) e ih = (m, refl)
    by_later none e ih = elim (Bool-cases (j == n.id)) [
      | inl q ↦ let q' : (n.id == j) ≡ true = ground arith in (n, rw q' refl)
      | inr q ↦
          let (m, p) = ih (rw q at h) in
          let bad : none ≡ some m = sym e ∙ p in absurd (ground arith)
    ]

pub and_true : (b c : Bool) → (b && c) ≡ true → (b ≡ true) × (c ≡ true)
and_true true c h = (refl, h)
and_true false c h = absurd (ground arith)

hears_all-Hears :
    (nodes : List NodeSpec) (t : AgentType) (js : List ℕ)
    → all_in js (ids nodes) ≡ true
    → hears_all nodes t js ≡ true
    → All (λ j. (m : NodeSpec) × (by_id nodes j ≡ some m) × Shares t m.type) js
hears_all-Hears nodes t [] d h = tt
hears_all-Hears nodes t (j ∷ js) d h =
    let a : (elem j (ids nodes) ≡ true) × (all_in js (ids nodes) ≡ true) = and_true _ _ d in
    let b : (hears t (by_id nodes j) ≡ true) × (hears_all nodes t js ≡ true) = and_true _ _ h in
    let (m, e) = by_id-declared nodes j a.0 in
    (
      (m, e, share_medium-Shares t m.type (subst (λ o. hears t o ≡ true) e b.0)),
      hears_all-Hears nodes t js a.1 b.1,
    )

pub all_hear-Hears :
    (nodes ns : List NodeSpec)
    → all_declared ns (ids nodes) ≡ true
    → all_hear nodes ns ≡ true
    → All (Hears nodes) ns
all_hear-Hears nodes [] d h = tt
all_hear-Hears nodes (n ∷ ns) d h =
    let a : (all_in n.neighbors (ids nodes) ≡ true) × (all_declared ns (ids nodes) ≡ true) =
      and_true _ _ d in
    let b : (hears_all nodes n.type n.neighbors ≡ true) × (all_hear nodes ns ≡ true) =
      and_true _ _ h in
    (hears_all-Hears nodes n.type n.neighbors a.0 b.0, all_hear-Hears nodes ns a.1 b.1)

required :
    (b : Bool) (e : Exception) (x : Result (Unit {0}))
    → (require b e >> x) ≡ ok tt
    → (b ≡ true) × (x ≡ ok tt)
required true e x h = (refl, h)
required false e x h = absurd (ground arith)

pub coherent-declared :
    (m : ExperimentManifest) → coherent m ≡ ok tt → all_declared m.nodes (ids m.nodes) ≡ true
unfolding coherent
coherent-declared m h =
    let p = required (not (is_empty m.nodes)) Exception.value_error _ h in
    let q = required (not (repeats (ids m.nodes))) Exception.value_error _ p.1 in
    (required (all_declared m.nodes (ids m.nodes)) Exception.value_error _ q.1).0
