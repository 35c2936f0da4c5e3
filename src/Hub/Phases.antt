-- ===== src/Hub/Phases.antt =====
-- The phases of a run (vertex/hub/runner.py): the barrier, the order of the commands, and when the
-- report says that the run is good.
use vertex_testbed.Common.{if◌then◌else◌, ◌==◌, Bool, map, All, ◌≤◌, ◌≡◌, List, [], ◌∷◌, ℕ}
use vertex_testbed.Hub.Runner.{
  meta, rows, Command, clear, configure, reconfigure, stop, start, fetch,
}

-- The phase that a command belongs to.
abbrev pub phase : Command → ℕ
phase (clear i) = 0
phase (configure i) = 1
phase (start i e) = 2
phase (reconfigure i) = 3
phase (stop i) = 4
phase (fetch i a) = 5

-- No command belongs to an earlier phase than one before it, nor to one before `k`.
abbrev pub InPhases : ℕ → List Command → Type 0
InPhases k [] = Unit
InPhases k (c ∷ cs) = (k ≤ phase c) × InPhases (phase c) cs

-- The commands of one phase.
abbrev pub of_phase : ℕ → List Command → List Command
of_phase k [] = []
of_phase k (c ∷ cs) = let rest = of_phase k cs in if phase c == k then c ∷ rest else rest

-- The two artefacts of each node.
abbrev pub both_of : List ℕ → List Command
both_of [] = []
both_of (i ∷ ids) = fetch i meta ∷ fetch i rows ∷ both_of ids

-- What a run asks of each of its nodes: the commands of every phase but that of the events.
abbrev pub IsWhole : ℕ → List ℕ → Bool → List Command → Type 0
IsWhole epoch ids went_on cs =
    (of_phase 0 cs ≡ map clear ids)
    × (of_phase 1 cs ≡ map configure ids)
    × (of_phase 2 cs ≡ (if went_on then map (λ i. start i epoch) ids else []))
    × (of_phase 4 cs ≡ (if went_on then map stop ids else []))
    × (of_phase 5 cs ≡ (if went_on then both_of ids else []))

-- The commands of the phases, one behind the other.
module _ (a b c d e f : List Command) (in0 : All (λ x. phase x ≡ 0) a)
    (in1 : All (λ x. phase x ≡ 1) b) (in2 : All (λ x. phase x ≡ 2) c)
    (in3 : All (λ x. phase x ≡ 3) d) (in4 : All (λ x. phase x ≡ 4) e)
    (in5 : All (λ x. phase x ≡ 5) f) where
  abbrev kept : ℕ → ℕ → List Command → List Command
  kept j k cs = if j == k then cs else []
