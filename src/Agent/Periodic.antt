-- ===== src/Agent/Periodic.antt =====
-- `LoopTiming` and `_run_periodic` of vertex/agent/agent.py, over the ticks of a clock that divide
-- a tenth of the period. The clock is a parameter: by how much it oversleeps in a round, and how
-- long the round's body takes.
pub mod Pace
use vertex_testbed.Common.{
  List, [], ◌∷◌, ℕ, zero, suc, true, false, Bool, ◌+◌, ◌-◌, ◌*◌, ◌/◌, ltb, if◌then◌else◌,
}

pub record LoopTiming : Type 0 where
  pub iterations : ℕ
  pub late_iterations : ℕ
  pub max_error : ℕ
  pub total_error : ℕ
  pub overruns : ℕ

-- `record`, with the period and the threshold.
unfoldable record_error : ℕ → ℕ → LoopTiming → ℕ → LoopTiming
record_error period threshold t error = record {
  iterations = suc t.iterations;
  late_iterations = if ltb threshold error then suc t.late_iterations else t.late_iterations;
  max_error = if ltb t.max_error error then error else t.max_error;
  total_error = t.total_error + error;
  overruns = if ltb period error then suc t.overruns else t.overruns;
}

pub record Loop : Type 0 where
  pub now : ℕ
  pub next_deadline : ℕ
  pub timing : LoopTiming

abbrev pub larger : ℕ → ℕ → ℕ
larger a b = if ltb a b then b else a

-- The deadline after a round that ended its sleep at `now`.
unfoldable pub advanced : ℕ → ℕ → ℕ → ℕ
advanced period deadline now =
    let next : ℕ = deadline + period in
    if ltb next now then next + ((now - next) / period + 1) * period else next

-- A round: `tenth` is a tenth of the period.
unfoldable pub round : ℕ → Loop → ℕ × ℕ → Loop
unfolding record_error advanced
round tenth l (oversleep, body) =
    let period : ℕ = 10 * tenth in
    let now : ℕ = l.now + larger tenth (l.next_deadline - l.now) + oversleep in
    record {
      now = now + body;
      next_deadline = advanced period l.next_deadline now;
      timing = record_error period tenth l.timing (now - l.next_deadline);
    }

-- The loop, for as many iterations as the clock is given for.
unfoldable pub run_periodic : ℕ → Loop → List (ℕ × ℕ) → Loop
unfolding round
run_periodic tenth l [] = l
run_periodic tenth l (r ∷ rs) = run_periodic tenth (round tenth l r) rs
