-- ===== src/Agent/Periodic/Pace.antt =====
-- The loop keeps its pace, whatever the clock does.
use vertex_testbed.Agent.Periodic.{Loop, larger, advanced, round, run_periodic}
use vertex_testbed.Common.{
  subst, List, [], ◌∷◌, ℕ, suc, true, false, ◌+◌, ◌-◌, ◌*◌, ◌/◌, ◌≤◌, ◌<◌, ◌≡◌, ltb, arith, length,
  Bool-cases, inl, inr, ◌⊎◌,
}
use native.Mathlib.Nat.{lt-div-mul-add, div-mul-le_self}

-- A deadline that a round sets is a whole number of periods after the last one, is not passed
-- already, and is at most a period ahead of the clock unless the loop is on time.
advanced_lem :
    (period deadline now : ℕ)
    → 0 < period
    → (k : ℕ) × (advanced period deadline now ≡ deadline + suc k * period)
      × (now ≤ advanced period deadline now)
      × ((deadline + period < now) → advanced period deadline now ≤ now + period)
unfolding advanced
advanced_lem period deadline now h = go (Bool-cases (ltb (deadline + period) now))
  where
    q : ℕ
    q = (now - (deadline + period)) / period

    go :
        (ltb (deadline + period) now ≡ true) ⊎ (ltb (deadline + period) now ≡ false)
        → (k : ℕ) × (advanced period deadline now ≡ deadline + suc k * period)
          × (now ≤ advanced period deadline now)
          × ((deadline + period < now) → advanced period deadline now ≤ now + period)
    go (inl t) =
        rw (t, advanced)
          (
            q + 1,
            grind arith,
            grind (arith, lt-div-mul-add {a = now - (deadline + period)} h),
            λ w. grind (arith, div-mul-le_self (now - (deadline + period)) period),
          )
    go (inr f) = rw (f, advanced) (0, omega arith, ground arith, λ w. ground arith)

abbrev pub Paced : ℕ → Loop → ℕ → Loop → Type 0
Paced tenth l n l' =
    ((k : ℕ) × (l'.next_deadline ≡ l.next_deadline + (n + k) * (10 * tenth)))
    × (l.now + n * tenth ≤ l'.now)
    × (l'.timing.iterations ≡ l.timing.iterations + n)
    × (l'.timing.overruns + l.timing.late_iterations
        ≤ l'.timing.late_iterations + l.timing.overruns)

round-Paced : (tenth : ℕ) (l : Loop) (r : ℕ × ℕ) → 0 < tenth → Paced tenth l 1 (round tenth l r)
unfolding round
round-Paced tenth l (oversleep, body) h =
    go (advanced_lem (10 * tenth) l.next_deadline now (omega arith))
  where
    now : ℕ
    now = l.now + larger tenth (l.next_deadline - l.now) + oversleep

    go :
        (k : ℕ) × (advanced (10 * tenth) l.next_deadline now
            ≡ l.next_deadline + suc k * (10 * tenth))
          × (now ≤ advanced (10 * tenth) l.next_deadline now)
          × ((l.next_deadline + 10 * tenth < now)
              → advanced (10 * tenth) l.next_deadline now ≤ now + 10 * tenth)
        → Paced tenth l 1 (round tenth l (oversleep, body))
    go (k, e, a, b) = ((k, grind (arith, e)), ground arith, omega arith, ground arith)

Paced-trans :
    (tenth n m : ℕ) (l l' l'' : Loop)
    → Paced tenth l n l'
    → Paced tenth l' m l''
    → Paced tenth l (n + m) l''
Paced-trans tenth n m l l' l'' ((k, e), a, b, c) ((k', e'), a', b', c') =
    ((k + k', grind (arith, e, e')), grind (arith, a, a'), omega arith, omega arith)

-- The loop keeps its pace whatever the clock oversleeps and the body takes: after `n` iterations
-- the deadline is a whole number of periods behind the first, `n` or more, so that no drift adds
-- up; a tenth of a period has passed for each iteration at least, so that a late loop does not
-- spin; each iteration is counted; and the overruns are among the late iterations.
pub run_periodic-Paced :
    (tenth : ℕ) (l : Loop) (rs : List (ℕ × ℕ))
    → 0 < tenth
    → Paced tenth l (length rs) (run_periodic tenth l rs)
unfolding run_periodic
run_periodic-Paced tenth l [] h = ((0, omega arith), omega arith, omega arith, omega arith)
run_periodic-Paced tenth l (r ∷ rs) h =
    subst (λ n. Paced tenth l n (run_periodic tenth (round tenth l r) rs)) (omega arith)
      (Paced-trans tenth 1 (length rs) l (round tenth l r) (run_periodic tenth (round tenth l r) rs)
        (round-Paced tenth l r h) (run_periodic-Paced tenth (round tenth l r) rs h))
