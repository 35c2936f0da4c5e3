-- ===== src/Clock/Virtual.antt =====
-- Time on the virtual clock of vertex/clock.py.
use vertex_testbed.Common.{
  refl, inr, ap, inl, ◌==◌, ◌≡◌, Bool-cases, ◌++◌, arith, All, ◌≤◌, List, [], ◌∷◌, ℕ, suc,
}
use vertex_testbed.Clock.{leb, before, VirtualClock, Waiter, heappush, sleep, wake, advance}

-- No deadline is before `k`, nor before one that stands earlier.
abbrev pub InOrder : ℕ → List Waiter → Type 0
InOrder k [] = Unit
InOrder k (w ∷ ws) = (k ≤ w.deadline) × InOrder w.deadline ws

-- Every sleeper's deadline lies ahead of the clock, and the sleepers are in order.
abbrev pub IsAhead : VirtualClock → Type 0
IsAhead c = InOrder (suc c.t) c.waiters

InOrder-weaken : (j k : ℕ) (ws : List Waiter) → j ≤ k → InOrder k ws → InOrder j ws
InOrder-weaken j k [] h t = tt
InOrder-weaken j k (w ∷ ws) h (low, t) = (omega arith, t)

InOrder-heappush :
    (k : ℕ) (w : Waiter) (ws : List Waiter)
    → k ≤ w.deadline
    → InOrder k ws
    → InOrder k (heappush w ws)
unfolding heappush
InOrder-heappush k w [] h t = (h, tt)
InOrder-heappush k w (v ∷ vs) h (low, t) = elim (Bool-cases (before w v)) [
  | inl e ↦ rw e (h, (ground arith, t))
  | inr e ↦ rw e (low, InOrder-heappush v.deadline w vs (ground arith) t)
]

-- Those woken are due, and those that stay are not.
InOrder-wake :
    (d k : ℕ) (ws : List Waiter)
    → InOrder k ws
    → All (λ w. w.deadline ≤ d) (wake d ws).0
      × InOrder (suc d) (wake d ws).1
      × ((wake d ws).0 ++ (wake d ws).1 ≡ ws)
unfolding wake
InOrder-wake d k [] t = (tt, tt, refl)
InOrder-wake d k (w ∷ ws) (low, t) = elim (Bool-cases (leb w.deadline d)) [
  | inl e ↦
      let (due, ahead, whole) = InOrder-wake d w.deadline ws t in
      rw e ((ground arith, due), ahead, ap (λ l. w ∷ l) whole)
  | inr e ↦ rw e (tt, (ground arith, t), refl)
]

-- Parking a sleeper and jumping ahead keep every deadline ahead of the clock and the sleepers in
-- order. A jump never takes the clock back; it wakes just the sleepers that are due at the new time,
-- from the front of the order, and loses none.
pub advance-IsAhead :
    (c : VirtualClock) (seconds : ℕ)
    → IsAhead c
    → IsAhead (sleep c seconds)
      × IsAhead (advance c).0
      × (c.t ≤ (advance c).0.t)
      × All (λ w. w.deadline ≤ (advance c).0.t) (advance c).1
      × ((advance c).1 ++ (advance c).0.waiters ≡ c.waiters)
unfolding sleep advance
advance-IsAhead c seconds h =
    let jump = jumped c.t c.counter c.waiters h in
    (
      elim (Bool-cases (seconds == 0)) [
        | inl e ↦ rw e h
        | inr e ↦ rw e (InOrder-heappush (suc c.t) _ c.waiters (ground arith) h)
      ],
      jump.0,
      jump.1,
      jump.2,
      jump.3,
    )
  where
    jumped :
        (t n : ℕ) (ws : List Waiter)
        → InOrder (suc t) ws
        → let c' : VirtualClock = record { t = t; waiters = ws; counter = n } in
          IsAhead (advance c').0
          × (t ≤ (advance c').0.t)
          × All (λ w. w.deadline ≤ (advance c').0.t) (advance c').1
          × ((advance c').1 ++ (advance c').0.waiters ≡ ws)
    jumped t n [] h = (tt, omega arith, tt, refl)
    jumped t n (w ∷ ws) h =
        let (due, ahead, whole) = InOrder-wake w.deadline (suc t) (w ∷ ws) h in
        (ahead, omega (arith, h.0), due, whole)
