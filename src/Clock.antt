-- ===== src/Clock.antt =====
-- `VirtualClock` of vertex/clock.py. Times are counted in ticks. The heap is the list of its entries
-- in the order in which `heappop` gives them: by deadline, then by the counter of their insertion.
pub mod Virtual
use vertex_testbed.Common.{
  List, [], ◌∷◌, ℕ, zero, suc, Option, none, some, true, false, Bool, ◌&&◌, ◌||◌, ◌==◌, ltb, leb,
  ◌+◌, if◌then◌else◌, length,
}

-- A sleeper: its deadline, its place in the order of the calls of `sleep`.
pub record Waiter : Type 0 where
  pub deadline : ℕ
  pub order : ℕ

pub record VirtualClock : Type 0 where
  pub t : ℕ
  pub waiters : List Waiter
  pub counter : ℕ

-- The order of tuples.
abbrev pub before : Waiter → Waiter → Bool
before a b = ltb a.deadline b.deadline || a.deadline == b.deadline && ltb a.order b.order

-- `heapq.heappush`
unfoldable pub heappush : Waiter → List Waiter → List Waiter
heappush w [] = w ∷ []
heappush w (v ∷ vs) = let rest = heappush w vs in if before w v then w ∷ v ∷ vs else v ∷ rest

-- `sleep`: a delay that is not positive parks nobody.
unfoldable pub sleep : VirtualClock → ℕ → VirtualClock
unfolding heappush
sleep c seconds = if seconds == 0 then c else record c {
  waiters = heappush (record { deadline = c.t + seconds; order = c.counter }) c.waiters;
  counter = c.counter + 1;
}

-- The loop of `advance`: who is woken, and who stays.
unfoldable pub wake : ℕ → List Waiter → List Waiter × List Waiter
wake deadline [] = ([], [])
wake deadline (w ∷ ws) =
    let (woken, parked) = wake deadline ws in
    if leb w.deadline deadline then (w ∷ woken, parked) else ([], w ∷ ws)

-- `advance`: the clock, and the sleepers that are woken, in order.
unfoldable pub advance : VirtualClock → VirtualClock × List Waiter
unfolding wake
advance c = elim c.waiters [
  | [] ↦ (c, [])
  | ◌∷◌ w ws ↦
      let (woken, parked) = wake w.deadline (w ∷ ws) in
      (record c { t = w.deadline; waiters = parked }, woken)
]
