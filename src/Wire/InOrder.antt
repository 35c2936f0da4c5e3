-- ===== src/Wire/InOrder.antt =====
-- The counters of `LinkMonitor` (vertex/wire/codec.py) against the sender's own count of packets.
use vertex_testbed.Wire.Accounting.{
  table-observe, account_packet, with_delay-counts, last_seq-observe, stats_of-observe,
  window-observe, from_node,
}
use vertex_testbed.Common.Dict.{lookup}
use vertex_testbed.Wire.Monitor.{
  link_monitor, link_stats, with_delay, observe, stats_of, LinkMonitor, observe_all, LinkStats,
  gap_of, account,
}
use vertex_testbed.Common.Int.{ℤ}
use vertex_testbed.Common.{
  refl, Bool-cases, ap, ==_iff, subst, ◌∙◌, inr, ==_refl, inl, false, ◌==◌, ◌≢◌, arith, ◌⊎◌, true,
  if◌then◌else◌, ◌-◌, ◌%◌, ◌^◌, ◌+◌, ◌≤◌, ◌<◌, ◌≡◌, List, [], ◌∷◌, ℕ, zero, suc, Option, some,
}
use vertex_testbed.Wire.Packet.{StatePacket}

-- A stream in which the packets of node `id` come in the order in which they were sent, up to `gap`
-- apart, between packets of other nodes. The sender counts without wrapping, from `a` to `z`, and
-- puts the count modulo 2 ^ 16 on the air.
abbrev pub InOrder : ℕ → ℕ → ℕ → List (StatePacket × Option ℤ) → ℕ → Type 0
InOrder id gap a [] z = a ≡ z
InOrder id gap a ((pkt, rx) ∷ rest) z =
    ((g : ℕ) × (pkt.node_id ≡ id)
      × (1 ≤ g)
      × (g ≤ gap)
      × (pkt.seq ≡ (a + g) % 2 ^ 16)
      × InOrder id gap (a + g) rest z)
    ⊎ ((pkt.node_id ≢ id) × InOrder id gap a rest z)

gap_forward : (a g : ℕ) → g < 2 ^ 16 → gap_of ((a + g) % 2 ^ 16) (a % 2 ^ 16) ≡ g
unfolding gap_of
gap_forward a g h = omega arith

gap_backward :
    (a d : ℕ) → d ≤ a → 1 ≤ d → d < 2 ^ 16 → gap_of ((a - d) % 2 ^ 16) (a % 2 ^ 16) ≡ 2 ^ 16 - d
unfolding gap_of
gap_backward a d h l u = omega arith

account_forward :
    (w a g : ℕ) (st : LinkStats)
    → w ≤ 2 ^ 15
    → 1 ≤ g
    → g ≤ w
    → account w (some (a % 2 ^ 16)) ((a + g) % 2 ^ 16) st
      ≡ (record st { expected = st.expected + g; lost = st.lost + (g - 1) }, true)
unfolding account
account_forward w a g st hw l u = ground (arith, gap_forward a g)

account_late :
    (w a d : ℕ) (st : LinkStats)
    → w ≤ 2 ^ 15
    → d ≤ a
    → d < w
    → account w (some (a % 2 ^ 16)) ((a - d) % 2 ^ 16) st ≡ (
        if d == 0
        then (record st { duplicates = st.duplicates + 1; received = st.received - 1 }, false)
        else (record st { reordered = st.reordered + 1; received = st.received - 1 }, false))
unfolding account
account_late w a zero st hw e u = ground (arith, gap_forward a 0)
account_late w a (suc d) st hw e u = ground (arith, gap_backward a (suc d))

-- From `st` to `st'` by `n` packets that the sender counted from `a` to `z`.
pub record Advanced (st st' : LinkStats) (n a z : ℕ) : Type 0 where
  pub forward : a ≤ z
  pub expects : st'.expected + a ≡ st.expected + z
  pub receives : st'.received ≡ st.received + n
  pub loses : st'.lost + a + n ≡ st.lost + z
  pub same_duplicates : st'.duplicates ≡ st.duplicates
  pub same_reordered : st'.reordered ≡ st.reordered
  pub same_resets : st'.resets ≡ st.resets

-- One packet moves the counters of node `id`, and its last number, from `a` to `a + g`.
abbrev Moves : LinkMonitor → LinkMonitor → ℕ → ℕ → ℕ → Type 0
Moves m m' a b id =
    Advanced (stats_of m id) (stats_of m' id) 1 a b × (lookup id m'.last_seq ≡ some (b % 2 ^ 16))

forward_step_own :
    (m : LinkMonitor) (pkt : StatePacket) (rx : Option ℤ) (a g : ℕ)
    → m.reorder_window ≤ 2 ^ 15
    → lookup pkt.node_id m.last_seq ≡ some (a % 2 ^ 16)
    → 1 ≤ g
    → g ≤ m.reorder_window
    → pkt.seq ≡ (a + g) % 2 ^ 16
    → Moves m (observe m pkt rx) a (a + g) pkt.node_id
forward_step_own m pkt rx a g hw last lo hi seq =
    let st : LinkStats = stats_of m pkt.node_id in
    let st1 : LinkStats = with_delay rx pkt.tx_time_us (record st { received = st.received + 1 }) in
    let counts = with_delay-counts rx pkt.tx_time_us (record st { received = st.received + 1 }) in
    let step : account_packet m pkt rx
        ≡ (record st1 { expected = st1.expected + g; lost = st1.lost + (g - 1) }, true) =
      unfold account_packet in rw (last, seq) (account_forward m.reorder_window a g _ hw lo hi) in
    (
      rw (stats_of-observe m pkt rx pkt.node_id, ==_refl pkt.node_id, step) (omega (arith, counts)),
      rw (last_seq-observe m pkt rx pkt.node_id, ==_refl pkt.node_id, step, seq),
    )

forward_step :
    (m : LinkMonitor) (pkt : StatePacket) (rx : Option ℤ) (id a g : ℕ)
    → m.reorder_window ≤ 2 ^ 15
    → lookup id m.last_seq ≡ some (a % 2 ^ 16)
    → pkt.node_id ≡ id
    → 1 ≤ g
    → g ≤ m.reorder_window
    → pkt.seq ≡ (a + g) % 2 ^ 16
    → Moves m (observe m pkt rx) a (a + g) id
forward_step m pkt rx id a g hw last same lo hi seq =
    subst (Moves m (observe m pkt rx) a (a + g)) same
      (forward_step_own m pkt rx a g hw (ap (λ j. lookup j m.last_seq) same ∙ last) lo hi seq)

other_step :
    (m : LinkMonitor) (pkt : StatePacket) (rx : Option ℤ) (id : ℕ)
    → pkt.node_id ≢ id
    → (stats_of (observe m pkt rx) id ≡ stats_of m id)
      × (lookup id (observe m pkt rx).last_seq ≡ lookup id m.last_seq)
other_step m pkt rx id ne =
    (ground (arith, stats_of-observe m pkt rx id), ground (arith, last_seq-observe m pkt rx id))

Advanced-trans :
    {st st' st'' : LinkStats} {n k a b z : ℕ}
    → Advanced st st' n a b
    → Advanced st' st'' k b z
    → Advanced st st'' (n + k) a z
Advanced-trans p q = omega arith

observe_all-Advanced :
    (m : LinkMonitor) (stream : List (StatePacket × Option ℤ)) (id a z : ℕ)
    → m.reorder_window ≤ 2 ^ 15
    → lookup id m.last_seq ≡ some (a % 2 ^ 16)
    → InOrder id m.reorder_window a stream z
    → Advanced (stats_of m id) (stats_of (observe_all m stream) id) (from_node id stream) a z
unfolding observe_all from_node
observe_all-Advanced m [] id a z hw last e = omega arith
observe_all-Advanced m ((pkt, rx) ∷ rest) id a z hw last (inl (g, same, lo, hi, seq, more)) =
    let (step, last') = forward_step m pkt rx id a g hw last same lo hi seq in
    let go =
      observe_all-Advanced (observe m pkt rx) rest id (a + g) z (rw (window-observe m pkt rx) hw)
        last' (rw (window-observe m pkt rx) more) in
    rw ((==_iff pkt.node_id id).1 same) (Advanced-trans step go)
observe_all-Advanced m ((pkt, rx) ∷ rest) id a z hw last (inr (ne, more)) =
    let (same, last') = other_step m pkt rx id ne in
    let go =
      observe_all-Advanced (observe m pkt rx) rest id a z (rw (window-observe m pkt rx) hw)
        (last' ∙ last) (rw (window-observe m pkt rx) more) in
    rw (not_own (==_iff pkt.node_id id).0) (Advanced-trans stay go)
  where
    stay : Advanced (stats_of m id) (stats_of (observe m pkt rx) id) 0 a a
    stay = rw ((other_step m pkt rx id ne).0) (omega arith)

    not_own : ((pkt.node_id == id) ≡ true → pkt.node_id ≡ id) → (pkt.node_id == id) ≡ false
    not_own h = elim (Bool-cases (pkt.node_id == id)) [ inl e ↦ absurd (ne (h e)) | inr e ↦ e ]

first_step :
    (window : ℕ) (first : StatePacket) (rx : Option ℤ) (a : ℕ)
    → first.seq ≡ a % 2 ^ 16
    → Advanced
        (record link_stats { expected = 1; received = 1 })
        (stats_of (observe (link_monitor window) first rx) first.node_id)
        0
        a
        a
      × (lookup first.node_id (observe (link_monitor window) first rx).last_seq ≡ some (a % 2 ^ 16))
first_step window first rx a seq =
    let counts = with_delay-counts rx first.tx_time_us (record link_stats { received = 1 }) in
    let st1 : LinkStats = with_delay rx first.tx_time_us (record link_stats { received = 1 }) in
    let step : account_packet (link_monitor window) first rx
        ≡ (record st1 { expected = st1.expected + 1 }, true) =
      unfold account_packet stats_of lookup account in refl in
    (
      rw
          (
            stats_of-observe (link_monitor window) first rx first.node_id,
            ==_refl first.node_id,
            step,
          )
          (omega (arith, counts)),
      rw
          (
            last_seq-observe (link_monitor window) first rx first.node_id,
            ==_refl first.node_id,
            step,
          )
          (ap some seq),
    )

-- From the first packet on. The wrap of the 16-bit numbers does not show: with a window of at most
-- 2 ^ 15, and packets of the node at most a window apart and in order, between any packets of other
-- nodes, the monitor expects exactly what the node sent from its first packet `a` to its last `z`,
-- has received what arrived, lost the difference, and saw no duplicate, reordering or restart.
pub stats_of-InOrder :
    (window : ℕ) (first : StatePacket) (rx : Option ℤ) (stream : List (StatePacket × Option ℤ))
    → (a z : ℕ) → window ≤ 2 ^ 15
    → first.seq ≡ a % 2 ^ 16
    → InOrder first.node_id window a stream z
    → Advanced
        (record link_stats { expected = 1; received = 1 })
        (stats_of (observe_all (link_monitor window) ((first, rx) ∷ stream)) first.node_id)
        (from_node first.node_id stream)
        a
        z
unfolding observe_all
stats_of-InOrder window first rx stream a z hw seq order =
    let (start, last) = first_step window first rx a seq in
    let all = Advanced-trans start (
      observe_all-Advanced (observe (link_monitor window) first rx) stream first.node_id a z
        (rw (window-observe (link_monitor window) first rx) hw) last
        (rw (window-observe (link_monitor window) first rx) order)) in
    omega (arith, all)

-- A packet that repeats the last one, or was sent up to a window before it, only counts as such:
-- nothing is expected, received or lost by it, and the last number stays.
observe_late :
    (m : LinkMonitor) (pkt : StatePacket) (rx : Option ℤ) (a d : ℕ)
    → m.reorder_window ≤ 2 ^ 15
    → lookup pkt.node_id m.last_seq ≡ some (a % 2 ^ 16)
    → d ≤ a
    → d < m.reorder_window
    → pkt.seq ≡ (a - d) % 2 ^ 16
    → let st = stats_of m pkt.node_id in
      let st' = stats_of (observe m pkt rx) pkt.node_id in
      (st'.received ≡ st.received)
      × (st'.expected ≡ st.expected)
      × (st'.lost ≡ st.lost)
      × (st'.resets ≡ st.resets)
      × (st'.duplicates ≡ st.duplicates + (if d == 0 then 1 else 0))
      × (st'.reordered ≡ st.reordered + (if d == 0 then 0 else 1))
      × ((observe m pkt rx).last_seq ≡ m.last_seq)
observe_late m pkt rx a d hw last le lt seq =
    let st : LinkStats = stats_of m pkt.node_id in
    let st1 : LinkStats = with_delay rx pkt.tx_time_us (record st { received = st.received + 1 }) in
    let counts = with_delay-counts rx pkt.tx_time_us (record st { received = st.received + 1 }) in
    let step : account_packet m pkt rx ≡ (
        if d == 0
        then (record st1 { duplicates = st1.duplicates + 1; received = st1.received - 1 }, false)
        else (record st1 { reordered = st1.reordered + 1; received = st1.received - 1 }, false)) =
      unfold account_packet in rw (last, seq) (account_late m.reorder_window a d _ hw le lt) in
    ground (arith, step, counts, stats_of-observe m pkt rx pkt.node_id, table-observe m pkt rx)
