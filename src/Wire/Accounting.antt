-- ===== src/Wire/Accounting.antt =====
-- What the counters of `LinkMonitor` (vertex/wire/codec.py) mean.
use vertex_testbed.Common.Dict.{insert, lookup-insert, lookup}
use vertex_testbed.Common.Int.{ℤ}
use vertex_testbed.Common.{
  inr, ap, ==_iff, inl, Bool-cases, ◌∙◌, ◌&&◌, refl, Bool, none, ◌==◌, some, if◌then◌else◌, arith,
  ◌≤◌, List, ◌≡◌, Option, ◌+◌, ℕ,
}
use vertex_testbed.Wire.Monitor.{
  link_monitor, observe_all, LinkMonitor, observe, LinkStats, account, with_delay, stats_of,
}
use vertex_testbed.Common.{List, [], ◌∷◌, ℕ, Option, none, some}
use vertex_testbed.Wire.Packet.{StatePacket}

-- What every link's counters satisfy: nothing is delivered that was not expected, and what is
-- missing is what was lost.
pub record IsBalanced (st : LinkStats) : Type 0 where
  pub balance : st.expected ≡ st.received + st.lost

-- The packets of the stream that come from one node.
unfoldable pub from_node : ℕ → List (StatePacket × Option ℤ) → ℕ
from_node id [] = 0
from_node id ((pkt, rx) ∷ rest) = (if pkt.node_id == id then 1 else 0) + from_node id rest

unfoldable pub counted : LinkStats → ℕ
counted st = st.received + st.duplicates + st.reordered

pub with_delay-counts :
    (rx : Option ℤ) (t : ℕ) (st : LinkStats)
    → ((with_delay rx t st).received ≡ st.received)
      × ((with_delay rx t st).expected ≡ st.expected)
      × ((with_delay rx t st).lost ≡ st.lost)
      × ((with_delay rx t st).duplicates ≡ st.duplicates)
      × ((with_delay rx t st).reordered ≡ st.reordered)
      × ((with_delay rx t st).resets ≡ st.resets)
unfolding with_delay
with_delay-counts none t st = ground arith
with_delay-counts (some r) t st = ground arith

account-IsBalanced :
    (w : ℕ) (last : Option ℕ) (seq : ℕ) (st : LinkStats)
    → 1 ≤ st.received
    → st.expected + 1 ≡ st.received + st.lost
    → IsBalanced (account w last seq st).0
unfolding account
account-IsBalanced w last seq st pos bal = ground arith

account-counted :
    (w : ℕ) (last : Option ℕ) (seq : ℕ) (st : LinkStats)
    → 1 ≤ st.received
    → counted (account w last seq st).0 ≡ counted st
unfolding account counted
account-counted w last seq st pos = ground arith

-- The statistics of the packet's node, and the last number of a node, after one `observe`.
unfoldable pub account_packet : LinkMonitor → StatePacket → Option ℤ → LinkStats × Bool
account_packet m pkt rx =
    let st = stats_of m pkt.node_id in
    account m.reorder_window (lookup pkt.node_id m.last_seq) pkt.seq
      (with_delay rx pkt.tx_time_us (record st { received = st.received + 1 }))

pub stats_of-observe :
    (m : LinkMonitor) (pkt : StatePacket) (rx : Option ℤ) (id : ℕ)
    → stats_of (observe m pkt rx) id
      ≡ (if pkt.node_id == id then (account_packet m pkt rx).0 else stats_of m id)
unfolding stats_of observe account_packet
stats_of-observe m pkt rx id = rw lookup-insert (ground arith)

pub last_seq-observe :
    (m : LinkMonitor) (pkt : StatePacket) (rx : Option ℤ) (id : ℕ)
    → lookup id (observe m pkt rx).last_seq ≡ (
        if (account_packet m pkt rx).1 && pkt.node_id == id
        then some pkt.seq
        else lookup id m.last_seq)
unfolding stats_of observe account_packet
last_seq-observe m pkt rx id = ground (arith, lookup-insert pkt.node_id id pkt.seq m.last_seq)

pub table-observe :
    (m : LinkMonitor) (pkt : StatePacket) (rx : Option ℤ)
    → (observe m pkt rx).last_seq
      ≡ (if (account_packet m pkt rx).1 then insert pkt.node_id pkt.seq m.last_seq else m.last_seq)
unfolding stats_of observe account_packet
table-observe m pkt rx = refl

pub window-observe :
    (m : LinkMonitor) (pkt : StatePacket) (rx : Option ℤ)
    → (observe m pkt rx).reorder_window ≡ m.reorder_window
unfolding observe
window-observe m pkt rx = refl

account_packet_sound :
    (m : LinkMonitor) (pkt : StatePacket) (rx : Option ℤ)
    → IsBalanced (stats_of m pkt.node_id)
    → IsBalanced (account_packet m pkt rx).0
      × (counted (account_packet m pkt rx).0 ≡ counted (stats_of m pkt.node_id) + 1)
unfolding account_packet
account_packet_sound m pkt rx h =
    let st : LinkStats = stats_of m pkt.node_id in
    let st1 : LinkStats = with_delay rx pkt.tx_time_us (record st { received = st.received + 1 }) in
    let same = with_delay-counts rx pkt.tx_time_us (record st { received = st.received + 1 }) in
    (
      account-IsBalanced m.reorder_window (lookup pkt.node_id m.last_seq) pkt.seq st1
          (omega (arith, same)) (omega (arith, same, h.balance)),
      account-counted m.reorder_window (lookup pkt.node_id m.last_seq) pkt.seq st1
            (omega (arith, same))
          ∙ (unfold counted in omega (arith, same)),
    )

-- After one packet, of any link.
observe_sound :
    (m : LinkMonitor) (pkt : StatePacket) (rx : Option ℤ) (id : ℕ)
    → ((j : ℕ) → IsBalanced (stats_of m j))
    → IsBalanced (stats_of (observe m pkt rx) id)
      × (counted (stats_of (observe m pkt rx) id)
          ≡ counted (stats_of m id) + (if pkt.node_id == id then 1 else 0))
observe_sound m pkt rx id h = elim (Bool-cases (pkt.node_id == id)) [
  | inl e ↦
      let same : pkt.node_id ≡ id = (==_iff pkt.node_id id).0 e in
      let (bal, count) = account_packet_sound m pkt rx (h pkt.node_id) in
      rw (stats_of-observe m pkt rx id, e) (bal, count ∙ ap (λ j. counted (stats_of m j) + 1) same)
  | inr n ↦ rw (stats_of-observe m pkt rx id, n) (h id, omega arith)
]

observe_all_sound :
    (m : LinkMonitor) (stream : List (StatePacket × Option ℤ)) (id : ℕ)
    → ((j : ℕ) → IsBalanced (stats_of m j))
    → IsBalanced (stats_of (observe_all m stream) id)
      × (counted (stats_of (observe_all m stream) id)
          ≡ counted (stats_of m id) + from_node id stream)
unfolding observe_all from_node
observe_all_sound m [] id h = (h id, omega arith)
observe_all_sound m ((pkt, rx) ∷ rest) id h =
    let (bal, count) =
      observe_all_sound (observe m pkt rx) rest id (λ j. (observe_sound m pkt rx j h).0) in
    (bal, omega (arith, count, (observe_sound m pkt rx id h).1))

fresh-IsBalanced : (w id : ℕ) → IsBalanced (stats_of (link_monitor w) id)
unfolding stats_of lookup
fresh-IsBalanced w id = omega arith

-- Whatever arrives, in whatever order and from whichever nodes, every link's `expected` is its
-- `received` plus its `lost`, and every packet of the node is counted exactly once, as received,
-- duplicate or reordered.
pub observe_all-IsBalanced :
    (window : ℕ) (stream : List (StatePacket × Option ℤ)) (id : ℕ)
    → IsBalanced (stats_of (observe_all (link_monitor window) stream) id)
      × (counted (stats_of (observe_all (link_monitor window) stream) id) ≡ from_node id stream)
observe_all-IsBalanced window stream id =
    let (bal, count) =
      observe_all_sound (link_monitor window) stream id (fresh-IsBalanced window) in
    (bal, count ∙ (unfold counted stats_of lookup in omega arith))
