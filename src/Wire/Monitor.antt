-- ===== src/Wire/Monitor.antt =====
-- `LinkStats` and `LinkMonitor` of vertex/wire/codec.py: the accounting of received packets.
use vertex_testbed.Common.Int.{pos, ◌-ℤ◌, ℤ}
use vertex_testbed.Common.Dict.{insert, lookup, Dict, or_default}
use vertex_testbed.Common.{
  ◌∷◌, none, ltb, ◌++◌, false, ◌==◌, ◌%◌, ◌-◌, if◌then◌else◌, ◌^◌, true, some, Bool, ◌+◌, Option,
  List, [], ℕ,
}
use vertex_testbed.Wire.Packet.{StatePacket}

pub record LinkStats : Type 0 where
  pub received : ℕ
  pub expected : ℕ
  pub lost : ℕ
  pub duplicates : ℕ
  pub reordered : ℕ
  pub resets : ℕ
  pub delays_us : List ℤ

abbrev pub link_stats : LinkStats
link_stats = record {
  received = 0;
  expected = 0;
  lost = 0;
  duplicates = 0;
  reordered = 0;
  resets = 0;
  delays_us = [];
}

pub record LinkMonitor : Type 0 where
  pub reorder_window : ℕ
  pub stats : Dict LinkStats
  pub last_seq : Dict ℕ

abbrev pub link_monitor : ℕ → LinkMonitor
link_monitor window = record { reorder_window = window; stats = []; last_seq = [] }

-- `if rx_time_us is not None and pkt.tx_time_us: st.delays_us.append(...)`
unfoldable pub with_delay : Option ℤ → ℕ → LinkStats → LinkStats
with_delay none t st = st
with_delay (some rx) t st =
    if t == 0 then st else record st { delays_us = st.delays_us ++ ((rx -ℤ pos t) ∷ []) }

-- `(pkt.seq - last) % (_MAX_U16 + 1)`, for sequence numbers of 16 bits.
unfoldable pub gap_of : ℕ → ℕ → ℕ
gap_of seq last = (seq + 2 ^ 16 - last) % 2 ^ 16

-- The body of `observe` after `st.received += 1`: the new statistics, and whether the packet
-- becomes the last one.
unfoldable pub account : ℕ → Option ℕ → ℕ → LinkStats → LinkStats × Bool
account window none seq st = (record st { expected = st.expected + 1 }, true)
account window (some last) seq st =
    let gap = gap_of seq last in
    if gap == 0
    then (record st { duplicates = st.duplicates + 1; received = st.received - 1 }, false)
    else if ltb (2 ^ 16 - window) gap
    then (record st { reordered = st.reordered + 1; received = st.received - 1 }, false)
    else if ltb window gap
    then (record st { resets = st.resets + 1; expected = st.expected + 1 }, true)
    else (record st { expected = st.expected + gap; lost = st.lost + (gap - 1) }, true)

-- `observe`: `setdefault`, the counters, the delay, the gap, `_last_seq`.
unfoldable pub observe : LinkMonitor → StatePacket → Option ℤ → LinkMonitor
observe m pkt rx =
    let st = or_default (lookup pkt.node_id m.stats) link_stats in
    let st1 = with_delay rx pkt.tx_time_us (record st { received = st.received + 1 }) in
    let (st2, moves) = account m.reorder_window (lookup pkt.node_id m.last_seq) pkt.seq st1 in
    record m {
      stats = insert pkt.node_id st2 m.stats;
      last_seq = if moves then insert pkt.node_id pkt.seq m.last_seq else m.last_seq;
    }

-- `monitor.stats[node_id]`, with the zero record before the first packet.
unfoldable pub stats_of : LinkMonitor → ℕ → LinkStats
stats_of m id = or_default (lookup id m.stats) link_stats

-- A stream of receptions, in order of arrival.
unfoldable pub observe_all : LinkMonitor → List (StatePacket × Option ℤ) → LinkMonitor
observe_all m [] = m
observe_all m ((pkt, rx) ∷ rest) = observe_all (observe m pkt rx) rest
