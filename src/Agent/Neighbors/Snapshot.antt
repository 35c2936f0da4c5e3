-- ===== src/Agent/Neighbors/Snapshot.antt =====
-- The readings of the table that the control loop takes (vertex/agent/neighbors.py).
use vertex_testbed.Common.Int.{negsuc, leb_ℤ, ◌-ℤ◌}
use native.Mathlib.Nat.{suc-mul}
use vertex_testbed.Common.{
  ◌+◌, leb, length-take, ◌-◌, ◌++◌, length-append, refl, arith, ◌*◌, ap₂, ◌||◌, ap, ◌≡◌, ◌&&◌, List,
  [], ◌∷◌, ℕ, zero, suc, Option, none, some,
}
use vertex_testbed.Agent.Neighbors.{
  true, ◌-ℤ◌, take, fresh_entry, pos, lookup, false, map, replicate, padded, ℤ, length, snapshot_of,
  Bool, entry, NeighborTable, NeighborRecord, snapshot, freshness,
}

abbrev sends_enabled : Option NeighborRecord → Bool
sends_enabled none = false
sends_enabled (some r) = r.sender_enabled

-- For each declared neighbour, whether its latest packet says that it is enabled.
abbrev pub senders_enabled : NeighborTable → List Bool
senders_enabled t = map (λ id. sends_enabled (lookup id t.records)) t.neighbor_ids

abbrev pub zip_and : List Bool → List Bool → List Bool
zip_and [] bs = []
zip_and (x ∷ xs) [] = []
zip_and (x ∷ xs) (y ∷ ys) = (x && y) ∷ zip_and xs ys

length-replicate : {A : Type 0} (n : ℕ) (a : A) → length (replicate n a) ≡ n
length-replicate zero a = refl
length-replicate (suc n) a = ap suc (length-replicate n a)

length-padded : (dim : ℕ) (v : List ℤ) → length (padded dim v) ≡ dim
length-padded dim v = omega (
  arith,
  length-append (take dim v) (replicate (dim - length v) (pos 0)),
  length-take dim v,
  length-replicate (dim - length v) (pos 0),
)

length-entry :
    (t : NeighborTable) (now : ℤ) (o : Option NeighborRecord) → length (entry t now o).0 ≡ t.dim
unfolding entry
length-entry t now none = length-replicate t.dim (pos 0)
length-entry t now (some r) = length-padded t.dim r.vstate

length-snapshot_of :
    (t : NeighborTable) (now : ℤ) (ids : List ℕ)
    → (length (snapshot_of t now ids).0 ≡ length ids * t.dim)
      × (length (snapshot_of t now ids).1 ≡ length ids)
unfolding snapshot_of entry
length-snapshot_of t now [] = (omega arith, refl)
length-snapshot_of t now (id ∷ ids) =
    let o = lookup id t.records in
    let (values, usable) = length-snapshot_of t now ids in
    (
      omega (
        arith,
        length-append (entry t now o).0 (snapshot_of t now ids).0,
        length-entry t now o,
        values,
        suc-mul (length ids) t.dim,
      ),
      ap suc usable,
    )

-- A snapshot has `dim` values for each declared neighbour and one flag for each, whatever was
-- received and however many coordinates the packets carried.
length-snapshot :
    (t : NeighborTable) (now : ℤ)
    → (length (snapshot t now).0 ≡ length t.neighbor_ids * t.dim)
      × (length (snapshot t now).1 ≡ length t.neighbor_ids)
unfolding snapshot
length-snapshot t now = length-snapshot_of t now t.neighbor_ids

flags_of :
    (t : NeighborTable) (now : ℤ) (ids : List ℕ)
    → (snapshot_of t now ids).1
      ≡ zip_and
          (map (λ id. sends_enabled (lookup id t.records)) ids)
          (map (λ fresh. t.hold || fresh) (map (λ id. fresh_entry t now (lookup id t.records)) ids))
unfolding snapshot_of entry
flags_of t now [] = refl
flags_of t now (id ∷ ids) = ap₂ (λ b bs. b ∷ bs) (flag (lookup id t.records)) (flags_of t now ids)
  where
    flag :
        (o : Option NeighborRecord)
        → (entry t now o).1 ≡ (sends_enabled o && (t.hold || fresh_entry t now o))
    flag none = refl
    flag (some r) = refl

values_of :
    (t : NeighborTable) (now later : ℤ) (ids : List ℕ)
    → (snapshot_of t now ids).0 ≡ (snapshot_of t later ids).0
unfolding snapshot_of entry
values_of t now later [] = refl
values_of t now later (id ∷ ids) =
    ap₂ (λ v vs. v ++ vs) (value (lookup id t.records)) (values_of t now later ids)
  where
    value : (o : Option NeighborRecord) → (entry t now o).0 ≡ (entry t later o).0
    value none = refl
    value (some r) = refl

-- Whether `now` is at most `window` after `rx`.
abbrev pub is_within : ℕ → ℤ → ℤ → Bool
is_within window (pos rx) (pos now) = leb now (rx + window)
is_within window (pos rx) (negsuc now) = true
is_within window (negsuc rx) (pos now) = leb (now + suc rx) window
is_within window (negsuc rx) (negsuc now) = leb rx (now + window)

abbrev pub is_recent : NeighborTable → ℤ → Option NeighborRecord → Bool
is_recent t now none = false
is_recent t now (some r) = is_within t.max_age_us r.rx_time_us now

age-is_within : (window : ℕ) (rx now : ℤ) → leb_ℤ (now -ℤ rx) (pos window) ≡ is_within window rx now
unfolding ◌-ℤ◌
age-is_within window (pos rx) (pos now) = ground arith
age-is_within window (pos rx) (negsuc now) = ground arith
age-is_within window (negsuc rx) (pos now) = ground arith
age-is_within window (negsuc rx) (negsuc now) = ground arith

fresh_entry-is_recent :
    (t : NeighborTable) (now : ℤ) (o : Option NeighborRecord)
    → fresh_entry t now o ≡ is_recent t now o
fresh_entry-is_recent t now none = refl
fresh_entry-is_recent t now (some r) = age-is_within t.max_age_us r.rx_time_us now

freshness_of :
    (t : NeighborTable) (now : ℤ) (ids : List ℕ)
    → map (λ id. fresh_entry t now (lookup id t.records)) ids
      ≡ map (λ id. is_recent t now (lookup id t.records)) ids
freshness_of t now [] = refl
freshness_of t now (id ∷ ids) =
    ap₂ (λ b bs. b ∷ bs) (fresh_entry-is_recent t now (lookup id t.records))
      (freshness_of t now ids)

-- A neighbour is fresh when its latest packet arrived, and not longer ago than the table's maximal
-- age. The flags of a snapshot are those that the senders gave of themselves, each put out when the
-- value is not fresh and the table does not hold; the values are the same at every time.
pub snapshot-freshness :
    (t : NeighborTable) (now later : ℤ)
    → ((snapshot t now).1
        ≡ zip_and (senders_enabled t) (map (λ fresh. t.hold || fresh) (freshness t now)))
      × (freshness t now ≡ map (λ id. is_recent t now (lookup id t.records)) t.neighbor_ids)
      × ((snapshot t now).0 ≡ (snapshot t later).0)
unfolding snapshot freshness
snapshot-freshness t now later = (
  flags_of t now t.neighbor_ids,
  freshness_of t now t.neighbor_ids,
  values_of t now later t.neighbor_ids,
)
