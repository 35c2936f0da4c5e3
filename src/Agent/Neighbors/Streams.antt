-- ===== src/Agent/Neighbors/Streams.antt =====
-- What a stream of receptions leaves in the neighbour table of vertex/agent/neighbors.py.
use vertex_testbed.Common.Dict.{contains-insert}
use vertex_testbed.Common.{
  arith, ==_refl, ap₂, if◌then◌else◌, refl, inr, ◌∙◌, ==_iff, inl, Bool-cases, ◌||◌, ap, ◌==◌, ◌≡◌,
  List, [], ◌∷◌, ℕ,
}
use vertex_testbed.Agent.Neighbors.{
  observe, Bool, false, true, add, elem, contains, map, NeighborTable, Reception, observe_all,
}

abbrev pub senders : List Reception → List ℕ
senders rs = map (λ r. r.packet.node_id) rs

-- The receptions whose sender is among `ids`.
abbrev pub declared : List ℕ → List Reception → List Reception
declared ids [] = []
declared ids (r ∷ rs) =
    let rest = declared ids rs in if elem r.packet.node_id ids then r ∷ rest else rest

elem-congr : {x y : ℕ} (xs : List ℕ) → x ≡ y → elem x xs ≡ elem y xs
elem-congr xs e = ap (λ z. elem z xs) e

-- A declared neighbour and the sender of an ignored packet differ.
undeclared-differs :
    (id x : ℕ) (ids : List ℕ) → elem id ids ≡ true → elem x ids ≡ false → (id == x) ≡ false
undeclared-differs id x ids h k = elim (Bool-cases (id == x)) [
  | inl e ↦ cc (h, k, elem-congr ids ((==_iff id x).0 e))
  | inr e ↦ e
]

elem-add : (x y : ℕ) (xs : List ℕ) → elem y (add x xs) ≡ (y == x || elem y xs)
unfolding add
elem-add x y xs = elim (Bool-cases (elem x xs)) [
  | inl e ↦ rw e (elim (Bool-cases (y == x)) [
    | inl same ↦ rw same (elem-congr xs ((==_iff y x).0 same) ∙ e)
    | inr other ↦ rw other refl
  ])
  | inr e ↦ rw e refl
]

or_swap : (a b c : Bool) → (a || (b || c)) ≡ ((b || a) || c)
or_swap true true c = refl
or_swap true false c = refl
or_swap false true c = refl
or_swap false false c = refl

pub or_false : (a : Bool) → (a || false) ≡ a
or_false true = refl
or_false false = refl

pub map-elem_congr :
    {A : Type 0} (f g : ℕ → A) (ids : List ℕ)
    → ((id : ℕ) → elem id ids ≡ true → f id ≡ g id)
    → map f ids ≡ map g ids
map-elem_congr f g [] h = refl
map-elem_congr f g (i ∷ ids) h =
    ap₂ (λ a l. a ∷ l) (h i (rw (==_refl i) refl))
      (map-elem_congr f g ids (λ id k. h id (later id k)))
  where
    later : (id : ℕ) → elem id ids ≡ true → elem id (i ∷ ids) ≡ true
    later id k = elim (Bool-cases (id == i)) [ inl e ↦ rw e refl | inr e ↦ rw e k ]

pub observe-neighbor_ids :
    (t : NeighborTable) (r : Reception) → (observe t r).0.neighbor_ids ≡ t.neighbor_ids
unfolding observe
observe-neighbor_ids t r = elim (Bool-cases (elem r.packet.node_id t.neighbor_ids)) [
  | inl e ↦ rw e refl
  | inr e ↦ rw e refl
]

pub observe_all-neighbor_ids :
    (rs : List Reception) (t : NeighborTable) → (observe_all t rs).neighbor_ids ≡ t.neighbor_ids
unfolding observe_all
observe_all-neighbor_ids [] t = refl
observe_all-neighbor_ids (r ∷ rs) t = observe_all-neighbor_ids rs _ ∙ observe-neighbor_ids t r

module _ (id : ℕ) where
  arrived-observe :
      (t : NeighborTable) (r : Reception)
      → elem id t.neighbor_ids ≡ true
      → elem id (observe t r).0.arrived ≡ (id == r.packet.node_id || elem id t.arrived)
  unfolding observe
  arrived-observe t r h = elim (Bool-cases (elem r.packet.node_id t.neighbor_ids)) [
    | inl e ↦ rw e (elem-add r.packet.node_id id t.arrived)
    | inr e ↦ rw (e, undeclared-differs id r.packet.node_id t.neighbor_ids h e) refl
  ]

  pub arrived-observe_all :
      (rs : List Reception) (t : NeighborTable)
      → elem id t.neighbor_ids ≡ true
      → elem id (observe_all t rs).arrived ≡ (elem id (senders rs) || elem id t.arrived)
  unfolding observe_all
  arrived-observe_all [] t h = refl
  arrived-observe_all (r ∷ rs) t h =
      arrived-observe_all rs (observe t r).0 (elem-here (observe-neighbor_ids t r) h)
      ∙ ap (λ b. elem id (senders rs) || b) (arrived-observe t r h)
      ∙ or_swap (elem id (senders rs)) (id == r.packet.node_id) (elem id t.arrived)
    where
      elem-here : {xs ys : List ℕ} → xs ≡ ys → elem id ys ≡ true → elem id xs ≡ true
      elem-here e k = rw e k

  contains-observe :
      (t : NeighborTable) (r : Reception)
      → elem id t.neighbor_ids ≡ true
      → contains id (observe t r).0.records ≡ (id == r.packet.node_id || contains id t.records)
  unfolding observe
  contains-observe t r h = elim (Bool-cases (elem r.packet.node_id t.neighbor_ids)) [
    | inl e ↦ rw e (
        contains-insert r.packet.node_id id _ t.records
        ∙ ap (λ b. b || contains id t.records) (==-comm r.packet.node_id id))
    | inr e ↦ rw (e, undeclared-differs id r.packet.node_id t.neighbor_ids h e) refl
  ]
    where
      ==-comm : (a b : ℕ) → (a == b) ≡ (b == a)
      ==-comm a b = ground arith

  pub contains-observe_all :
      (rs : List Reception) (t : NeighborTable)
      → elem id t.neighbor_ids ≡ true
      → contains id (observe_all t rs).records ≡ (elem id (senders rs) || contains id t.records)
  unfolding observe_all
  contains-observe_all [] t h = refl
  contains-observe_all (r ∷ rs) t h =
      contains-observe_all rs (observe t r).0 (elem-here (observe-neighbor_ids t r) h)
      ∙ ap (λ b. elem id (senders rs) || b) (contains-observe t r h)
      ∙ or_swap (elem id (senders rs)) (id == r.packet.node_id) (contains id t.records)
    where
      elem-here : {xs ys : List ℕ} → xs ≡ ys → elem id ys ≡ true → elem id xs ≡ true
      elem-here e k = rw e k
