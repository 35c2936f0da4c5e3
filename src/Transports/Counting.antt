-- ===== src/Transports/Counting.antt =====
-- What `publish` of vertex/transports/multi.py counts.
use vertex_testbed.Common.Dict.{or_default, lookup, insert, Dict, lookup-insert}
use vertex_testbed.Common.{
  ==_iff, ltb, ◌+◌, length, ◌<◌, ◌≤◌, ◌∙◌, inr, inl, Bool-cases, map, arith, refl, not, ap, ◌≡◌,
  ◌++◌, ◌&&◌, ◌==◌, Bool, if◌then◌else◌, List, [], ◌∷◌, ℕ, suc, ok, true, false,
}
use vertex_testbed.Transports.Multi.{
  failures_of, MultiTransport, Media, publish, publish_call, count_errors,
}

abbrev pub all_publish : Media → List ℕ → Bool
all_publish media [] = true
all_publish media (m ∷ ms) = media.publishes m && all_publish media ms

abbrev pub none_publishes : Media → List ℕ → Bool
none_publishes media [] = true
none_publishes media (m ∷ ms) = not (media.publishes m) && none_publishes media ms

abbrev pub one_if : Bool → ℕ
one_if b = if b then 1 else 0

-- How often `m` raises where each of `ms` is called once.
abbrev pub raises_of : ℕ → Media → List ℕ → ℕ
raises_of m media [] = 0
raises_of m media (x ∷ xs) = one_if (x == m && not (media.publishes x)) + raises_of m media xs

-- The errors counted of one member.
abbrev pub errors_of : ℕ → Dict ℕ → ℕ
errors_of m d = or_default (lookup m d) 0

failures-all : (media : Media) (ms : List ℕ) → (failures_of media ms == 0) ≡ all_publish media ms
failures-all media [] = refl
failures-all media (m ∷ ms) = elim (Bool-cases (media.publishes m)) [
  | inl e ↦ rw e (failures-all media ms)
  | inr e ↦ rw e (ground arith)
]

failures-le : (media : Media) (ms : List ℕ) → failures_of media ms ≤ length ms
failures-le media [] = omega arith
failures-le media (m ∷ ms) = ground (arith, failures-le media ms)

failures-none :
    (media : Media) (ms : List ℕ)
    → ltb (failures_of media ms) (length ms) ≡ not (none_publishes media ms)
failures-none media [] = ground arith
failures-none media (m ∷ ms) = elim (Bool-cases (media.publishes m)) [
  | inl e ↦ rw e (ground (arith, failures-le media ms))
  | inr e ↦ rw e (down (failures_of media ms) (length ms) ∙ failures-none media ms)
]
  where
    down : (a b : ℕ) → ltb (suc a) (suc b) ≡ ltb a b
    down a b = ground arith

errors_of-insert :
    (m k v : ℕ) (d : Dict ℕ) → errors_of m (insert k v d) ≡ (if k == m then v else errors_of m d)
errors_of-insert m k v d =
    ap (λ o. or_default o 0) (lookup-insert k m v d)
    ∙ elim (Bool-cases (k == m)) [ inl e ↦ rw e refl | inr e ↦ rw e refl ]

errors_of-count_errors :
    (m : ℕ) (media : Media) (ms : List ℕ) (d : Dict ℕ)
    → errors_of m (count_errors media ms d) ≡ errors_of m d + raises_of m media ms
unfolding count_errors
errors_of-count_errors m media [] d = omega arith
errors_of-count_errors m media (x ∷ xs) d = elim (Bool-cases (media.publishes x)) [
  | inl e ↦ elim (Bool-cases (x == m)) [
    | inl q ↦ rw (e, q) (omega (arith, errors_of-count_errors m media xs d))
    | inr q ↦ rw (e, q) (omega (arith, errors_of-count_errors m media xs d))
  ]
  | inr e ↦
      let d' : Dict ℕ = insert x (or_default (lookup x d) 0 + 1) d in
      let ih = errors_of-count_errors m media xs d' in
      let at = errors_of-insert m x (or_default (lookup x d) 0 + 1) d in
      elim (Bool-cases (x == m)) [
        | inl q ↦
            let same : errors_of x d ≡ errors_of m d = ap (λ n. errors_of n d) ((==_iff x m).0 q) in
            let at' : errors_of m d' ≡ errors_of x d + 1 = rw q at at in
            rw (e, q) (omega (arith, ih, at', same))
        | inr q ↦
            let at' : errors_of m d' ≡ errors_of m d = rw q at at in
            rw (e, q) (omega (arith, ih, at'))
      ]
]

-- A send on a transport that is started never raises, and calls every started member once, in
-- order. It is counted as published where all of them publish, as failed where none does, and as
-- partial otherwise; each member has one error more for each time that it raised.
pub publish-counted :
    (media : Media) (t : MultiTransport)
    → 0 < length t.started
    → (t' : MultiTransport) × (publish media t ≡ ok t')
      × (t'.calls ≡ t.calls ++ map publish_call t.started)
      × (t'.stats.published ≡ t.stats.published + one_if (all_publish media t.started))
      × (t'.stats.failed ≡ t.stats.failed + one_if (none_publishes media t.started))
      × (t'.stats.partial
          ≡ t.stats.partial
            + one_if (not (all_publish media t.started) && not (none_publishes media t.started)))
      × ((m : ℕ)
          → errors_of m t'.stats.per_medium_errors
            ≡ errors_of m t.stats.per_medium_errors + raises_of m media t.started)
unfolding publish
publish-counted media t h =
    let some_started : (length t.started == 0) ≡ false = ground arith in
    let errors = λ (m : ℕ). errors_of-count_errors m media t.started t.stats.per_medium_errors in
    let all = failures-all media t.started in
    let none = failures-none media t.started in
    rw some_started (elim (Bool-cases (failures_of media t.started == 0)) [
      | inl e ↦
          let p : all_publish media t.started ≡ true = ground (arith, all) in
          let q : none_publishes media t.started ≡ false = ground (arith, none) in
          rw (e, p, q) (_, refl, refl, omega arith, omega arith, omega arith, errors)
      | inr e ↦
          let p : all_publish media t.started ≡ false = ground (arith, all) in
          elim (Bool-cases (ltb (failures_of media t.started) (length t.started))) [
            | inl f ↦
                let q : none_publishes media t.started ≡ false = ground (arith, none) in
                rw (e, f, p, q) (_, refl, refl, omega arith, omega arith, omega arith, errors)
            | inr f ↦
                let q : none_publishes media t.started ≡ true = ground (arith, none) in
                rw (e, f, p, q) (_, refl, refl, omega arith, omega arith, omega arith, errors)
          ]
    ])
