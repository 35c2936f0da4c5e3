-- ===== src/Hub/Outcome.antt =====
-- What the report of a run says of the fleet (vertex/hub/runner.py).
use vertex_testbed.Common.{
  ◌||◌, ==_iff, arith, sym, not, All-append, ◌==◌, All, length, ◌≤◌, ◌∙◌, ap₂, elem, ap, subst, inr,
  ◌++◌, inl, map, Bool-cases, refl, ◌&&◌, ◌≡◌, Bool, List, [], ◌∷◌, ℕ, suc, Option, none, some,
  true, false,
}
use vertex_testbed.Hub.Runner.{
  report_ok, Event, not_started, all_ok, stopped_by, started_by, no_errors, Fault, all_configured,
  fetched, artifacts, node_outcome, is_ok, NodeOutcome, Fleet, Command, run, run_configured,
  configure_one, start_one, stop_one, collect_one, held_back, Artifact, meta, rows, clear,
  configure,
}
use vertex_testbed.Hub.Phases.{phase}

abbrev is_given : Option ℕ → Bool
is_given none = false
is_given (some n) = true

-- The node answers every command of a run.
abbrev answers : Fleet → ℕ → Bool
answers fleet i =
    fleet.configures i
    && is_given (fleet.starts i)
    && is_given (fleet.stops i)
    && is_given (fleet.fetches i meta)
    && is_given (fleet.fetches i rows)

abbrev all_answer : Fleet → List ℕ → Bool
all_answer fleet [] = true
all_answer fleet (i ∷ ids) = answers fleet i && all_answer fleet ids

-- A node that is configured, after the rest of the run.
through : Fleet → NodeOutcome → NodeOutcome
through fleet n = collect_one fleet artifacts (stop_one fleet (start_one fleet n))

configured_node : ℕ → NodeOutcome
configured_node i = record (node_outcome i) { configured = true }

started_by-node_id : (o : Option ℕ) (n : NodeOutcome) → (started_by o n).node_id ≡ n.node_id
unfolding started_by
started_by-node_id none n = refl
started_by-node_id (some a) n = refl

stopped_by-node_id : (o : Option ℕ) (n : NodeOutcome) → (stopped_by o n).node_id ≡ n.node_id
unfolding stopped_by
stopped_by-node_id none n = refl
stopped_by-node_id (some a) n = refl

fetched-node_id :
    (o : Option ℕ) (a : Artifact) (n : NodeOutcome) → (fetched o a n).node_id ≡ n.node_id
unfolding fetched
fetched-node_id none a n = refl
fetched-node_id (some x) a n = refl

through-steps :
    (fleet : Fleet) (n : NodeOutcome)
    → through fleet n
      ≡ fetched (fleet.fetches n.node_id rows) rows (
          fetched
            (fleet.fetches n.node_id meta)
            meta
            (stopped_by (fleet.stops n.node_id) (started_by (fleet.starts n.node_id) n)))
unfolding through start_one stop_one collect_one
through-steps fleet n =
    let n1 = started_by (fleet.starts n.node_id) n in
    let n2 = stopped_by (fleet.stops n.node_id) n1 in
    let n3 = fetched (fleet.fetches n.node_id meta) meta n2 in
    let e1 = started_by-node_id (fleet.starts n.node_id) n in
    let e2 = stopped_by-node_id (fleet.stops n.node_id) n1 ∙ e1 in
    let e3 = fetched-node_id (fleet.fetches n.node_id meta) meta n2 ∙ e2 in
    ap (λ j. collect_one fleet artifacts (stopped_by (fleet.stops j) n1)) e1
    ∙ ap (λ j. collect_one fleet (rows ∷ []) (fetched (fleet.fetches j meta) meta n2)) e2
    ∙ ap (λ j. fetched (fleet.fetches j rows) rows n3) e3

is_ok-through :
    (fleet : Fleet) (i : ℕ)
    → is_ok (through fleet (configured_node i)) ≡ (
        is_given (fleet.starts i)
        && is_given (fleet.stops i)
        && is_given (fleet.fetches i meta)
        && is_given (fleet.fetches i rows))
unfolding configured_node fetched started_by stopped_by
is_ok-through fleet i =
    ap is_ok (through-steps fleet (configured_node i))
    ∙ go (fleet.starts i) (fleet.stops i) (fleet.fetches i meta) (fleet.fetches i rows)
  where
    go :
        (a b c d : Option ℕ)
        → is_ok (fetched d rows (fetched c meta (stopped_by b (started_by a (configured_node i)))))
          ≡ (is_given a && is_given b && is_given c && is_given d)
    go none none none none = refl
    go none none none (some d) = refl
    go none none (some c) none = refl
    go none none (some c) (some d) = refl
    go none (some b) none none = refl
    go none (some b) none (some d) = refl
    go none (some b) (some c) none = refl
    go none (some b) (some c) (some d) = refl
    go (some a) none none none = refl
    go (some a) none none (some d) = refl
    go (some a) none (some c) none = refl
    go (some a) none (some c) (some d) = refl
    go (some a) (some b) none none = refl
    go (some a) (some b) none (some d) = refl
    go (some a) (some b) (some c) none = refl
    go (some a) (some b) (some c) (some d) = refl

and_false : (b : Bool) → (b && false) ≡ false
and_false true = refl
and_false false = refl

no_errors-append : (es : List Fault) (e : Fault) → no_errors (es ++ (e ∷ [])) ≡ false
no_errors-append [] e = refl
no_errors-append (x ∷ es) e = refl

held_back-is_ok : (n : NodeOutcome) → is_ok (held_back n) ≡ false
unfolding held_back
held_back-is_ok n = elim (Bool-cases n.configured) [
  | inl e ↦ rw (e, no_errors-append n.errors not_started) (and_false n.started)
  | inr e ↦ rw e refl
]

configure_one-yes :
    (fleet : Fleet) (i : ℕ)
    → fleet.configures i ≡ true
    → configure_one fleet (node_outcome i) ≡ configured_node i
unfolding configure_one configured_node
configure_one-yes fleet i e = rw e refl

configure_one-configured :
    (fleet : Fleet) (i : ℕ) → (configure_one fleet (node_outcome i)).configured ≡ fleet.configures i
unfolding configure_one
configure_one-configured fleet i = elim (Bool-cases (fleet.configures i)) [
  | inl e ↦ rw e refl
  | inr e ↦ rw e refl
]

-- The nodes of a run in which every node is configured.
configure_all :
    (fleet : Fleet) (ids : List ℕ)
    → all_configured (map (configure_one fleet) (map node_outcome ids)) ≡ true
    → all_ok (
        map (collect_one fleet artifacts) (
          map
            (stop_one fleet)
            (map (start_one fleet) (map (configure_one fleet) (map node_outcome ids)))))
      ≡ all_answer fleet ids
unfolding through collect_one
configure_all fleet [] h = refl
configure_all fleet (i ∷ ids) h = elim (Bool-cases (fleet.configures i)) [
  | inl e ↦
      rw (e, configure_one-yes fleet i e)
        (ap₂ (λ x y. x && y) (is_ok-through fleet i)
          (configure_all fleet ids (
            subst
              (λ b. (b && all_configured (map (configure_one fleet) (map node_outcome ids))) ≡ true)
              (configure_one-configured fleet i ∙ e) h)))
  | inr e ↦ cc (h, configure_one-configured fleet i ∙ e)
]

refused :
    (fleet : Fleet) (ids : List ℕ)
    → all_configured (map (configure_one fleet) (map node_outcome ids)) ≡ false
    → (all_answer fleet ids ≡ false)
      × (all_ok (map held_back (map (configure_one fleet) (map node_outcome ids))) ≡ false)
refused fleet [] h = cc h
refused fleet (i ∷ ids) h = (
  elim (Bool-cases (fleet.configures i)) [
    | inl e ↦
        rw
          ((refused fleet ids (
            subst
              (λ b.
                (b && all_configured (map (configure_one fleet) (map node_outcome ids))) ≡ false)
              (configure_one-configured fleet i ∙ e) h)).0)
          (and_false (answers fleet i))
    | inr e ↦ rw e refl
  ],
  rw (held_back-is_ok (configure_one fleet (node_outcome i))) refl,
)

length-map : {A B : Type 0} (f : A → B) (xs : List A) → length (map f xs) ≡ length xs
length-map f [] = refl
length-map f (x ∷ xs) = ap suc (length-map f xs)

-- The report of a run is good exactly when the run has a node and every node of it answered every
-- command: it took its configuration, started, stopped, and gave both of its artefacts.
pub run-report_ok :
    (fleet : Fleet) (epoch duration : ℕ) (events : List Event) (ids : List ℕ)
    → report_ok (run fleet epoch duration events ids).1
      ≡ (not (length ids == 0) && all_answer fleet ids)
unfolding run run_configured
run-report_ok fleet epoch duration events ids =
    let nodes = map (configure_one fleet) (map node_outcome ids) in
    let size =
      length-map (configure_one fleet) (map node_outcome ids) ∙ length-map node_outcome ids in
    elim (Bool-cases (all_configured nodes)) [
      | inl h ↦ rw h (
          ap₂ (λ n b. not (n == 0) && b) (length-map _ _ ∙ length-map _ _ ∙ length-map _ _ ∙ size)
            (configure_all fleet ids h))
      | inr h ↦ rw h (
          let (a, b) = refused fleet ids h in
          rw (a, b) (ap (λ n. not (n == 0) && false) (length-map held_back nodes ∙ size)))
    ]

held_back-started : (n : NodeOutcome) → (held_back n).started ≡ n.started
unfolding held_back
held_back-started n = elim (Bool-cases n.configured) [ inl e ↦ rw e refl | inr e ↦ rw e refl ]

configure_one-started :
    (fleet : Fleet) (i : ℕ) → (configure_one fleet (node_outcome i)).started ≡ false
unfolding configure_one
configure_one-started fleet i = elim (Bool-cases (fleet.configures i)) [
  | inl e ↦ rw e refl
  | inr e ↦ rw e refl
]

none_started :
    (fleet : Fleet) (ids : List ℕ)
    → All
        (λ n. n.started ≡ false)
        (map held_back (map (configure_one fleet) (map node_outcome ids)))
none_started fleet [] = tt
none_started fleet (i ∷ ids) = (
  held_back-started (configure_one fleet (node_outcome i)) ∙ configure_one-started fleet i,
  none_started fleet ids,
)

not_all_configured :
    (fleet : Fleet) (x : ℕ) (ids : List ℕ)
    → elem x ids ≡ true
    → fleet.configures x ≡ false
    → all_configured (map (configure_one fleet) (map node_outcome ids)) ≡ false
not_all_configured fleet x [] here refusal = cc here
not_all_configured fleet x (i ∷ ids) here refusal = elim (Bool-cases (x == i)) [
  | inl e ↦ rw (configure_one-configured fleet i, sym ((==_iff x i).0 e), refusal) refl
  | inr e ↦
      rw (not_all_configured fleet x ids (subst (λ b. (b || elem x ids) ≡ true) e here) refusal)
        (and_false (configure_one fleet (node_outcome i)).configured)
]

early :
    (f : ℕ → Command) (ids : List ℕ)
    → ((i : ℕ) → phase (f i) ≤ 1)
    → All (λ c. phase c ≤ 1) (map f ids)
early f [] h = tt
early f (i ∷ ids) h = (h i, early f ids h)

-- When one node of a run refuses its configuration, the run issues no command but the clearing of
-- stale runs and the configurations: no node is started, by the commands or by the report, and
-- nothing is written.
pub run-barrier :
    (fleet : Fleet) (epoch duration : ℕ) (events : List Event) (ids : List ℕ) (x : ℕ)
    → elem x ids ≡ true
    → fleet.configures x ≡ false
    → let r = run fleet epoch duration events ids in
      All (λ c. phase c ≤ 1) r.0 × All (λ n. n.started ≡ false) r.1.nodes × (r.1.written ≡ false)
unfolding run
run-barrier fleet epoch duration events ids x here refusal =
    rw (not_all_configured fleet x ids here refusal) (
      All-append (λ c. phase c ≤ 1) (map clear ids) (map configure ids)
          (early clear ids (λ i. omega arith)) (early configure ids (λ i. omega arith)),
      none_started fleet ids,
      refl,
    )
