-- ===== src/Transports/FanOut.antt =====
-- The life of a `MultiTransport` (vertex/transports/multi.py): what `start` leaves when a member
-- fails.
use mathlib.Core.List.{append_assoc, append-nil}
use vertex_testbed.Common.{
  ==_iff, ◌⊎◌, subst, ◌∙◌, inr, inl, Bool-cases, ◌||◌, map, sym, ==_refl, arith, elem, refl, not,
  ap, All, ◌≡◌, ◌++◌, ◌&&◌, ◌==◌, Bool, if◌then◌else◌, List, [], ◌∷◌, ℕ, true, false,
}
use vertex_testbed.Transports.Multi.{
  MultiStats, reversed, MultiTransport, Media, start, start_from, Call, start_call, stop_call,
  publish_call,
}

-- The members that run after some calls: a call of `start` that does not raise adds its member, a
-- call of `stop` that does not raise takes it away.
abbrev without : ℕ → List ℕ → List ℕ
without x [] = []
without x (y ∷ ys) = let rest = without x ys in if x == y then rest else y ∷ rest

abbrev pub running_after : Media → List Call → List ℕ → List ℕ
running_after media [] live = live
running_after media (start_call m ∷ cs) live =
    running_after media cs (if media.starts m then m ∷ live else live)
running_after media (stop_call m ∷ cs) live =
    running_after media cs (if media.stops m then without m live else live)
running_after media (publish_call m ∷ cs) live = running_after media cs live

-- Whether every member starts.
abbrev pub all_start : Media → List ℕ → Bool
all_start media [] = true
all_start media (m ∷ ms) = media.starts m && all_start media ms

reversed-append : (xs : List ℕ) (x : ℕ) → reversed (xs ++ (x ∷ [])) ≡ x ∷ reversed xs
reversed-append [] x = refl
reversed-append (y ∷ ys) x = ap (λ l. l ++ (y ∷ [])) (reversed-append ys x)

running_after-append :
    (media : Media) (cs ds : List Call) (live : List ℕ)
    → running_after media (cs ++ ds) live ≡ running_after media ds (running_after media cs live)
running_after-append media [] ds live = refl
running_after-append media (start_call m ∷ cs) ds live = running_after-append media cs ds _
running_after-append media (stop_call m ∷ cs) ds live = running_after-append media cs ds _
running_after-append media (publish_call m ∷ cs) ds live = running_after-append media cs ds live

-- What runs after some stops: a member still to stop, or one whose `stop` raised.
abbrev MayRun : Media → List ℕ → ℕ → Type 0
MayRun media xs y = (elem y xs ≡ true) ⊎ (media.stops y ≡ false)

without-MayRun :
    (media : Media) (x : ℕ) (xs live : List ℕ)
    → All (MayRun media (x ∷ xs)) live
    → All (MayRun media xs) (without x live)
without-MayRun media x xs [] h = tt
without-MayRun media x xs (y ∷ ys) (here, h) = elim (Bool-cases (x == y)) [
  | inl e ↦ rw e (without-MayRun media x xs ys h)
  | inr e ↦ rw e (later here e, without-MayRun media x xs ys h)
]
  where
    later : MayRun media (x ∷ xs) y → (x == y) ≡ false → MayRun media xs y
    later (inl p) e =
        let f : (y == x) ≡ false = ground arith in inl (subst (λ b. (b || elem y xs) ≡ true) f p)
    later (inr p) e = inr p

kept-MayRun :
    (media : Media) (x : ℕ) (xs live : List ℕ)
    → media.stops x ≡ false
    → All (MayRun media (x ∷ xs)) live
    → All (MayRun media xs) live
kept-MayRun media x xs [] f h = tt
kept-MayRun media x xs (y ∷ ys) f (here, h) = (later here, kept-MayRun media x xs ys f h)
  where
    later : MayRun media (x ∷ xs) y → MayRun media xs y
    later (inl p) = elim (Bool-cases (y == x)) [
      | inl e ↦ inr (subst (λ n. media.stops n ≡ false) (sym ((==_iff y x).0 e)) f)
      | inr e ↦ inl (subst (λ b. (b || elem y xs) ≡ true) e p)
    ]
    later (inr p) = inr p

unstopped :
    (media : Media) (live : List ℕ)
    → All (MayRun media []) live
    → All (λ y. media.stops y ≡ false) live
unstopped media [] h = tt
unstopped media (y ∷ ys) (inl p, h) = absurd (ground arith)
unstopped media (y ∷ ys) (inr p, h) = (p, unstopped media ys h)

stops-unstopped :
    (media : Media) (xs live : List ℕ)
    → All (MayRun media xs) live
    → All (λ y. media.stops y ≡ false) (running_after media (map stop_call xs) live)
stops-unstopped media [] live h = unstopped media live h
stops-unstopped media (x ∷ xs) live h =
    by_stop (media.stops x) refl (λ live' h'. stops-unstopped media xs live' h')
  where
    Unstopped : List ℕ → Type 0
    Unstopped live' =
        All (λ y. media.stops y ≡ false) (running_after media (map stop_call xs) live')

    by_stop :
        (b : Bool)
        → media.stops x ≡ b
        → ((live' : List ℕ) → All (MayRun media xs) live' → Unstopped live')
        → Unstopped (if b then without x live else live)
    by_stop true e ih = ih (without x live) (without-MayRun media x xs live h)
    by_stop false e ih = ih live (kept-MayRun media x xs live e h)

All-elem_weaken :
    (x : ℕ) (xs ys : List ℕ) → All (λ y. elem y xs ≡ true) ys → All (λ y. elem y (x ∷ xs) ≡ true) ys
All-elem_weaken x xs [] h = tt
All-elem_weaken x xs (y ∷ ys) (here, h) = (rw here (or_true (y == x)), All-elem_weaken x xs ys h)
  where
    or_true : (b : Bool) → (b || true) ≡ true
    or_true true = refl
    or_true false = refl

All-elem_self : (xs : List ℕ) → All (λ y. elem y xs ≡ true) xs
All-elem_self [] = tt
All-elem_self (x ∷ xs) = (rw (==_refl x) refl, All-elem_weaken x xs xs (All-elem_self xs))

All-MayRun :
    (media : Media) (xs ys : List ℕ) → All (λ y. elem y xs ≡ true) ys → All (MayRun media xs) ys
All-MayRun media xs [] h = tt
All-MayRun media xs (y ∷ ys) (here, h) = (inl here, All-MayRun media xs ys h)

-- The members that run are the started ones.
Runs : Media → MultiTransport → Type 0
Runs media t = running_after media t.calls [] ≡ reversed t.started

-- What runs when `start` is over: every member, or none but those whose `stop` raised.
abbrev pub Left : Media → List ℕ → List ℕ → Bool → List ℕ → Type 0
Left media before ms raises live =
    (raises ≡ false → live ≡ reversed (before ++ ms))
    × (raises ≡ true → All (λ y. media.stops y ≡ false) live)

start_fails :
    (media : Media) (m : ℕ) (cs : List Call) (live : List ℕ)
    → media.starts m ≡ false
    → running_after media (start_call m ∷ cs) live ≡ running_after media cs live
start_fails media m cs live e = rw e refl

start_from-Left :
    (media : Media) (ms : List ℕ) (t : MultiTransport)
    → Runs media t
    → let r = start_from media ms t in
      Left media t.started ms r.1 (running_after media r.0.calls [])
      × ((r.1 ≡ not (all_start media ms))
          × (r.0.started ≡ (if all_start media ms then t.started ++ ms else [])))
unfolding start_from Runs
start_from-Left media [] t h = (
  ((λ e. h ∙ ap reversed (sym (append-nil t.started))), λ e. absurd (ground arith)),
  (refl, sym (append-nil t.started)),
)
start_from-Left media (m ∷ ms) t h = elim (Bool-cases (media.starts m)) [
  | inl e ↦
      let t1 = record t {
        started = t.started ++ (m ∷ []);
        calls = t.calls ++ (start_call m ∷ []);
      } in
      let one : running_after media (t.calls ++ (start_call m ∷ [])) []
          ≡ reversed (t.started ++ (m ∷ [])) =
        running_after-append media t.calls (start_call m ∷ []) []
        ∙ rw (e, h, reversed-append t.started m) refl in
      let (runs, (raises, left)) = start_from-Left media ms t1 one in
      rw e (
        ((λ q. runs.0 q ∙ ap reversed (append_assoc t.started (m ∷ []) ms)), runs.1),
        (
          raises,
          left
              ∙ ap (λ l. if all_start media ms then l else []) (append_assoc t.started (m ∷ []) ms),
        ),
      )
  | inr e ↦
      let unwound = map stop_call (reversed t.started) in
      let left : running_after media (t.calls ++ (start_call m ∷ unwound)) []
          ≡ running_after media unwound (reversed t.started) =
        running_after-append media t.calls (start_call m ∷ unwound) []
        ∙ start_fails media m unwound (running_after media t.calls []) e
        ∙ ap (running_after media unwound) h in
      rw e (
        (
          (λ q. absurd (ground arith)),
          λ q. subst (All (λ y. media.stops y ≡ false)) (sym left) (
              stops-unstopped media (reversed t.started) (reversed t.started) (
                All-MayRun media (reversed t.started) (reversed t.started)
                  (All-elem_self (reversed t.started)))),
        ),
        (refl, refl),
      )
]

-- `start` of a transport on which nothing was called raises exactly when a member does, and then
-- the transport takes no member for started: those that had started are stopped again, and none is
-- left running but one whose `stop` raises. Otherwise every member runs, and these are the members
-- that the transport takes for started.
pub start-running :
    (media : Media) (members : List ℕ) (stats : MultiStats)
    → let r = start media (record { members = members; started = []; stats = stats; calls = [] }) in
      Left media [] members r.1 (running_after media r.0.calls [])
      × ((r.1 ≡ not (all_start media members))
          × (r.0.started ≡ (if all_start media members then members else [])))
unfolding start Runs
start-running media members stats =
    start_from-Left media members
      (record { members = members; started = []; stats = stats; calls = [] }) refl
