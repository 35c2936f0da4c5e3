-- ===== src/Common/Dict.antt =====
-- Python's `dict` with keys that are numbers, as an association list in order of insertion: an
-- assignment to a key that is there keeps its place.
use vertex_testbed.Common.{
  refl, ◌||◌, ==_refl, [], arith, false, Bool, ◌≡◌, none, some, ◌∷◌, Option, List, ℕ,
}
use vertex_testbed.Common.Tests.{◌==◌, if◌then◌else◌}

abbrev pub Dict {ℓ} : Type ℓ → Type ℓ
Dict V = List (ℕ × V)

module _ {ℓ} {V : Type ℓ} where
  -- `d.get(k)`
  unfoldable pub lookup : ℕ → Dict V → Option V
  lookup k [] = none
  lookup k ((j, v) ∷ d) = if j == k then some v else lookup k d

  -- `d[k] = v`
  unfoldable pub insert : ℕ → V → Dict V → Dict V
  insert k v [] = (k, v) ∷ []
  insert k v ((j, w) ∷ d) = if j == k then (k, v) ∷ d else (j, w) ∷ insert k v d

  -- `k in d`
  unfoldable pub contains : ℕ → Dict V → Bool
  contains k [] = false
  contains k ((j, v) ∷ d) = j == k || contains k d

  pub lookup-insert :
      (k j : ℕ) (v : V) (d : Dict V)
      → lookup j (insert k v d) ≡ (if k == j then some v else lookup j d)
  unfolding lookup insert
  lookup-insert k j v [] = refl
  lookup-insert k j v ((i, w) ∷ d) = ground (arith, lookup-insert k j v d)

  pub lookup-insert_self : (k : ℕ) (v : V) (d : Dict V) → lookup k (insert k v d) ≡ some v
  lookup-insert_self k v d = rw (lookup-insert k k v d, ==_refl k)

  pub contains-insert :
      (k j : ℕ) (v : V) (d : Dict V) → contains j (insert k v d) ≡ (k == j || contains j d)
  unfolding contains insert
  contains-insert k j v [] = refl
  contains-insert k j v ((i, w) ∷ d) = ground (arith, contains-insert k j v d)

-- `d.get(k, default)`
abbrev pub or_default {ℓ} : {V : Type ℓ} → Option V → V → V
or_default none v = v
or_default (some w) v = w
