-- ===== src/Control/Transport/Blob.antt =====
-- The transfer of a blob by `read_blob` of vertex/control/transport.py, whatever the chunks it
-- arrives in.
use vertex_testbed.Control.Transport.{
  next_chunk, StreamReader, Ending, closed, silent, joined, received, read, read_from, read_blob,
  blob_chunk,
}
use vertex_testbed.Common.{
  ◌⊎◌, ◌==◌, subst, ◌>>=◌, length-take, drop-length_append, take-length_append, List, [], ◌∷◌, ℕ,
  zero, suc, Result, ok, err, true, false, ◌++◌, ◌≡◌, Exception, length, take, drop, min, ◌-◌, ◌+◌,
  ◌≤◌, ◌<◌, leb, refl, length-append, arith, Bool-cases, inl, inr, ap, sym, ◌∙◌,
}
use vertex_testbed.Common.Bytes.{Bytes}
use vertex_testbed.Common.Int.{pos}
use mathlib.Core.List.{append_assoc}

take-drop_append : (n : ℕ) (xs ys : Bytes) → take n xs ++ (drop n xs ++ ys) ≡ xs ++ ys
take-drop_append zero xs ys = refl
take-drop_append (suc n) [] ys = refl
take-drop_append (suc n) (x ∷ xs) ys = ap (λ l. x ∷ l) (take-drop_append n xs ys)

abbrev ReadsSome : ℕ → List Bytes → Ending → Type 0
ReadsSome want cs ending =
    (b : ℕ) × (bs : Bytes) × (rest : List Bytes) × (read want cs ending ≡ ok (b ∷ bs, rest))
    × ((b ∷ bs) ++ joined rest ≡ joined cs)
    × (length bs < want)

-- A read of a stream that has bytes yields one at least.
read_some :
    (want : ℕ) (cs : List Bytes) (ending : Ending)
    → 0 < want
    → 0 < length (joined cs)
    → ReadsSome want cs ending
unfolding read
read_some zero cs ending h k = absurd (omega arith)
read_some (suc w) [] ending h k = absurd (omega arith)
read_some (suc w) ([] ∷ cs) ending h k = read_some (suc w) cs ending h k
read_some (suc w) ((b ∷ bs) ∷ cs) ending h k = (
  b,
  take w bs,
  drop w bs ∷ cs,
  refl,
  ap (λ l. b ∷ l) (take-drop_append w bs (joined cs)),
  omega (arith, length-take w bs),
)

-- A read of one that has none fails, or yields nothing.
read_none :
    (P : Result (Bytes × List Bytes) → Type 0) (want : ℕ) (cs : List Bytes) (ending : Ending)
    → length (joined cs) ≡ 0
    → P (ok ([], []))
    → P (err Exception.timeout_error)
    → P (read want cs ending)
unfolding read
read_none P want [] closed e h k = h
read_none P want [] silent e h k = k
read_none P want ([] ∷ cs) ending e h k = read_none P want cs ending e h k
read_none P want ((b ∷ bs) ∷ cs) ending e h k = absurd (omega arith)

take-full : (n : ℕ) (xs ys : Bytes) → n ≡ length xs → take n (xs ++ ys) ≡ xs
take-full n xs ys e = rw e (take-length_append xs ys)

drop-full : (n : ℕ) (xs ys : Bytes) → n ≡ length xs → drop n (xs ++ ys) ≡ ys
drop-full n xs ys e = rw e (drop-length_append xs ys)

abbrev Transferred : ℕ → Result (Bytes × List Bytes) → Bytes → Type 0
Transferred n res all =
    (rest : List Bytes) × (res ≡ ok (take n all, rest)) × (joined rest ≡ drop n all)

read_from-done :
    (fuel n : ℕ) (buf : Bytes) (cs : List Bytes) (ending : Ending)
    → leb n (length buf) ≡ true
    → read_from fuel n buf cs ending ≡ ok (buf, cs)
unfolding read_from
read_from-done zero n buf cs ending t = rw t refl
read_from-done (suc fuel) n buf cs ending t = rw (t, read_from) refl

read_from-step :
    (fuel n : ℕ) (buf : Bytes) (cs : List Bytes) (ending : Ending)
    → leb n (length buf) ≡ false
    → read_from (suc fuel) n buf cs ending ≡ (
        next_chunk (read (min blob_chunk (n - length buf)) cs ending) >>= λ p.
        read_from fuel n (buf ++ p.0) p.1 ending)
unfolding read_from
read_from-step fuel n buf cs ending f = rw (f, read_from) refl

Transferred-done :
    (n : ℕ) (buf : Bytes) (cs : List Bytes)
    → n ≡ length buf
    → Transferred n (ok (buf, cs)) (buf ++ joined cs)
Transferred-done n buf cs e =
    rw (take-full n buf (joined cs) e) (cs, refl, sym (drop-full n buf (joined cs) e))

-- What a round that reads something hands on to the next.
abbrev Onward : ℕ → ℕ → Bytes → List Bytes → Ending → Type 0
Onward fuel n buf cs ending =
    (b : ℕ) × (bs : Bytes) × (rest : List Bytes) × (read_from (suc fuel) n buf cs ending
      ≡ read_from fuel n (buf ++ (b ∷ bs)) rest ending)
    × ((buf ++ (b ∷ bs)) ++ joined rest ≡ buf ++ joined cs)
    × (length (buf ++ (b ∷ bs)) ≡ length buf + suc (length bs))
    × (length bs < n - length buf)

onward :
    (fuel n : ℕ) (buf : Bytes) (cs : List Bytes) (ending : Ending)
    → leb n (length buf) ≡ false
    → ReadsSome (min blob_chunk (n - length buf)) cs ending
    → Onward fuel n buf cs ending
unfolding next_chunk
onward fuel n buf cs ending f (b, bs, rest, e, eq, w) = (
  b,
  bs,
  rest,
  read_from-step fuel n buf cs ending f ∙ rw e refl,
  append_assoc buf (b ∷ bs) (joined rest) ∙ ap (λ l. buf ++ l) eq,
  length-append buf (b ∷ bs),
  omega arith,
)

read_from_enough :
    (fuel n : ℕ) (buf : Bytes) (cs : List Bytes) (ending : Ending)
    → n ≤ length buf + fuel
    → length buf ≤ n
    → n ≤ length (buf ++ joined cs)
    → Transferred n (read_from fuel n buf cs ending) (buf ++ joined cs)
read_from_enough zero n buf cs ending hf hl hn =
    rw (read_from-done zero n buf cs ending (ground arith))
      (Transferred-done n buf cs (omega arith))
read_from_enough (suc fuel) n buf cs ending hf hl hn =
    split (Bool-cases (leb n (length buf))) (read_from_enough fuel n)
  where
    Goal : Type 0
    Goal = Transferred n (read_from (suc fuel) n buf cs ending) (buf ++ joined cs)

    Rest : Type 0
    Rest =
        (buf' : Bytes) (cs' : List Bytes) (end' : Ending)
        → n ≤ length buf' + fuel
        → length buf' ≤ n
        → n ≤ length (buf' ++ joined cs')
        → Transferred n (read_from fuel n buf' cs' end') (buf' ++ joined cs')

    grow : Onward fuel n buf cs ending → Rest → Goal
    grow (b, bs, rest, e, same, longer, w) ih = rw e (
        subst (λ l. Transferred n (read_from fuel n (buf ++ (b ∷ bs)) rest ending) l) same
          (ih (buf ++ (b ∷ bs)) rest ending (omega arith) (omega arith) (rw same hn)))

    split : (leb n (length buf) ≡ true) ⊎ (leb n (length buf) ≡ false) → Rest → Goal
    split (inl t) ih =
        rw (read_from-done (suc fuel) n buf cs ending t) (Transferred-done n buf cs (ground arith))
    split (inr f) ih =
        grow
          (onward fuel n buf cs ending f
            (read_some _ cs ending (ground arith) (ground (arith, length-append buf (joined cs)))))
          ih

read_from-end :
    (fuel n : ℕ) (buf : Bytes) (cs : List Bytes) (ending : Ending)
    → leb n (length buf) ≡ false
    → length (joined cs) ≡ 0
    → read_from (suc fuel) n buf cs ending ≡ err Exception.protocol_error
unfolding next_chunk
read_from-end fuel n buf cs ending f e =
    read_from-step fuel n buf cs ending f
    ∙ read_none
        (λ r.
          (next_chunk r >>= λ p. read_from fuel n (buf ++ p.0) p.1 ending)
          ≡ err Exception.protocol_error)
        (min blob_chunk (n - length buf)) cs ending e refl refl

read_from_short :
    (fuel n : ℕ) (buf : Bytes) (cs : List Bytes) (ending : Ending)
    → n ≤ length buf + fuel
    → length (buf ++ joined cs) < n
    → read_from fuel n buf cs ending ≡ err Exception.protocol_error
read_from_short zero n buf cs ending hf hn = absurd (omega (arith, length-append buf (joined cs)))
read_from_short (suc fuel) n buf cs ending hf hn =
    split (Bool-cases (0 == length (joined cs))) (read_from_short fuel n)
  where
    Goal : Type 0
    Goal = read_from (suc fuel) n buf cs ending ≡ err Exception.protocol_error

    Rest : Type 0
    Rest =
        (buf' : Bytes) (cs' : List Bytes) (end' : Ending)
        → n ≤ length buf' + fuel
        → length (buf' ++ joined cs') < n
        → read_from fuel n buf' cs' end' ≡ err Exception.protocol_error

    unread : leb n (length buf) ≡ false
    unread = ground (arith, length-append buf (joined cs))

    grow : Onward fuel n buf cs ending → Rest → Goal
    grow (b, bs, rest, e, same, longer, w) ih =
        e ∙ ih (buf ++ (b ∷ bs)) rest ending (omega arith) (rw same hn)

    split : ((0 == length (joined cs)) ≡ true) ⊎ ((0 == length (joined cs)) ≡ false) → Rest → Goal
    split (inl t) ih = read_from-end fuel n buf cs ending unread (ground arith)
    split (inr f) ih =
        grow
          (onward fuel n buf cs ending unread
            (read_some _ cs ending (omega (arith, length-append buf (joined cs))) (ground arith)))
          ih

-- A blob of `n` bytes is read to its last byte, and no byte further, whatever the chunks it arrives
-- in; a stream that stalls or ends before that raises `ProtocolError`. Neither waits for ever.
pub read_blob_total :
    (n : ℕ) (r : StreamReader)
    → (n ≤ length (received r)
        → (rest : List Bytes) × (read_blob r (pos n)
            ≡ ok (take n (received r), record r { arriving = rest }))
          × (joined rest ≡ drop n (received r)))
      × (length (received r) < n → read_blob r (pos n) ≡ err Exception.protocol_error)
unfolding read_blob
read_blob_total n r = (
  λ h. whole (read_from_enough n n [] r.arriving r.ending (omega arith) (omega arith) h),
  λ h. rw (read_from_short n n [] r.arriving r.ending (omega arith) h) refl,
)
  where
    whole :
        Transferred n (read_from n n [] r.arriving r.ending) (received r)
        → (rest : List Bytes) × (read_blob r (pos n)
            ≡ ok (take n (received r), record r { arriving = rest }))
          × (joined rest ≡ drop n (received r))
    whole (rest, e, eq) = (rest, rw e refl, eq)
