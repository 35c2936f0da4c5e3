-- ===== src/Control/Transport/Chunks.antt =====
-- `readuntil` of asyncio's streams finds a line whatever the chunks it arrives in.
use vertex_testbed.Control.Transport.{joined, take_line, split_line}
use vertex_testbed.Control.Protocol.{newline}
use vertex_testbed.Common.{
  length, length-append, subst, List, [], ◌∷◌, ℕ, none, some, false, ◌++◌, ◌≡◌, ◌⊎◌, inl, inr, refl,
  ap, All, get_or, drop, ◌==◌, arith,
}
use vertex_testbed.Common.Bytes.{Bytes}

abbrev pub NotNewline : ℕ → Type 0
NotNewline b = (b == newline) ≡ false

-- The line ends in the chunk, or the chunk is a piece of it.
abbrev Cut : Bytes → Bytes → Bytes → Bytes → Type 0
Cut c j line tail =
    ((rest : Bytes) × (take_line c ≡ some (line, rest)) × (rest ++ j ≡ tail))
    ⊎ ((line' : Bytes) × (take_line c ≡ none)
        × (line ≡ c ++ line')
        × (j ≡ line' ++ (newline ∷ tail)))

take_line-cons :
    (b : ℕ) (c j line tail : Bytes)
    → NotNewline b
    → Cut c j line tail
    → Cut (b ∷ c) j (b ∷ line) tail
unfolding take_line
take_line-cons b c j line tail h (inl (rest, e, eq)) = inl (rest, rw h (rw e refl), eq)
take_line-cons b c j line tail h (inr (line', e, p, q)) =
    inr (line', rw h (rw e refl), ap (λ l. b ∷ l) p, q)

take_line-Cut :
    (c j line tail : Bytes)
    → All NotNewline line
    → c ++ j ≡ line ++ (newline ∷ tail)
    → Cut c j line tail
unfolding take_line
take_line-Cut [] j line tail h e = inr (line, refl, refl, e)
take_line-Cut (b ∷ c) j [] tail h e =
    let first : b ≡ newline = ap (λ l. get_or l 0 0) e in inl (c, rw first refl, ap (drop 1) e)
take_line-Cut (b ∷ c) j (l ∷ line) tail h e =
    let first : b ≡ l = ap (λ k. get_or k 0 0) e in
    subst (λ x. Cut (b ∷ c) j (x ∷ line) tail) first
      (take_line-cons b c j line tail (rw first (h.0))
        (take_line-Cut c j line tail h.1 (ap (drop 1) e)))

All-append_right : (P : ℕ → Type 0) (xs ys : Bytes) → All P (xs ++ ys) → All P ys
All-append_right P [] ys h = h
All-append_right P (x ∷ xs) ys h = All-append_right P xs ys h.1

abbrev LineSplit : List Bytes → Bytes → Bytes → Type 0
LineSplit cs line tail =
    (rest : List Bytes) × (split_line cs ≡ some (line, rest)) × (joined rest ≡ tail)

split_line-cons :
    (c : Bytes) (cs : List Bytes) (line line' tail : Bytes)
    → take_line c ≡ none
    → line ≡ c ++ line'
    → LineSplit cs line' tail
    → LineSplit (c ∷ cs) line tail
unfolding split_line
split_line-cons c cs line line' tail e p (rest, q, eq) =
    (rest, rw (e, split_line) (rw q (rw p refl)), eq)

-- The first line of a stream is found whatever the chunks it arrives in.
pub split_line_joined :
    (cs : List Bytes) (line tail : Bytes)
    → All NotNewline line
    → joined cs ≡ line ++ (newline ∷ tail)
    → LineSplit cs line tail
unfolding split_line
split_line_joined [] line tail h e =
    absurd (omega (arith, length-append line (newline ∷ tail), ap length e))
split_line_joined (c ∷ cs) line tail h e =
    cases (take_line-Cut c (joined cs) line tail h e) (λ line' p q.
      split_line_joined cs line' tail
        (All-append_right NotNewline c line' (subst (All NotNewline) p h)) q)
  where
    cases :
        Cut c (joined cs) line tail
        → ((line' : Bytes)
            → line ≡ c ++ line'
            → joined cs ≡ line' ++ (newline ∷ tail)
            → LineSplit cs line' tail)
        → LineSplit (c ∷ cs) line tail
    cases (inl (rest, e, eq)) ih = (rest ∷ cs, rw (e, split_line) refl, eq)
    cases (inr (line', e, p, q)) ih = split_line-cons c cs line line' tail e p (ih line' p q)
