-- ===== src/Serial/Link/Chunks.antt =====
-- The writes of `send` in vertex/serial/link.py: a frame in pieces that a USB packet holds.
use mathlib.Core.List.{append-nil}
use vertex_testbed.Common.{
  false, ◌==◌, ltb, Bool-cases, inr, inl, ◌∙◌, length-drop, length-take, refl, arith, ap, ◌≤◌, ◌⊎◌,
  drop, length, ◌++◌, ◌≡◌, take, ◌<◌, All, List, [], ◌∷◌, ℕ, zero, suc,
}
use vertex_testbed.Serial.Link.{Bytes, slices, writes}

abbrev pub join : List Bytes → Bytes
join [] = []
join (s ∷ rest) = s ++ join rest

take-drop : (w : ℕ) (bs : Bytes) → take w bs ++ drop w bs ≡ bs
take-drop zero bs = refl
take-drop (suc w) [] = refl
take-drop (suc w) (b ∷ bs) = ap (λ l. b ∷ l) (take-drop w bs)

join-slices : (fuel w : ℕ) (bs : Bytes) → 0 < w → length bs ≤ fuel → join (slices fuel w bs) ≡ bs
unfolding slices
join-slices zero w [] pos h = refl
join-slices zero w (b ∷ bs) pos h = absurd (omega arith)
join-slices (suc fuel) w [] pos h = refl
join-slices (suc fuel) w (b ∷ bs) pos h =
    ap (λ l. take w (b ∷ bs) ++ l)
      (join-slices fuel w (drop w (b ∷ bs)) pos (omega (arith, length-drop w (b ∷ bs))))
    ∙ take-drop w (b ∷ bs)

length-slices : (fuel w : ℕ) (bs : Bytes) → All (λ s. length s ≤ w) (slices fuel w bs)
unfolding slices
length-slices zero w bs = tt
length-slices (suc fuel) w [] = tt
length-slices (suc fuel) w (b ∷ bs) =
    (omega (arith, length-take w (b ∷ bs)), length-slices fuel w (drop w (b ∷ bs)))

All-short :
    (w : ℕ) (ss : List Bytes) → All (λ s. length s ≤ w) ss → All (λ s. (w ≡ 0) ⊎ (length s ≤ w)) ss
All-short w [] h = tt
All-short w (s ∷ ss) (h, rest) = (inr h, All-short w ss rest)

ltb_zero : (w : ℕ) → (suc w == 0) ≡ false
ltb_zero w = ground arith

-- The writes of a frame joined are the frame, and with a bound on the bytes of a write that is not
-- zero none is longer than the bound.
pub join-writes :
    (w : ℕ) (frame : Bytes)
    → (join (writes w frame) ≡ frame) × All (λ s. (w ≡ 0) ⊎ (length s ≤ w)) (writes w frame)
unfolding writes
join-writes zero frame = (append-nil frame, (inl refl, tt))
join-writes (suc w) frame = elim (Bool-cases (ltb (suc w) (length frame))) [
  | inl e ↦
      rw (ltb_zero w, e)
        (
          join-slices (length frame) (suc w) frame (omega arith) (omega arith),
          All-short (suc w) _ (length-slices (length frame) (suc w) frame),
        )
  | inr e ↦ rw (ltb_zero w, e) (append-nil frame, (inr (ground arith), tt))
]
