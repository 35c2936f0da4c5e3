-- ===== src/Serial/StateRoundTrip.antt =====
-- A STATE payload read back (vertex/serial/proto.py).
use vertex_testbed.Common.Int.{to_word, fits_int32, fits_int8, ℤ}
use mathlib.Core.List.{append-nil, append_assoc}
use vertex_testbed.Common.{
  ◌-◌, leb, ◌>>=◌, ◌+◌, ◌∙◌, sym, ◌||◌, ◌==◌, ap, true, false, ◌≤◌, refl, ◌*◌, length-append, true,
  lt→ltb, ◌++◌, ◌≡◌, arith, length, ◌^◌, ◌<◌, Bool, List, [], ◌∷◌, ℕ, Option, none, some, ok,
}
use vertex_testbed.Common.Bytes.{
  unpack_i32, unpack_i8-append, unpack_u-append, unpack_i32-append, Bytes, pack_u, pack_i32,
  pack_i8, le_bytes,
}
use vertex_testbed.Serial.StateReport.{
  max_neighbors, state_flag_enabled, state_flag_fresh, StateReport, pack_neighbours, pack_tail,
  unpack_neighbours, unpack_tail, encode_state, decode_state, neighbour_flags, has_state_flag,
  pack_neighbour,
}

-- The five lists of a report describe the same neighbours, with values that their fields hold.
pub data Aligned : List ℤ → List Bool → List Bool → List ℕ → List ℤ → Type 0 where
  no_neighbour : Aligned [] [] [] [] []
  neighbour_then :
      {v : ℤ} {e f : Bool} {s : ℕ} {r : ℤ} {vs : List ℤ} {es fs : List Bool} {ss : List ℕ}
      {rs : List ℤ}
      → fits_int32 v ≡ true
      → s < 2 ^ 16
      → fits_int8 r ≡ true
      → Aligned vs es fs ss rs
      → Aligned (v ∷ vs) (e ∷ es) (f ∷ fs) (s ∷ ss) (r ∷ rs)

-- The tails that a report has: none, the second coordinate, or that and the two estimates.
pub data HasTail : Option ℤ → Option ℤ → Option ℤ → Option ℤ → Type 0 where
  scalar : HasTail none none none none
  microgrid :
      {a b : ℤ} → fits_int32 a ≡ true → fits_int32 b ≡ true → HasTail (some a) (some b) none none
  lc :
      {a b c d : ℤ}
      → fits_int32 a ≡ true
      → fits_int32 b ≡ true
      → fits_int32 c ≡ true
      → fits_int32 d ≡ true
      → HasTail (some a) (some b) (some c) (some d)

pub record IsSound (r : StateReport) : Type 0 where
  pub time : r.t_us < 2 ^ 64
  pub state_fits : fits_int32 r.state ≡ true
  pub vstate_fits : fits_int32 r.vstate ≡ true
  pub vartheta_fits : fits_int32 r.vartheta ≡ true
  pub counter_fits : fits_int32 r.counter ≡ true
  pub few : length r.neighbor_vstates ≤ max_neighbors
  pub rows :
      Aligned r.neighbor_vstates r.neighbor_enabled r.neighbor_fresh r.neighbor_seq r.neighbor_rssi
  pub tail : HasTail r.state_Q r.vstate_Q r.S1_hat r.S2_hat

abbrev i32 : ℤ → Bytes
i32 v = le_bytes 4 (to_word (2 ^ 32) v)

pack_i32-fits : (v : ℤ) → fits_int32 v ≡ true → pack_i32 v ≡ ok (i32 v)
unfolding pack_i32
pack_i32-fits v h = rw h refl

pack_u-fits : (k n : ℕ) → n < 256 ^ k → pack_u k n ≡ ok (le_bytes k n)
unfolding pack_u
pack_u-fits k n h = rw (lt→ltb n (256 ^ k) h) refl

pack_i8-fits : (v : ℤ) → fits_int8 v ≡ true → pack_i8 v ≡ ok (le_bytes 1 (to_word 256 v))
unfolding pack_i8
pack_i8-fits v h = rw h refl

neighbour_flags-lt : (e f : Bool) → neighbour_flags e f < 256
unfolding neighbour_flags
neighbour_flags-lt true true = omega arith
neighbour_flags-lt true false = omega arith
neighbour_flags-lt false true = omega arith
neighbour_flags-lt false false = omega arith

flag_enabled_back : (e f : Bool) → has_state_flag (neighbour_flags e f) state_flag_enabled ≡ e
unfolding neighbour_flags has_state_flag
flag_enabled_back true true = refl
flag_enabled_back true false = refl
flag_enabled_back false true = refl
flag_enabled_back false false = refl

flag_fresh_back : (e f : Bool) → has_state_flag (neighbour_flags e f) state_flag_fresh ≡ f
unfolding neighbour_flags has_state_flag
flag_fresh_back true true = refl
flag_fresh_back true false = refl
flag_fresh_back false true = refl
flag_fresh_back false false = refl

row : ℤ → Bool → Bool → ℕ → ℤ → Bytes
row v e f s r =
    i32 v ++ (le_bytes 2 s ++ (le_bytes 1 (to_word 256 r) ++ le_bytes 1 (neighbour_flags e f)))

pack_neighbour-row :
    (v : ℤ) (e f : Bool) (s : ℕ) (r : ℤ)
    → fits_int32 v ≡ true
    → s < 2 ^ 16
    → fits_int8 r ≡ true
    → pack_neighbour v s r (neighbour_flags e f) ≡ ok (row v e f s r)
unfolding pack_neighbour row
pack_neighbour-row v e f s r hv hs hr =
    rw
      (
        pack_i32-fits v hv,
        pack_u-fits 2 s hs,
        pack_i8-fits r hr,
        pack_u-fits 1 (neighbour_flags e f) (neighbour_flags-lt e f),
      )
      refl

-- A packed list of neighbours: its bytes, their number, and that it reads back.
abbrev PacksRows : List ℤ → List Bool → List Bool → List ℕ → List ℤ → Type 0
PacksRows vs es fs ss rs =
    (bs : Bytes) × (pack_neighbours vs es fs ss rs ≡ ok bs)
    × (length bs ≡ length vs * 8)
    × ((rest : Bytes)
        → unpack_neighbours (length vs) (bs ++ rest)
          ≡ ok (record {
            vstates = vs;
            enabled = es;
            fresh = fs;
            seqs = ss;
            rssis = rs;
            behind = rest;
          }))

length-row : (v : ℤ) (e f : Bool) (s : ℕ) (r : ℤ) → length (row v e f s r) ≡ 8
unfolding row le_bytes
length-row v e f s r = refl

row-append :
    (v : ℤ) (e f : Bool) (s : ℕ) (r : ℤ) (xs : Bytes)
    → row v e f s r ++ xs
      ≡ i32 v
        ++ (le_bytes 2 s
            ++ (le_bytes 1 (to_word 256 r) ++ (le_bytes 1 (neighbour_flags e f) ++ xs)))
unfolding row le_bytes
row-append v e f s r xs = refl

packs_rows :
    {vs : List ℤ} {es fs : List Bool} {ss : List ℕ} {rs : List ℤ}
    → Aligned vs es fs ss rs
    → PacksRows vs es fs ss rs
unfolding pack_neighbours unpack_neighbours
packs_rows no_neighbour = ([], refl, omega arith, λ rest. refl)
packs_rows (neighbour_then {v} {e} {f} {s} {r} {vs} {es} {fs} {ss} {rs} hv hs hr more) =
    let (bs, packed, size, back) = packs_rows more in
    (
      row v e f s r ++ bs,
      rw (pack_neighbour-row v e f s r hv hs hr, packed) refl,
      omega (arith, length-append (row v e f s r) bs, length-row v e f s r, size),
      λ rest.
          rw
            (
              append_assoc (row v e f s r) bs rest,
              row-append v e f s r (bs ++ rest),
              unpack_i32-append v
                  (le_bytes 2 s
                    ++ (le_bytes 1 (to_word 256 r)
                        ++ (le_bytes 1 (neighbour_flags e f) ++ (bs ++ rest))))
                  hv,
              unpack_u-append 2 s
                  (le_bytes 1 (to_word 256 r) ++ (le_bytes 1 (neighbour_flags e f) ++ (bs ++ rest)))
                  hs,
              unpack_i8-append r (le_bytes 1 (neighbour_flags e f) ++ (bs ++ rest)) hr,
              unpack_u-append 1 (neighbour_flags e f) (bs ++ rest) (neighbour_flags-lt e f),
              back rest,
              flag_enabled_back e f,
              flag_fresh_back e f,
            )
            refl,
    )

-- A packed tail: its bytes, their number, and that it reads back at that number.
abbrev PacksTail : Option ℤ → Option ℤ → Option ℤ → Option ℤ → Type 0
PacksTail sQ vQ s1 s2 =
    (bs : Bytes) × (pack_tail sQ vQ s1 s2 ≡ ok bs)
    × (((length bs == 0) || (length bs == 8) || (length bs == 16)) ≡ true)
    × (unpack_tail (length bs) bs ≡ ok (sQ, vQ, s1, s2))

tail_two :
    (a b : ℤ)
    → fits_int32 a ≡ true
    → fits_int32 b ≡ true
    → unpack_tail 8 (i32 a ++ i32 b) ≡ ok (some a, some b, none, none)
unfolding unpack_tail
tail_two a b ha hb =
    rw
      (
        unpack_i32-append a (i32 b) ha,
        ap (λ l. unpack_i32 l) (sym (append-nil (i32 b))) ∙ unpack_i32-append b [] hb,
      )
      refl

tail_four :
    (a b c d : ℤ)
    → fits_int32 a ≡ true
    → fits_int32 b ≡ true
    → fits_int32 c ≡ true
    → fits_int32 d ≡ true
    → unpack_tail 16 (i32 a ++ (i32 b ++ (i32 c ++ i32 d))) ≡ ok (some a, some b, some c, some d)
unfolding unpack_tail
tail_four a b c d ha hb hc hd =
    rw
      (
        unpack_i32-append a (i32 b ++ (i32 c ++ i32 d)) ha,
        unpack_i32-append b (i32 c ++ i32 d) hb,
        unpack_i32-append c (i32 d) hc,
        ap (λ l. unpack_i32 l) (sym (append-nil (i32 d))) ∙ unpack_i32-append d [] hd,
      )
      refl

tail_none : unpack_tail 0 [] ≡ ok (none, none, none, none)
unfolding unpack_tail
tail_none = refl

packs_tail : {sQ vQ s1 s2 : Option ℤ} → HasTail sQ vQ s1 s2 → PacksTail sQ vQ s1 s2
unfolding pack_tail le_bytes
packs_tail scalar = ([], refl, refl, tail_none)
packs_tail (microgrid {a} {b} ha hb) =
    (i32 a ++ i32 b, rw (pack_i32-fits a ha, pack_i32-fits b hb) refl, refl, tail_two a b ha hb)
packs_tail (lc {a} {b} {c} {d} ha hb hc hd) = (
  i32 a ++ (i32 b ++ (i32 c ++ i32 d)),
  rw (pack_i32-fits a ha, pack_i32-fits b hb, pack_i32-fits c hc, pack_i32-fits d hd) refl,
  refl,
  tail_four a b c d ha hb hc hd,
)

abbrev head : StateReport → Bytes → Bytes
head r behind =
    le_bytes 8 r.t_us
    ++ (i32 r.state
        ++ (i32 r.vstate
            ++ (i32 r.vartheta
                ++ (i32 r.counter ++ (le_bytes 1 (length r.neighbor_vstates) ++ behind)))))

length-head : (r : StateReport) (behind : Bytes) → length (head r behind) ≡ 25 + length behind
unfolding le_bytes
length-head r behind = omega arith

encode_state-head :
    (r : StateReport) (rows tail : Bytes)
    → IsSound r
    → pack_neighbours r.neighbor_vstates r.neighbor_enabled r.neighbor_fresh r.neighbor_seq
        r.neighbor_rssi
      ≡ ok rows
    → pack_tail r.state_Q r.vstate_Q r.S1_hat r.S2_hat ≡ ok tail
    → encode_state r ≡ ok (head r (rows ++ tail))
unfolding encode_state
encode_state-head r rows tail s packed ended =
    rw
      (
        pack_u-fits 8 r.t_us s.time,
        pack_i32-fits r.state s.state_fits,
        pack_i32-fits r.vstate s.vstate_fits,
        pack_i32-fits r.vartheta s.vartheta_fits,
        pack_i32-fits r.counter s.counter_fits,
        pack_u-fits 1 (length r.neighbor_vstates) (omega (arith, s.few)),
        packed,
        ended,
      )
      refl

sizes_match :
    (total want tail : ℕ)
    → total ≡ want + tail
    → ((tail == 0) || (tail == 8) || (tail == 16)) ≡ true
    → ((total == want) || (total == want + 8) || (total == want + 16)) ≡ true
sizes_match total want tail e h = ground arith

-- A STATE payload that is built from a report whose fields hold their values and whose lists are of
-- one length, at most 16, decodes to that report, with its tail or without.
pub decode_state-encode_state :
    (r : StateReport) → IsSound r → (encode_state r >>= decode_state) ≡ ok r
unfolding decode_state
decode_state-encode_state r s =
    let (rows, packed, size, back) = packs_rows s.rows in
    let (tail, ended, fits, tail_back) = packs_tail s.tail in
    let n = length r.neighbor_vstates in
    let total : length (head r (rows ++ tail)) ≡ 25 + n * 8 + length tail =
      omega (arith, length-head r (rows ++ tail), length-append rows tail, size) in
    let after_counter = le_bytes 1 n ++ (rows ++ tail) in
    let after_vartheta = i32 r.counter ++ after_counter in
    let after_vstate = i32 r.vartheta ++ after_vartheta in
    let after_state = i32 r.vstate ++ after_vstate in
    let lt_leb : leb 25 (25 + n * 8 + length tail) ≡ true = ground arith in
    let few : leb n 16 ≡ true = ground (arith, s.few) in
    let minus : 25 + n * 8 + length tail - (25 + n * 8) ≡ length tail = omega arith in
    rw
      (
        encode_state-head r rows tail s packed ended,
        total,
        lt_leb,
        unpack_u-append 8 r.t_us (i32 r.state ++ after_state) s.time,
        unpack_i32-append r.state after_state s.state_fits,
        unpack_i32-append r.vstate after_vstate s.vstate_fits,
        unpack_i32-append r.vartheta after_vartheta s.vartheta_fits,
        unpack_i32-append r.counter after_counter s.counter_fits,
        unpack_u-append 1 n (rows ++ tail) (omega (arith, s.few)),
        sizes_match (25 + n * 8 + length tail) (25 + n * 8) (length tail) refl fits,
        few,
        back tail,
        minus,
        tail_back,
      )
      refl
