-- ===== src/Serial/StateReport.antt =====
-- `StateReport`, `encode_state` and `decode_state` of vertex/serial/proto.py: one control step as the
-- microcontroller computed it.
use vertex_testbed.Common.Dict.{or_default}
use vertex_testbed.Common.Int.{pos, ℤ}
use vertex_testbed.Common.Bytes.{unpack_i8, pack_i8, unpack_u, pack_u, pack_i32, unpack_i32, Bytes}
use vertex_testbed.Common.{
  ◌-◌, ◌||◌, ◌*◌, ◌+◌, leb, ◌++◌, length, require, bit_and, ◌==◌, Exception, ◌>>=◌, not,
  if◌then◌else◌, bit_or, ◌>>◌, Result, Bool, List, [], ◌∷◌, ℕ, zero, suc, Option, none, some, ok,
  err,
}

pub record StateReport : Type 0 where
  pub t_us : ℕ
  pub state : ℤ
  pub vstate : ℤ
  pub vartheta : ℤ
  pub counter : ℤ
  pub neighbor_vstates : List ℤ
  pub neighbor_enabled : List Bool
  pub neighbor_fresh : List Bool
  pub neighbor_seq : List ℕ
  pub neighbor_rssi : List ℤ
  pub state_Q : Option ℤ
  pub vstate_Q : Option ℤ
  pub S1_hat : Option ℤ
  pub S2_hat : Option ℤ

abbrev pub max_neighbors : ℕ
max_neighbors = 16

-- `STATE_HEADER.size` and its kin.
abbrev state_header_size : ℕ
state_header_size = 25

abbrev state_neighbour_size : ℕ
state_neighbour_size = 8

abbrev state_tail_size : ℕ
state_tail_size = 8

abbrev state_tail_lc_size : ℕ
state_tail_lc_size = 16

abbrev pub state_flag_enabled : ℕ
state_flag_enabled = 0x01

abbrev pub state_flag_fresh : ℕ
state_flag_fresh = 0x02

-- `x[i]`, and `x[i] if i < len(x) else 0`, of the elements from `i` on.
abbrev item : List Bool → Result Bool
item [] = err Exception.index_error
item (b ∷ bs) = ok b

abbrev rest_of {ℓ} : {A : Type ℓ} → List A → List A
rest_of [] = []
rest_of (x ∷ xs) = xs

abbrev item_or {ℓ} : {A : Type ℓ} → A → List A → A
item_or d [] = d
item_or d (x ∷ xs) = x

unfoldable pub neighbour_flags : Bool → Bool → ℕ
neighbour_flags enabled fresh =
    bit_or (if enabled then state_flag_enabled else 0) (if fresh then state_flag_fresh else 0)

-- `STATE_NEIGHBOUR.pack`
unfoldable pub pack_neighbour : ℤ → ℕ → ℤ → ℕ → Result Bytes
pack_neighbour v seq rssi flags = do
  a ← pack_i32 v
  b ← pack_u 2 seq
  c ← pack_i8 rssi
  d ← pack_u 1 flags
  ok (a ++ (b ++ (c ++ d)))

-- The loop of `encode_state`, from the neighbour on that the lists begin with.
unfoldable pub pack_neighbours : List ℤ → List Bool → List Bool → List ℕ → List ℤ → Result Bytes
unfolding pack_neighbour neighbour_flags
pack_neighbours [] enabled fresh seq rssi = ok []
pack_neighbours (v ∷ vs) enabled fresh seq rssi = do
  e ← item enabled
  f ← item fresh
  one ← pack_neighbour v (item_or 0 seq) (item_or (pos 0) rssi) (neighbour_flags e f)
  more ← pack_neighbours vs (rest_of enabled) (rest_of fresh) (rest_of seq) (rest_of rssi)
  ok (one ++ more)

-- The tail. `x or 0` is the value, or 0 when there is none.
unfoldable pub pack_tail : Option ℤ → Option ℤ → Option ℤ → Option ℤ → Result Bytes
pack_tail none none none none = ok []
pack_tail sQ vQ none none = do
  a ← pack_i32 (or_default sQ (pos 0))
  b ← pack_i32 (or_default vQ (pos 0))
  ok (a ++ b)
pack_tail sQ vQ s1 s2 = do
  a ← pack_i32 (or_default sQ (pos 0))
  b ← pack_i32 (or_default vQ (pos 0))
  c ← pack_i32 (or_default s1 (pos 0))
  d ← pack_i32 (or_default s2 (pos 0))
  ok (a ++ (b ++ (c ++ d)))

unfoldable pub encode_state : StateReport → Result Bytes
unfolding pack_neighbours pack_tail
encode_state r = do
  t ← pack_u 8 r.t_us
  a ← pack_i32 r.state
  b ← pack_i32 r.vstate
  c ← pack_i32 r.vartheta
  d ← pack_i32 r.counter
  n ← pack_u 1 (length r.neighbor_vstates)
  rows ←
      pack_neighbours r.neighbor_vstates r.neighbor_enabled r.neighbor_fresh r.neighbor_seq
        r.neighbor_rssi
  tail ← pack_tail r.state_Q r.vstate_Q r.S1_hat r.S2_hat
  ok (t ++ (a ++ (b ++ (c ++ (d ++ (n ++ (rows ++ tail)))))))

-- What the loop of `decode_state` appends to its five lists, and the bytes behind the records.
pub record Rows : Type 0 where
  pub vstates : List ℤ
  pub enabled : List Bool
  pub fresh : List Bool
  pub seqs : List ℕ
  pub rssis : List ℤ
  pub behind : Bytes

unfoldable pub has_state_flag : ℕ → ℕ → Bool
has_state_flag flags mask = not (bit_and flags mask == 0)

unfoldable pub unpack_neighbours : ℕ → Bytes → Result Rows
unfolding has_state_flag
unpack_neighbours zero bs =
    ok (record { vstates = []; enabled = []; fresh = []; seqs = []; rssis = []; behind = bs })
unpack_neighbours (suc n) bs = do
  (v, bs1) ← unpack_i32 bs
  (seq, bs2) ← unpack_u 2 bs1
  (rssi, bs3) ← unpack_i8 bs2
  (flags, bs4) ← unpack_u 1 bs3
  rows ← unpack_neighbours n bs4
  ok (record {
    vstates = v ∷ rows.vstates;
    enabled = has_state_flag flags state_flag_enabled ∷ rows.enabled;
    fresh = has_state_flag flags state_flag_fresh ∷ rows.fresh;
    seqs = seq ∷ rows.seqs;
    rssis = rssi ∷ rows.rssis;
    behind = rows.behind;
  })

abbrev Tail : Type 0
Tail = Option ℤ × Option ℤ × Option ℤ × Option ℤ

-- The tail of `tail` bytes.
unfoldable pub unpack_tail : ℕ → Bytes → Result Tail
unpack_tail tail bs =
    if tail == state_tail_size
    then (do (a, bs1) ← unpack_i32 bs; (b, bs2) ← unpack_i32 bs1; ok (some a, some b, none, none))
    else if tail == state_tail_lc_size
    then (do
      (a, bs1) ← unpack_i32 bs
      (b, bs2) ← unpack_i32 bs1
      (c, bs3) ← unpack_i32 bs2
      (d, bs4) ← unpack_i32 bs3
      ok (some a, some b, some c, some d))
    else ok (none, none, none, none)

unfoldable pub decode_state : Bytes → Result StateReport
unfolding unpack_neighbours unpack_tail
decode_state payload = do
  require (leb state_header_size (length payload)) Exception.proto_error
  (t_us, bs1) ← unpack_u 8 payload
  (state, bs2) ← unpack_i32 bs1
  (vstate, bs3) ← unpack_i32 bs2
  (vartheta, bs4) ← unpack_i32 bs3
  (counter, bs5) ← unpack_i32 bs4
  (n, bs6) ← unpack_u 1 bs5
  let want = state_header_size + n * state_neighbour_size
  require
      (length payload == want
        || length payload == want + state_tail_size
        || length payload == want + state_tail_lc_size)
      Exception.proto_error
  require (leb n max_neighbors) Exception.proto_error
  rows ← unpack_neighbours n bs6
  (state_Q, vstate_Q, S1_hat, S2_hat) ← unpack_tail (length payload - want) rows.behind
  ok (record {
    t_us = t_us;
    state = state;
    vstate = vstate;
    vartheta = vartheta;
    counter = counter;
    neighbor_vstates = rows.vstates;
    neighbor_enabled = rows.enabled;
    neighbor_fresh = rows.fresh;
    neighbor_seq = rows.seqs;
    neighbor_rssi = rows.rssis;
    state_Q = state_Q;
    vstate_Q = vstate_Q;
    S1_hat = S1_hat;
    S2_hat = S2_hat;
  })
