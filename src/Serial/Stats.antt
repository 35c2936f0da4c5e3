-- ===== src/Serial/Stats.antt =====
-- The STATS payload of vertex/serial/proto.py. A counter's name is its place in the lists of names of
-- the source; the values stand in that order.
use vertex_testbed.Common.Int.{fits_int8, to_word, ℤ}
use vertex_testbed.Common.Bytes.{
  from_le, unpack_i8-append, unpack_i8, unpack_u-append, length-le_bytes, unpack_u, Bytes, le_bytes,
}
use mathlib.Core.List.{append_assoc, append-nil}
use native.Mathlib.Nat.{suc-mul}
use vertex_testbed.Common.{
  ◌∙◌, ap, subst, sym, refl, require, ◌>>◌, Exception, length-append, ◌==◌, ◌^◌, ◌<◌, ◌>>=◌,
  if◌then◌else◌, arith, Result, All, ◌≡◌, ◌*◌, ◌++◌, length, ◌+◌, List, [], ◌∷◌, ℕ, zero, suc,
  Option, none, some, ok, err, true,
}

-- `len(STATS_FIELDS)`, `len(STATS_V1_COUNTERS)`, `len(STATS_V1_RADIO)`
abbrev stats_fields : ℕ
stats_fields = 12

abbrev stats_v1_counters : ℕ
stats_v1_counters = 19

abbrev stats_v1_radio : ℕ
stats_v1_radio = 4

abbrev stats_v1 : ℕ
stats_v1 = 1

abbrev stats_v1_len : ℕ
stats_v1_len = 1 + 4 * stats_v1_counters + 2 * stats_v1_radio + 2

-- The counters; under the coordination firmware also the radio's parameters, the granted transmit
-- power and whether the scan is active.
pub record PeerStats : Type 0 where
  pub counters : List ℕ
  pub radio : List ℕ
  pub granted_tx_power : Option ℤ
  pub scan_active : Option ℕ

-- `n` unsigned fields of `k` bytes, and what is behind them.
unfoldable pub unpack_us : ℕ → ℕ → Bytes → Result (List ℕ × Bytes)
unpack_us k zero bs = ok ([], bs)
unpack_us k (suc n) bs = do
  (v, bs1) ← unpack_u k bs
  (vs, bs2) ← unpack_us k n bs1
  ok (v ∷ vs, bs2)

-- The layout of the coordination firmware.
unfoldable pub decode_v1_stats : Bytes → Result PeerStats
decode_v1_stats payload = do
  (layout, bs1) ← unpack_u 1 payload
  require (layout == stats_v1) Exception.proto_error
  (counters, bs2) ← unpack_us 4 stats_v1_counters bs1
  (radio, bs3) ← unpack_us 2 stats_v1_radio bs2
  (power, bs4) ← unpack_i8 bs3
  (active, bs5) ← unpack_u 1 bs4
  ok (record {
    counters = counters;
    radio = radio;
    granted_tx_power = some power;
    scan_active = some active;
  })

unfoldable pub decode_stats : Bytes → Result PeerStats
decode_stats payload =
    if length payload == 4 * stats_fields
    then (do
      (counters, rest) ← unpack_us 4 stats_fields payload
      ok (record { counters = counters; radio = []; granted_tx_power = none; scan_active = none }))
    else if length payload == stats_v1_len
    then decode_v1_stats payload
    else err Exception.proto_error

-- Fields of `k` bytes, one after the other.
abbrev fields_of : ℕ → List ℕ → Bytes
fields_of k [] = []
fields_of k (v ∷ vs) = le_bytes k v ++ fields_of k vs

length-fields_of : (k : ℕ) (vs : List ℕ) → length (fields_of k vs) ≡ length vs * k
length-fields_of k [] = omega arith
length-fields_of k (v ∷ vs) = omega (
  arith,
  length-append (le_bytes k v) (fields_of k vs),
  length-le_bytes k v,
  length-fields_of k vs,
  suc-mul (length vs) k,
)

unpack_us-fields_of :
    (k : ℕ) (vs : List ℕ) (rest : Bytes)
    → All (λ v. v < 256 ^ k) vs
    → unpack_us k (length vs) (fields_of k vs ++ rest) ≡ ok (vs, rest)
unfolding unpack_us
unpack_us-fields_of k [] rest h = refl
unpack_us-fields_of k (v ∷ vs) rest (small, h) =
    rw
      (
        append_assoc (le_bytes k v) (fields_of k vs) rest,
        unpack_u-append k v (fields_of k vs ++ rest) small,
        unpack_us-fields_of k vs rest h,
      )
      refl

-- The payload of the coordination firmware.
abbrev v1_payload : List ℕ → List ℕ → ℤ → ℕ → Bytes
v1_payload counters radio power active =
    stats_v1
    ∷ (fields_of 4 counters
        ++ (fields_of 2 radio ++ (le_bytes 1 (to_word 256 power) ++ le_bytes 1 active)))

unpack_us-exact :
    (k n : ℕ) (vs : List ℕ) (rest : Bytes)
    → length vs ≡ n
    → All (λ v. v < 256 ^ k) vs
    → unpack_us k n (fields_of k vs ++ rest) ≡ ok (vs, rest)
unpack_us-exact k n vs rest e h =
    subst (λ m. unpack_us k m (fields_of k vs ++ rest) ≡ ok (vs, rest)) e
      (unpack_us-fields_of k vs rest h)

decode_stats-old :
    (old : List ℕ)
    → length old ≡ stats_fields
    → All (λ v. v < 2 ^ 32) old
    → decode_stats (fields_of 4 old)
      ≡ ok (record { counters = old; radio = []; granted_tx_power = none; scan_active = none })
unfolding decode_stats
decode_stats-old old n h =
    let size : (length (fields_of 4 old) == 48) ≡ true =
      ground (arith, length-fields_of 4 old, n) in
    rw (size, sym (append-nil (fields_of 4 old)), unpack_us-exact 4 12 old [] n h) refl

first_byte : (b : ℕ) (bs : Bytes) → b < 256 → unpack_u 1 (b ∷ bs) ≡ ok (b, bs)
unfolding unpack_u from_le
first_byte b bs h = ground arith

decode_stats-v1 :
    (counters radio : List ℕ) (power : ℤ) (active : ℕ)
    → length counters ≡ stats_v1_counters
    → All (λ v. v < 2 ^ 32) counters
    → length radio ≡ stats_v1_radio
    → All (λ v. v < 2 ^ 16) radio
    → fits_int8 power ≡ true
    → active < 256
    → decode_stats (v1_payload counters radio power active)
      ≡ ok (record {
        counters = counters;
        radio = radio;
        granted_tx_power = some power;
        scan_active = some active;
      })
unfolding decode_stats decode_v1_stats
decode_stats-v1 counters radio power active n1 h1 n2 h2 hp ha =
    let last = le_bytes 1 (to_word 256 power) ++ le_bytes 1 active in
    let middle = fields_of 2 radio ++ last in
    let last_len : length last ≡ 2 = omega (
      arith,
      length-append (le_bytes 1 (to_word 256 power)) (le_bytes 1 active),
      length-le_bytes 1 (to_word 256 power),
      length-le_bytes 1 active,
    ) in
    let size : length (fields_of 4 counters ++ middle) ≡ 86 = omega (
      arith,
      length-append (fields_of 4 counters) middle,
      length-append (fields_of 2 radio) last,
      length-fields_of 4 counters,
      length-fields_of 2 radio,
      n1,
      n2,
      last_len,
    ) in
    let start : unpack_u 1 (stats_v1 ∷ (fields_of 4 counters ++ middle))
        ≡ ok (1, fields_of 4 counters ++ middle) =
      first_byte 1 (fields_of 4 counters ++ middle) (omega arith) in
    rw
      (
        size,
        start,
        unpack_us-exact 4 19 counters middle n1 h1,
        unpack_us-exact 2 4 radio last n2 h2,
        unpack_i8-append power (le_bytes 1 active) hp,
        ap (λ l. unpack_u 1 l) (sym (append-nil (le_bytes 1 active)))
            ∙ unpack_u-append 1 active [] ha,
      )
      refl

-- The two layouts are told apart and read: twelve 32-bit counters give the peer's statistics, and
-- nineteen with four 16-bit radio parameters, the power and the scan flag behind the layout's byte
-- give the coordination firmware's; each value comes back in its place.
decode_stats-fields_of :
    (old counters radio : List ℕ) (power : ℤ) (active : ℕ)
    → length old ≡ stats_fields
    → All (λ v. v < 2 ^ 32) old
    → length counters ≡ stats_v1_counters
    → All (λ v. v < 2 ^ 32) counters
    → length radio ≡ stats_v1_radio
    → All (λ v. v < 2 ^ 16) radio
    → fits_int8 power ≡ true
    → active < 256
    → (decode_stats (fields_of 4 old)
        ≡ ok (record { counters = old; radio = []; granted_tx_power = none; scan_active = none }))
      × (decode_stats (v1_payload counters radio power active)
          ≡ ok (record {
            counters = counters;
            radio = radio;
            granted_tx_power = some power;
            scan_active = some active;
          }))
decode_stats-fields_of old counters radio power active n0 h0 n1 h1 n2 h2 hp ha =
    (decode_stats-old old n0 h0, decode_stats-v1 counters radio power active n1 h1 n2 h2 hp ha)
