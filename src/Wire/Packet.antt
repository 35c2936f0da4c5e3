-- ===== src/Wire/Packet.antt =====
-- `StatePacket` of vertex/wire/codec.py with the constants of that module, and what
-- `__post_init__` lets through.
use vertex_testbed.Common.{
  refl, inr, inl, ℕ, ◌-◌, ◌^◌, ◌≤◌, ◌<◌, ◌≡◌, ◌⊎◌, Bool, true, ◌&&◌, ◌||◌, List, [], ◌∷◌, arith,
  leb, ◌==◌, length, Result, ok, Exception, require, ◌>>◌,
}
use vertex_testbed.Common.Int.{ℤ, fits_int32}

abbrev pub version : ℕ
version = 1

abbrev pub v2_version : ℕ
v2_version = 2

abbrev pub payload_size : ℕ
payload_size = 16

abbrev pub v2_payload_size : ℕ
v2_payload_size = 19

abbrev pub company_id : ℕ
company_id = 0x0059

abbrev pub v0_payload_size : ℕ
v0_payload_size = 6

abbrev pub v0_flag_enabled : ℕ
v0_flag_enabled = 0x7F

abbrev pub v0_flag_disabled : ℕ
v0_flag_disabled = 0x70

abbrev pub flag_enabled : ℕ
flag_enabled = 0b1

abbrev pub flag_disturbance : ℕ
flag_disturbance = 0b10

abbrev max_u16 : ℕ
max_u16 = 2 ^ 16 - 1

abbrev max_u48 : ℕ
max_u48 = 2 ^ 48 - 1

-- One agent's broadcast state; the class's fields. `vstate` holds scaled integers.
pub record StatePacket : Type 0 where
  pub node_id : ℕ
  pub vstate : List ℤ
  pub seq : ℕ
  pub tx_time_us : ℕ
  pub enabled : Bool
  pub disturbance_on : Bool

abbrev all_fit : List ℤ → Bool
all_fit [] = true
all_fit (v ∷ vs) = fits_int32 v && all_fit vs

-- The constructor: `__post_init__` on the fields. A bare integer `v` is passed as `v ∷ []`.
unfoldable pub state_packet : StatePacket → Result StatePacket
state_packet p = do
  require (leb 1 p.node_id && leb p.node_id 255) Exception.value_error
  require (length p.vstate == 1 || length p.vstate == 2) Exception.value_error
  require (all_fit p.vstate) Exception.value_error
  require (leb p.seq max_u16) Exception.value_error
  require (leb p.tx_time_us max_u48) Exception.value_error
  ok p

-- The packets that the constructor lets through.
pub record IsValid (p : StatePacket) : Type 0 where
  pub id_low : 1 ≤ p.node_id
  pub id_high : p.node_id ≤ 255
  pub coordinates : (length p.vstate ≡ 1) ⊎ (length p.vstate ≡ 2)
  pub fits : all_fit p.vstate ≡ true
  pub seq_fits : p.seq < 2 ^ 16
  pub time_fits : p.tx_time_us < 2 ^ 48

pub state_packet_accepts : (p : StatePacket) → IsValid p → state_packet p ≡ ok p
unfolding state_packet
state_packet_accepts p h = ground arith

pub state_packet-IsValid : (p q : StatePacket) → state_packet p ≡ ok q → (q ≡ p) × IsValid p
unfolding state_packet
state_packet-IsValid p q h = ground arith

-- The coordinates of a valid packet fit, for each of the two lengths.
pub fits_one : (p : StatePacket) (v : ℤ) → p.vstate ≡ v ∷ [] → IsValid p → fits_int32 v ≡ true
fits_one p v e h = ground (arith, rw e at h.fits)

pub fits_two :
    (p : StatePacket) (v w : ℤ)
    → p.vstate ≡ v ∷ w ∷ []
    → IsValid p
    → (fits_int32 v ≡ true) × (fits_int32 w ≡ true)
fits_two p v w e h = ground (arith, rw e at h.fits)

-- A valid packet has one coordinate or two.
pub vstate_shape :
    (p : StatePacket)
    → IsValid p
    → ((v : ℤ) × (p.vstate ≡ v ∷ [])) ⊎ ((v : ℤ) × (w : ℤ) × (p.vstate ≡ v ∷ w ∷ []))
vstate_shape p h = shape p.vstate h.coordinates
  where
    shape :
        (l : List ℤ)
        → (length l ≡ 1) ⊎ (length l ≡ 2)
        → ((v : ℤ) × (l ≡ v ∷ [])) ⊎ ((v : ℤ) × (w : ℤ) × (l ≡ v ∷ w ∷ []))
    shape [] c = absurd (omega arith)
    shape (v ∷ []) c = inl (v, refl)
    shape (v ∷ w ∷ []) c = inr (v, w, refl)
    shape (v ∷ w ∷ x ∷ r) c = absurd (omega arith)
