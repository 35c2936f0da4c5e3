-- ===== src/Serial/Microgrid.antt =====
-- The three microgrid blocks of vertex/serial/proto.py. A field's name is a number here; the values
-- that the encoders take by keyword are a dictionary from names.
use vertex_testbed.Serial.Payload.{flag_byte, pack_i32s, is_positive}
use vertex_testbed.Common.Bytes.{Bytes}
use vertex_testbed.Common.Dict.{lookup, contains, or_default, Dict}
use vertex_testbed.Common.Int.{pos, leb_ℤ, ℤ}
use vertex_testbed.Common.{
  ◌++◌, map, ◌>>=◌, ltb, ◌||◌, not, Exception, ◌==◌, require, ◌&&◌, ◌>>◌, Result, elem, Bool, List,
  [], ◌∷◌, ℕ, Option, none, some, ok, true, false,
}

abbrev pub kappa : ℕ
kappa = 0

abbrev pub p_max : ℕ
p_max = 3

abbrev pub q_max : ℕ
q_max = 4

abbrev pub pin : ℕ
pin = 16

abbrev pub reference_p : ℕ
reference_p = 17

abbrev pub reference_q : ℕ
reference_q = 18

-- kappa, S1, S2, p_max, q_max, X0_P, X0_Q
abbrev pub mg_plant_fields : List ℕ
mg_plant_fields = kappa ∷ 1 ∷ 2 ∷ p_max ∷ q_max ∷ 5 ∷ 6 ∷ []

-- T_o, alpha_0, delta_o, kappa_o, xi, c_0, b, rP, rQ, degree, z0_P, z0_Q
abbrev pub mg_virtual_fields : List ℕ
mg_virtual_fields =
    10 ∷ 11 ∷ 12 ∷ 13 ∷ 14 ∷ 15 ∷ pin ∷ reference_p ∷ reference_q ∷ 19 ∷ 20 ∷ 21 ∷ []

-- mu_max, gamma, eps, vartheta_0, T_c, beta_c, Phi, delta_c, adapt_band
abbrev pub mg_iface_fields : List ℕ
mg_iface_fields = 30 ∷ 31 ∷ 32 ∷ 33 ∷ 34 ∷ 35 ∷ 36 ∷ 37 ∷ 38 ∷ []

abbrev pub law_microgrid_adaptive : ℕ
law_microgrid_adaptive = 1

abbrev pub law_microgrid_lc : ℕ
law_microgrid_lc = 2

-- No field of the list is missing, and no key is outside the list.
abbrev pub all_given : List ℕ → Dict ℤ → Bool
all_given [] got = true
all_given (f ∷ fs) got = contains f got && all_given fs got

abbrev pub none_extra : List ℕ → Dict ℤ → Bool
none_extra fields [] = true
none_extra fields ((k, v) ∷ got) = elem k fields && none_extra fields got

-- `got[f]`, for a field that is there.
abbrev pub value_of : Dict ℤ → ℕ → ℤ
value_of got f = or_default (lookup f got) (pos 0)

unfoldable pub mg_block : List ℕ → Bytes → Dict ℤ → Result Bytes
mg_block fields head got = do
  require (all_given fields got) Exception.proto_error
  require (none_extra fields got) Exception.proto_error
  packed ← pack_i32s (map (value_of got) fields)
  ok (head ++ packed)

unfoldable pub encode_microgrid_plant : ℕ → Dict ℤ → Result Bytes
unfolding mg_block
encode_microgrid_plant profile got = do
  require (is_positive (value_of got kappa)) Exception.proto_error
  require (is_positive (value_of got p_max) && is_positive (value_of got q_max))
      Exception.proto_error
  require (ltb profile 256) Exception.value_error
  mg_block mg_plant_fields (profile ∷ []) got

-- `v == 0`
abbrev pub is_zero : ℤ → Bool
is_zero v = leb_ℤ v (pos 0) && leb_ℤ (pos 0) v

abbrev pub given_zero : Option ℤ → Bool
given_zero none = false
given_zero (some v) = is_zero v

-- `fields.get("b") == 0 and (fields.get("rP") or fields.get("rQ"))` is refused.
unfoldable pub encode_microgrid_virtual : Dict ℤ → Result Bytes
unfolding mg_block
encode_microgrid_virtual got = do
  require
      (not (
        given_zero (lookup pin got)
        && (not (is_zero (value_of got reference_p)) || not (is_zero (value_of got reference_q)))))
      Exception.proto_error
  mg_block mg_virtual_fields [] got

unfoldable pub encode_microgrid_iface : ℕ → Bool → Dict ℤ → Result Bytes
unfolding mg_block
encode_microgrid_iface law terminal got = do
  require (law == law_microgrid_adaptive || law == law_microgrid_lc) Exception.proto_error
  mg_block mg_iface_fields (law ∷ flag_byte terminal ∷ []) got
