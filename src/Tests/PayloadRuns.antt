-- ===== src/Tests/PayloadRuns.antt =====
-- The microgrid and STATS payloads (vertex/serial/proto.py) on concrete inputs.
use vertex_testbed.Serial.Payload.{pack_i32s}
use vertex_testbed.Common.Int.{to_word, negsuc, pos, ℤ}
use vertex_testbed.Common.Dict.{contains, lookup, Dict}
use vertex_testbed.Serial.Microgrid.{encode_microgrid_iface}
use vertex_testbed.Common.Bytes.{le_bytes, pack_i32, Bytes}
use vertex_testbed.Common.{refl, arith, ◌^◌, ◌≡◌, ◌<◌, All, List, [], ◌∷◌, ℕ, ok, false}

-- The values of an interface block.
abbrev given : Dict ℤ
given =
    (30, pos 1)
    ∷ (31, pos 2)
    ∷ (32, pos 0)
    ∷ (33, negsuc 4)
    ∷ (34, pos 0)
    ∷ (35, pos 0)
    ∷ (36, pos 0)
    ∷ (37, pos 0)
    ∷ (38, pos 9)
    ∷ []

abbrev iface_bytes : Bytes
iface_bytes =
    1 ∷ 0 ∷ 1 ∷ 0 ∷ 0 ∷ 0 ∷ 2 ∷ 0 ∷ 0 ∷ 0 ∷ 0 ∷ 0 ∷ 0 ∷ 0 ∷ 251 ∷ 255 ∷ 255 ∷ 255 ∷ 0 ∷ 0 ∷ 0 ∷ 0
    ∷ 0 ∷ 0 ∷ 0 ∷ 0 ∷ 0 ∷ 0 ∷ 0 ∷ 0 ∷ 0 ∷ 0 ∷ 0 ∷ 0 ∷ 9 ∷ 0 ∷ 0 ∷ 0 ∷ []

iface_encoded : encode_microgrid_iface 1 false given ≡ ok iface_bytes
unfolding encode_microgrid_iface pack_i32s pack_i32 le_bytes to_word lookup contains
iface_encoded = refl

abbrev twelve : List ℕ
twelve = 1 ∷ 2 ∷ 3 ∷ 4 ∷ 5 ∷ 6 ∷ 7 ∷ 8 ∷ 9 ∷ 10 ∷ 11 ∷ 4294967295 ∷ []

abbrev nineteen : List ℕ
nineteen =
    1 ∷ 2 ∷ 3 ∷ 4 ∷ 5 ∷ 6 ∷ 7 ∷ 8 ∷ 9 ∷ 10 ∷ 11 ∷ 12 ∷ 13 ∷ 14 ∷ 15 ∷ 16 ∷ 17 ∷ 18 ∷ 70000 ∷ []

abbrev four : List ℕ
four = 32 ∷ 48 ∷ 160 ∷ 65535 ∷ []

twelve-lt : All (λ v. v < 2 ^ 32) twelve
twelve-lt = ground arith

nineteen-lt : All (λ v. v < 2 ^ 32) nineteen
nineteen-lt = ground arith

four-lt : All (λ v. v < 2 ^ 16) four
four-lt = ground arith
