-- ===== src/Radio/Ad.antt =====
-- The elements of BLE advertising data (vertex/radio/ad.py): built and parsed.
use vertex_testbed.Common.Bytes.{to_bytes, from_le, Bytes}
use vertex_testbed.Common.{
  take, ◌+◌, ◌>>=◌, Exception, ltb, require, ◌-◌, leb, ◌>>◌, ◌&&◌, drop, ◌==◌, false, if◌then◌else◌,
  Result, length, ◌++◌, Bool, List, [], ◌∷◌, ℕ, zero, suc, Option, none, some, ok,
}

abbrev pub max_ad_len : ℕ
max_ad_len = 31

abbrev ad_name_complete : ℕ
ad_name_complete = 0x09

abbrev pub ad_manufacturer : ℕ
ad_manufacturer = 0xFF

pub record Element : Type 0 where
  pub type : ℕ
  pub value : Bytes

unfoldable pub element : ℕ → Bytes → Result Bytes
element ad_type value = do
  require (leb ad_type 0xFF) Exception.ad_error
  require (leb (length value) 254) Exception.ad_error
  ok ((length value + 1) ∷ ad_type ∷ value)

-- `b"".join(elements)`
abbrev pub joined : List Bytes → Bytes
joined [] = []
joined (e ∷ es) = e ++ joined es

unfoldable pub build_ad : List Bytes → ℕ → Result Bytes
build_ad elements limit = do
  require (leb (length (joined elements)) limit) Exception.ad_error
  ok (joined elements)

-- The loop of `parse_ad` over what is left of the bytes: the elements that the generator yields, and
-- whether it then raises. `fuel` bounds the elements; their number is below that of the bytes.
unfoldable pub parse_from : Bool → ℕ → Bytes → List Element × Bool
parse_from strict zero bs = ([], false)
parse_from strict (suc fuel) [] = ([], false)
parse_from strict (suc fuel) (len ∷ []) = if len == 0 then ([], false) else ([], strict)
parse_from strict (suc fuel) (len ∷ ad_type ∷ rest) =
    let (more, raises) = parse_from strict fuel (drop (len - 1) rest) in
    if len == 0
    then ([], false)
    else if ltb (suc (length rest)) len
    then ([], strict)
    else (record { type = ad_type; value = take (len - 1) rest } ∷ more, raises)

unfoldable pub parse_ad : Bytes → Bool → List Element × Bool
unfolding parse_from
parse_ad bytes strict = parse_from strict (length bytes) bytes

unfoldable pub manufacturer_value : ℕ → Bytes → Result Bytes
manufacturer_value company_id payload = do
  require (leb company_id 0xFFFF) Exception.ad_error
  id ← to_bytes 2 company_id
  ok (id ++ payload)

-- The test of `find_manufacturer` on one element.
unfoldable pub is_from : ℕ → Element → Bool
is_from company_id el =
    el.type == ad_manufacturer && leb 2 (length el.value) && from_le (take 2 el.value) == company_id

unfoldable pub first_from : ℕ → List Element → Option Bytes
unfolding is_from
first_from company_id [] = none
first_from company_id (el ∷ rest) =
    let later = first_from company_id rest in
    if is_from company_id el then some (drop 2 el.value) else later

unfoldable pub find_manufacturer : Bytes → ℕ → Option Bytes
unfolding parse_ad first_from
find_manufacturer bytes company_id = first_from company_id (parse_ad bytes false).0
