-- ===== src/Radio/AdRoundTrip.antt =====
-- Advertising data read back (vertex/radio/ad.py).
use vertex_testbed.Common.Bytes.{
  from_le-le_bytes, take-le_bytes, drop-le_bytes, length-le_bytes, to_bytes, le_bytes, Bytes,
}
use vertex_testbed.Common.{
  ==_refl, ◌∙◌, refl, leb, ap, ap₂, drop-length_append, take-length_append, ltb, ◌==◌, ◌-◌, ◌^◌,
  length-append, arith, ◌<◌, ◌≡◌, ◌+◌, ◌≤◌, ◌++◌, map, length, All, Bool, List, [], ◌∷◌, ℕ, zero,
  suc, some, ok, true, false,
}
use mathlib.Core.List.{append_assoc}
use vertex_testbed.Radio.Ad.{
  joined, ad_manufacturer, Element, element, build_ad, parse_from, parse_ad, find_manufacturer,
  first_from, is_from, manufacturer_value,
}

-- The bytes of an element.
abbrev element_bytes : Element → Bytes
element_bytes el = (length el.value + 1) ∷ el.type ∷ el.value

abbrev pub ad_bytes : List Element → Bytes
ad_bytes [] = []
ad_bytes (el ∷ els) = element_bytes el ++ ad_bytes els

-- With fuel for its bytes, advertising data parses to its elements, strictly or not, and raises
-- nothing.
parse_from-ad_bytes :
    (strict : Bool) (fuel : ℕ) (els : List Element)
    → length (ad_bytes els) ≤ fuel
    → parse_from strict fuel (ad_bytes els) ≡ (els, false)
unfolding parse_from
parse_from-ad_bytes strict zero [] h = refl
parse_from-ad_bytes strict zero (el ∷ els) h = absurd (omega arith)
parse_from-ad_bytes strict (suc fuel) [] h = refl
parse_from-ad_bytes strict (suc fuel) (el ∷ els) h =
    let sizes = length-append el.value (ad_bytes els) in
    let one : length el.value + 1 - 1 ≡ length el.value = omega arith in
    let nonzero : (length el.value + 1 == 0) ≡ false = ground arith in
    let fits : ltb (suc (length (el.value ++ ad_bytes els))) (length el.value + 1) ≡ false =
      ground (arith, sizes) in
    rw
      (
        nonzero,
        fits,
        one,
        take-length_append el.value (ad_bytes els),
        drop-length_append el.value (ad_bytes els),
        parse_from-ad_bytes strict fuel els (omega (arith, sizes)),
      )
      refl

-- What `element` accepts.
abbrev pub IsElement : Element → Type 0
IsElement el = (el.type ≤ 255) × (length el.value ≤ 254)

element-element_bytes :
    (el : Element) → IsElement el → element el.type el.value ≡ ok (element_bytes el)
unfolding element
element-element_bytes el (small, short) = ground arith

joined-ad_bytes : (els : List Element) → joined (map element_bytes els) ≡ ad_bytes els
joined-ad_bytes [] = refl
joined-ad_bytes (el ∷ els) = ap (λ l. element_bytes el ++ l) (joined-ad_bytes els)

elements_built :
    (els : List Element)
    → All IsElement els
    → map (λ el. element el.type el.value) els ≡ map ok (map element_bytes els)
elements_built [] h = refl
elements_built (el ∷ els) (h, rest) =
    ap₂ (λ r rs. r ∷ rs) (element-element_bytes el h) (elements_built els rest)

build_ad-ad_bytes :
    (els : List Element) (limit : ℕ)
    → length (ad_bytes els) ≤ limit
    → build_ad (map element_bytes els) limit ≡ ok (ad_bytes els)
unfolding build_ad
build_ad-ad_bytes els limit h = rw (joined-ad_bytes els) (ground arith)

-- Elements of a byte type and at most 254 bytes of value are built, are taken by `build_ad` when
-- together they fit the limit, and parse back to the same elements, strictly or not, with nothing
-- raised.
parse_ad-build_ad :
    (els : List Element) (limit : ℕ) (strict : Bool)
    → All IsElement els
    → length (ad_bytes els) ≤ limit
    → (map (λ el. element el.type el.value) els ≡ map ok (map element_bytes els))
      × (build_ad (map element_bytes els) limit ≡ ok (ad_bytes els))
      × (parse_ad (ad_bytes els) strict ≡ (els, false))
unfolding parse_ad
parse_ad-build_ad els limit strict valid fits = (
  elements_built els valid,
  build_ad-ad_bytes els limit fits,
  parse_from-ad_bytes strict (length (ad_bytes els)) els (omega arith),
)

abbrev pub manufacturer_element : ℕ → Bytes → Element
manufacturer_element company_id payload = record {
  type = ad_manufacturer;
  value = le_bytes 2 company_id ++ payload;
}

manufacturer_value-le_bytes :
    (company_id : ℕ) (payload : Bytes)
    → company_id < 2 ^ 16
    → manufacturer_value company_id payload ≡ ok (le_bytes 2 company_id ++ payload)
unfolding manufacturer_value to_bytes
manufacturer_value-le_bytes company_id payload h = ground arith

is_from-own :
    (company_id : ℕ) (payload : Bytes)
    → company_id < 2 ^ 16
    → is_from company_id (manufacturer_element company_id payload) ≡ true
unfolding is_from
is_from-own company_id payload h =
    let long : leb 2 (length (le_bytes 2 company_id ++ payload)) ≡ true =
      ground (arith, length-append (le_bytes 2 company_id) payload, length-le_bytes 2 company_id) in
    rw (long, take-le_bytes 2 company_id payload, from_le-le_bytes 2 company_id h)
      (==_refl company_id)

first_from-skip :
    (company_id : ℕ) (before rest : List Element)
    → All (λ el. is_from company_id el ≡ false) before
    → first_from company_id (before ++ rest) ≡ first_from company_id rest
unfolding first_from
first_from-skip company_id [] rest h = refl
first_from-skip company_id (el ∷ before) rest (other, h) =
    rw other (first_from-skip company_id before rest h)

-- The elements at the head of some bytes are found, whatever the bytes behind them are.
parse_from-head :
    (fuel : ℕ) (els : List Element) (tail : Bytes)
    → length els ≤ fuel
    → (more : List Element) × ((parse_from false fuel (ad_bytes els ++ tail)).0 ≡ els ++ more)
unfolding parse_from
parse_from-head fuel [] tail h = ((parse_from false fuel tail).0, refl)
parse_from-head zero (el ∷ els) tail h = absurd (omega arith)
parse_from-head (suc fuel) (el ∷ els) tail h =
    let (more, ih) = parse_from-head fuel els tail (omega arith) in
    let rest = ad_bytes els ++ tail in
    let one : length el.value + 1 - 1 ≡ length el.value = omega arith in
    let nonzero : (length el.value + 1 == 0) ≡ false = ground arith in
    let fits : ltb (suc (length (el.value ++ rest))) (length el.value + 1) ≡ false =
      ground (arith, length-append el.value rest) in
    (
      more,
      rw (append_assoc el.value (ad_bytes els) tail) (
          rw
            (nonzero, fits, one, take-length_append el.value rest, drop-length_append el.value rest)
            (ap (λ l. el ∷ l) ih)),
    )

length-ad_bytes : (els : List Element) (tail : Bytes) → length els ≤ length (ad_bytes els ++ tail)
length-ad_bytes [] tail = omega arith
length-ad_bytes (el ∷ els) tail = omega (
  arith,
  length-ad_bytes els tail,
  length-append (el.value ++ ad_bytes els) tail,
  length-append el.value (ad_bytes els),
  length-append (ad_bytes els) tail,
)

-- The payload that `manufacturer_value` puts in an element is found by `find_manufacturer`, whatever
-- elements stand before it that are not of the company, and whatever bytes stand behind it, also
-- such as are no elements.
pub find_manufacturer-manufacturer_value :
    (before : List Element) (after : Bytes) (company_id : ℕ) (payload : Bytes)
    → All (λ el. is_from company_id el ≡ false) before
    → company_id < 2 ^ 16
    → (manufacturer_value company_id payload ≡ ok (manufacturer_element company_id payload).value)
      × (find_manufacturer
            (ad_bytes (before ++ (manufacturer_element company_id payload ∷ [])) ++ after)
            company_id
          ≡ some payload)
unfolding find_manufacturer parse_ad first_from
find_manufacturer-manufacturer_value before after company_id payload others small = (
  manufacturer_value-le_bytes company_id payload small,
  found (parse_from-head (length (ad_bytes els ++ after)) els after (length-ad_bytes els after)),
)
  where
    own : Element
    own = manufacturer_element company_id payload

    els : List Element
    els = before ++ (own ∷ [])

    found :
        ((more : List Element) × ((parse_from false
              (length (ad_bytes els ++ after))
              (ad_bytes els ++ after)).0
            ≡ els ++ more))
        → first_from company_id
            (parse_from false (length (ad_bytes els ++ after)) (ad_bytes els ++ after)).0
          ≡ some payload
    found (more, e) =
        ap (first_from company_id) (e ∙ append_assoc before (own ∷ []) more)
        ∙ first_from-skip company_id before (own ∷ more) others
        ∙ rw (is_from-own company_id payload small) (ap some (drop-le_bytes 2 company_id payload))
