-- ===== src/Tests/MediaRuns.antt =====
-- Several media behind one (vertex/transports/multi.py) and advertising data (vertex/radio/ad.py).
use vertex_testbed.Transports.Counting.{raises_of, errors_of, none_publishes, all_publish, one_if}
use vertex_testbed.Radio.AdRoundTrip.{
  find_manufacturer-manufacturer_value, ad_bytes, IsElement, manufacturer_element,
}
use vertex_testbed.Transports.FanOut.{running_after, start-running, Left}
use vertex_testbed.Transports.Counting.{
  publish-counted, one_if, all_publish, none_publishes, errors_of, raises_of,
}
use vertex_testbed.Radio.Ad.{find_manufacturer, Element, manufacturer_value, is_from}
use vertex_testbed.Common.{
  ℕ, ◌++◌, arith, refl, ◌+◌, ◌==◌, All, ◌≡◌, not, [], ◌∷◌, none, some, ok, true, false,
}
use vertex_testbed.Transports.Multi.{
  publish_call, MultiTransport, MultiStats, Media, start, publish,
}

-- The second medium does not start, and the third does not send.
abbrev media : Media
media = record { starts = λ m. not (m == 2); stops = λ m. true; publishes = λ m. not (m == 3) }

abbrev no_stats : MultiStats
no_stats = record {
  published = 0;
  partial = 0;
  failed = 0;
  per_medium_errors = [];
  last_error = none;
}

start-running_example :
    let r =
      start media
        (record { members = 1 ∷ 2 ∷ 3 ∷ []; started = []; stats = no_stats; calls = [] }) in
    Left media [] (1 ∷ 2 ∷ 3 ∷ []) r.1 (running_after media r.0.calls [])
    × ((r.1 ≡ true) × (r.0.started ≡ []))
start-running_example = start-running media (1 ∷ 2 ∷ 3 ∷ []) no_stats

abbrev started_pair : MultiTransport
started_pair = record { members = 1 ∷ 3 ∷ []; started = 1 ∷ 3 ∷ []; stats = no_stats; calls = [] }

publish-counted_example :
    (t' : MultiTransport) × (publish media started_pair ≡ ok t')
    × (t'.calls ≡ publish_call 1 ∷ publish_call 3 ∷ [])
    × (t'.stats.published ≡ 0 + one_if (all_publish media (1 ∷ 3 ∷ [])))
    × (t'.stats.failed ≡ 0 + one_if (none_publishes media (1 ∷ 3 ∷ [])))
    × (t'.stats.partial ≡ 0 + 1)
    × ((m : ℕ)
        → errors_of m t'.stats.per_medium_errors ≡ errors_of m [] + raises_of m media (1 ∷ 3 ∷ []))
publish-counted_example = publish-counted media started_pair (omega arith)

abbrev name_element : Element
name_element = record { type = 9; value = 0x4C ∷ 0x41 ∷ [] }

name-others : All (λ el. is_from 0x0059 el ≡ false) (name_element ∷ [])
unfolding is_from
name-others = (refl, tt)

find_manufacturer-manufacturer_value_example :
    (manufacturer_value 0x0059 (1 ∷ 2 ∷ []) ≡ ok (manufacturer_element 0x0059 (1 ∷ 2 ∷ [])).value)
    × (find_manufacturer
          (ad_bytes (name_element ∷ manufacturer_element 0x0059 (1 ∷ 2 ∷ []) ∷ []) ++ (30 ∷ 9 ∷ []))
          0x0059
        ≡ some (1 ∷ 2 ∷ []))
find_manufacturer-manufacturer_value_example =
    find_manufacturer-manufacturer_value (name_element ∷ []) (30 ∷ 9 ∷ []) 0x0059 (1 ∷ 2 ∷ [])
      name-others (omega arith)

name-IsElement : All IsElement (name_element ∷ [])
name-IsElement = ((omega arith, omega arith), tt)
