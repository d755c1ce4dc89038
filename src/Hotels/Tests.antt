-- ===== src/Hotels/Tests.antt =====
-- The rooms of a hotel on concrete inputs, and the theorems applied to them.
use hotel_ms.Common.{
  ℕ, zero, suc, ◌≡◌, ◌↔◌, ◌<◌, refl, true, false, List, [], ◌∷◌, none, some, codes, length, In,
  arith,
}
use hotel_ms.Hotels.{
  RawRoom, Room, standard, deluxe, penthouse, three_four, price_asc, Filters, passes,
  filtered_rooms, normalize_room, derive_category, lows, highs, clears, run, Answer, listed, failed,
  fetch_hotels, with_second,
}
use hotel_ms.Hotels.Shown.{IsWanted, filtered_rooms_lem}
use hotel_ms.Hotels.Slider.{IsRange, run-IsRange}
use hotel_ms.Hotels.Retry.{fetch_hotels_lem}
use hotel_ms.Hotels.Browse.{Browse, hotels_mode}

abbrev raw_suite : RawRoom
raw_suite = record {
  raw_id = 3;
  type_name = some (codes "Presidential Suite");
  base_price = none;
  night_price = some 2600;
  any_price = none;
  raw_capacity = none;
}

abbrev big_suite : Room
big_suite = record {
  id = 3;
  category = penthouse;
  price_per_night = 2600;
  capacity = 2;
  rating = 45;
  sqft = 820;
}

abbrev twin : Room
twin = record {
  id = 4;
  category = standard;
  price_per_night = 90;
  capacity = 2;
  rating = 45;
  sqft = 320;
}

abbrev family : Room
family = record {
  id = 5;
  category = deluxe;
  price_per_night = 80;
  capacity = 4;
  rating = 45;
  sqft = 450;
}

normalize_room-suite : normalize_room raw_suite ≡ big_suite
unfolding normalize_room derive_category
normalize_room-suite = refl

abbrev start : Filters
start = record {
  low = 0;
  high = 2400;
  types = [];
  caps = three_four ∷ [];
  amenities = [];
  sort_by = price_asc;
}

filtered_rooms-start : filtered_rooms start (twin ∷ family ∷ big_suite ∷ []) ≡ family ∷ []
unfolding filtered_rooms passes
filtered_rooms-start = refl

filtered_rooms_lem_example :
    In family (filtered_rooms start (twin ∷ family ∷ []))
    ↔ (In family (twin ∷ family ∷ []) × IsWanted start family)
filtered_rooms_lem_example = filtered_rooms_lem start (twin ∷ family ∷ []) family

run-IsRange_example : IsRange (run (lows 900 ∷ highs 930 ∷ clears ∷ []) start)
run-IsRange_example =
    run-IsRange (lows 900 ∷ highs 930 ∷ clears ∷ []) start (omega arith, (omega arith, tt))
      (record { apart = omega arith; within = omega arith })

-- The first request fails and the second one succeeds.
abbrev second_try : ℕ → Answer
second_try zero = failed
second_try (suc k) = listed (7 ∷ [])

fetch_hotels_lem_example :
    let o = fetch_hotels (6 ∷ []) second_try (listed (8 ∷ [])) in
    (o.hotels_loading ≡ false)
    × (failed ≡ failed
        → second_try 1 ≡ failed
        → second_try 2 ≡ failed
        → (o.hotels_error ≡ true) × (o.hotels ≡ 6 ∷ []) × (o.waits ≡ 1500 ∷ 3000 ∷ []))
    × ((k : ℕ) (hotels : List ℕ)
        → k < 3
        → ((j : ℕ) → j < k → second_try j ≡ failed)
        → second_try k ≡ listed hotels
        → (o.hotels ≡ with_second hotels (listed (8 ∷ [])))
          × (o.hotels_error ≡ false)
          × (length o.waits ≡ k))
fetch_hotels_lem_example = fetch_hotels_lem (6 ∷ []) second_try (listed (8 ∷ []))

abbrev landing : Browse
landing = record {
  mode = hotels_mode;
  selected_hotel = none;
  rooms = [];
  rooms_loading = false;
  rooms_error = false;
  url_hotel = none;
  filters_open = false;
  pending = [];
}
