-- ===== src/Hotels.antt =====
-- frontend/react-app/src/pages/public/Hotels.jsx: the rooms that the server lists, as the page reads
-- them; the filters with the price slider; and the request of the hotels, which is tried three times.
-- A room's name, description and images are carried along unchanged and are left out.
pub mod Shown
pub mod Slider
pub mod Retry
pub mod Browse
mod Tests
use hotel_ms.Common.{
  ℕ, zero, suc, ◌+◌, ◌*◌, ◌==◌, ltb, leb, if◌then◌else◌, Bool, true, false, not, ◌&&◌, ◌||◌, List,
  [], ◌∷◌, ◌++◌, map, Option, none, some, Text, codes, truthy, trim, to_lower, contains, length,
  filter, any, includes, same, sort,
}

abbrev pub price_min : ℕ
price_min = 0

abbrev pub price_max : ℕ
price_max = 2400

-- The labels of the room types.
pub data Category : Type 0 where
  standard deluxe suite penthouse residence : Category

abbrev pub same_category : Category → Category → Bool
same_category standard standard = true
same_category deluxe deluxe = true
same_category suite suite = true
same_category penthouse penthouse = true
same_category residence residence = true
same_category _ _ = false

-- The labels of the capacities.
pub data Capacity : Type 0 where
  one two three_four five_plus : Capacity

abbrev pub same_capacity : Capacity → Capacity → Bool
same_capacity one one = true
same_capacity two two = true
same_capacity three_four three_four = true
same_capacity five_plus five_plus = true
same_capacity _ _ = false

unfoldable pub derive_category : Text → Category
derive_category type_name =
    let name = to_lower type_name in
    if contains (codes "presidential") name
    then penthouse
    else if contains (codes "suite") name
    then suite
    else if contains (codes "deluxe") name
    then deluxe
    else standard

-- A room of the server, and a room of the page. The rating is in tenths.
pub record RawRoom : Type 0 where
  pub raw_id : ℕ
  pub type_name : Option Text
  pub base_price : Option ℕ
  pub night_price : Option ℕ
  pub any_price : Option ℕ
  pub raw_capacity : Option ℕ

pub record Room : Type 0 where
  pub id : ℕ
  pub category : Category
  pub price_per_night : ℕ
  pub capacity : ℕ
  pub rating : ℕ
  pub sqft : ℕ

abbrev or_empty : Option Text → Text
or_empty none = []
or_empty (some t) = t

-- `a ?? b`
abbrev or_next : Option ℕ → ℕ → ℕ
or_next none b = b
or_next (some a) b = a

-- `r.capacity || 2`
abbrev or_two : Option ℕ → ℕ
or_two none = 2
or_two (some n) = if n == 0 then 2 else n

abbrev square_feet : Category → ℕ
square_feet standard = 320
square_feet deluxe = 450
square_feet suite = 640
square_feet penthouse = 820
square_feet residence = 1200

unfoldable pub normalize_room : RawRoom → Room
unfolding derive_category
normalize_room r =
    let raw = or_empty r.type_name in
    let name = if leb 4 (length (trim raw)) then trim raw else [] in
    let category = derive_category (if truthy name then name else raw) in
    record {
      id = r.raw_id;
      category = category;
      price_per_night = or_next r.base_price (or_next r.night_price (or_next r.any_price 0));
      capacity = or_two r.raw_capacity;
      rating = 45;
      sqft = square_feet category;
    }

pub data SortBy : Type 0 where
  recommended price_asc price_desc by_rating : SortBy

pub record Filters : Type 0 where
  pub low : ℕ
  pub high : ℕ
  pub types : List Category
  pub caps : List Capacity
  pub amenities : List Text
  pub sort_by : SortBy

-- `if (arr.length && !arr.includes(item))` is the negation of this.
abbrev pub allowed {ℓ} : {A : Type ℓ} → (A → Bool) → List A → Bool
allowed test [] = true
allowed test (x ∷ xs) = any test (x ∷ xs)

abbrev pub holds : ℕ → Capacity → Bool
holds n one = n == 1
holds n two = n == 2
holds n three_four = leb 3 n && leb n 4
holds n five_plus = leb 5 n

unfoldable pub passes : Filters → Room → Bool
passes f r =
    if ltb r.price_per_night f.low || ltb f.high r.price_per_night
    then false
    else if not (allowed (same_category r.category) f.types)
    then false
    else if not (allowed (holds r.capacity) f.caps)
    then false
    else true

abbrev pub cheaper : Room → Room → Bool
cheaper a b = leb a.price_per_night b.price_per_night

abbrev pub dearer : Room → Room → Bool
dearer a b = leb b.price_per_night a.price_per_night

abbrev pub better : Room → Room → Bool
better a b = leb b.rating a.rating

abbrev pub sorted : SortBy → List Room → List Room
sorted recommended rooms = rooms
sorted price_asc rooms = sort cheaper rooms
sorted price_desc rooms = sort dearer rooms
sorted by_rating rooms = sort better rooms

unfoldable pub filtered_rooms : Filters → List Room → List Room
filtered_rooms f rooms = sorted f.sort_by (filter (passes f) rooms)

unfoldable pub has_active_filters : Filters → Bool
has_active_filters f =
    ltb 0 (length f.types)
    || (ltb 0 (length f.caps)
        || (ltb 0 (length f.amenities) || (ltb price_min f.low || ltb f.high price_max)))

unfoldable pub clear_filters : Filters → Filters
clear_filters f = record f {
  low = price_min;
  high = price_max;
  types = [];
  caps = [];
  amenities = [];
}

-- `p.includes(item) ? p.filter((x) => x !== item) : [...p, item]`
abbrev pub toggled {ℓ} : {A : Type ℓ} → (A → Bool) → A → List A → List A
toggled is item xs = if any is xs then filter (λ x. not (is x)) xs else xs ++ item ∷ []

-- The two handles of the slider; a value that comes too near to the other one is ignored.
unfoldable pub slide_low : ℕ → Filters → Filters
slide_low v f = if ltb (v + 50) f.high then record f { low = v } else f

unfoldable pub slide_high : ℕ → Filters → Filters
slide_high v f = if ltb (f.low + 50) v then record f { high = v } else f

-- The handlers of the panel.
pub data Event : Type 0 where
  lows highs : ℕ → Event
  toggle_type : Category → Event
  toggle_cap : Capacity → Event
  toggle_amenity : Text → Event
  sorts : SortBy → Event
  clears : Event

unfoldable pub step : Event → Filters → Filters
unfolding slide_low slide_high clear_filters
step (lows v) f = slide_low v f
step (highs v) f = slide_high v f
step (toggle_type c) f = record f { types = toggled (same_category c) c f.types }
step (toggle_cap c) f = record f { caps = toggled (same_capacity c) c f.caps }
step (toggle_amenity a) f = record f { amenities = toggled (same a) a f.amenities }
step (sorts s) f = record f { sort_by = s }
step clears f = clear_filters f

unfoldable pub run : List Event → Filters → Filters
unfolding step
run [] f = f
run (e ∷ es) f = run es (step e f)

-- An answer to a request of the hotels: a list, a body without one, or a failure.
pub data Answer : Type 0 where
  listed : List ℕ → Answer
  unreadable failed : Answer

pub record Loaded : Type 0 where
  pub hotels : List ℕ
  pub hotels_error : Bool
  pub hotels_loading : Bool
  -- the waiting times before the repeated requests, in milliseconds
  pub waits : List ℕ

-- The second page is added if it is there, and never makes an error.
abbrev pub with_second : List ℕ → Answer → List ℕ
with_second hotels (listed more) = hotels ++ more
with_second hotels unreadable = hotels
with_second hotels failed = hotels

-- `attempt`, after `tries` failures, where the k-th request of the first page is answered by
-- `first k`. The arguments before are the hotels of
-- the state, which a failure leaves, and the number of requests that are left.
unfoldable pub attempt : List ℕ → ℕ → ℕ → (ℕ → Answer) → Answer → List ℕ → Loaded
attempt shown zero tries first second waits = record {
  hotels = shown;
  hotels_error = true;
  hotels_loading = false;
  waits = waits;
}
attempt shown (suc left) tries first second waits =
    let again = attempt shown left (tries + 1) first second (waits ++ (tries + 1) * 1500 ∷ []) in
    elim (first tries) [
      | listed hotels ↦ record {
        hotels = with_second hotels second;
        hotels_error = false;
        hotels_loading = false;
        waits = waits;
      }
      | unreadable ↦ record {
        hotels = shown;
        hotels_error = true;
        hotels_loading = false;
        waits = waits;
      }
      | failed ↦
          if ltb (tries + 1) 3
          then again
          else record { hotels = shown; hotels_error = true; hotels_loading = false; waits = waits }
    ]

unfoldable pub fetch_hotels : List ℕ → (ℕ → Answer) → Answer → Loaded
unfolding attempt
fetch_hotels shown first second = attempt shown 3 0 first second []
