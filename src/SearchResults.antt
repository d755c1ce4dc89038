-- ===== src/SearchResults.antt =====
-- frontend/react-app/src/pages/public/SearchResults.jsx: the hotels of a search, which the server
-- hands out in pages of twenty, with a rating filter and three orders. `localeCompare` is the
-- browser's, and is a parameter. Ratings are tenths. The requests that are under way wait in a list.
pub mod Paging
pub mod Races
mod Tests
use hotel_ms.Common.{
  ℕ, zero, suc, ◌+◌, ◌==◌, ltb, leb, if◌then◌else◌, Bool, true, false, not, ◌&&◌, List, [], ◌∷◌,
  ◌++◌, Option, none, some, Text, filter, length, get_elem?, sort,
}

pub record Hotel : Type 0 where
  pub id : ℕ
  pub name : Text
  -- none if it is no number
  pub rating : Option ℕ

-- `parseFloat(h.rating) || 0`
abbrev pub rating_of : Hotel → ℕ
rating_of h = elim h.rating [ none ↦ 0 | some r ↦ r ]

pub data SortBy : Type 0 where
  recommended rating_desc name_asc : SortBy

-- A call of `fetchHotels`.
pub record Request : Type 0 where
  pub location : Text
  pub pg : ℕ
  pub append : Bool

pub record Results : Type 0 where
  -- `initLocation`, of the URL
  pub location : Text
  pub hotels : List Hotel
  pub loading : Bool
  pub error : Bool
  pub page : ℕ
  pub has_more : Bool
  pub min_rating : ℕ
  pub sort_by : SortBy
  pub pending : List Request

abbrev pub per_page : ℕ
per_page = 20

-- `fetchHotels` up to its request.
unfoldable pub fetch_hotels : ℕ → Bool → Results → Results
fetch_hotels pg append s = record s {
  loading = true;
  error = false;
  pending = s.pending ++ record { location = s.location; pg = pg; append = append } ∷ [];
}

-- What follows the request. `none` stands for a failure.
unfoldable pub fetched : Request → Option (List Hotel) → Results → Results
fetched r none s = record s { error = true; loading = false }
fetched r (some data_list) s = record s {
  hotels = if r.append then s.hotels ++ data_list else data_list;
  has_more = length data_list == per_page;
  page = r.pg;
  loading = false;
}

abbrev pub remove_at : List Request → ℕ → List Request
remove_at [] n = []
remove_at (r ∷ rs) zero = rs
remove_at (r ∷ rs) (suc n) = r ∷ remove_at rs n

-- The n-th request that is under way gets its answer, which depends on the request alone.
unfoldable pub arrive : (Request → Option (List Hotel)) → ℕ → Results → Results
unfolding fetched
arrive server n s = elim (get_elem? s.pending n) [
  | none ↦ s
  | some r ↦ fetched r (server r) (record s { pending = remove_at s.pending n })
]

-- The effect on `[initLocation]`, where the search form has changed the URL.
unfoldable pub change_location : Text → Results → Results
unfolding fetch_hotels
change_location place s = fetch_hotels 1 false (record s { location = place })

abbrev pub better : Hotel → Hotel → Bool
better a b = leb (rating_of b) (rating_of a)

abbrev pub rated : ℕ → Hotel → Bool
rated least h = leb least (rating_of h)

module _ (name_le : Text → Text → Bool) where
  abbrev pub sorted : SortBy → List Hotel → List Hotel
  sorted recommended hotels = hotels
  sorted rating_desc hotels = sort better hotels
  sorted name_asc hotels = sort (λ a b. name_le a.name b.name) hotels

  unfoldable pub displayed : Results → List Hotel
  displayed s = sorted s.sort_by (filter (rated s.min_rating) s.hotels)

  -- The button "Load more hotels" stands below the cards, which are there if any hotel is shown.
  unfoldable pub more_enabled : Results → Bool
  more_enabled s = ltb 0 (length (displayed s)) && (s.has_more && not s.loading)

  unfoldable pub load_more : Results → Results
  unfolding fetch_hotels more_enabled
  load_more s = if more_enabled s then fetch_hotels (s.page + 1) true s else s
