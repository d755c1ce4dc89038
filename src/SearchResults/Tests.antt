-- ===== src/SearchResults/Tests.antt =====
-- The search results on concrete inputs, and the theorems applied to them.
use hotel_ms.Common.{
  ◌≡◌, refl, Bool, true, false, List, [], ◌∷◌, Option, none, some, Text, codes, replicate,
  if◌then◌else◌,
}
use hotel_ms.SearchResults.{
  Hotel, rating_desc, Request, Results, displayed, more_enabled, fetch_hotels, arrive,
}
use hotel_ms.SearchResults.Paging.{Shows, serves, clicks, clicks-Shows, load_more_ends}

abbrev inn : Hotel
inn = record { id = 1; name = codes "Inn"; rating = some 41 }

abbrev plaza : Hotel
plaza = record { id = 2; name = codes "Plaza"; rating = some 47 }

abbrev hostel : Hotel
hostel = record { id = 3; name = codes "Hostel"; rating = none }

abbrev fresh : Results
fresh = record {
  location = codes "Bukhara";
  hotels = [];
  loading = false;
  error = false;
  page = 1;
  has_more = false;
  min_rating = 0;
  sort_by = rating_desc;
  pending = [];
}

-- An order that the browser may give, here by the first letter alone.
abbrev by_nothing : Text → Text → Bool
by_nothing s t = true

displayed-best_first :
    displayed by_nothing (record fresh { hotels = inn ∷ hostel ∷ plaza ∷ []; min_rating = 40 })
    ≡ plaza ∷ inn ∷ []
unfolding displayed
displayed-best_first = refl

abbrev many : List Hotel
many = replicate 45 inn

load_more_ends_example :
    let t = clicks by_nothing many 2 (arrive (serves many) 0 (fetch_hotels 1 false fresh)) in
    (t.hotels ≡ many) × (t.has_more ≡ false) × (more_enabled by_nothing t ≡ false)
load_more_ends_example = load_more_ends by_nothing many fresh refl refl

clicks-Shows_example :
    Shows many (clicks by_nothing many 1 (arrive (serves many) 0 (fetch_hotels 1 false fresh)))
clicks-Shows_example = clicks-Shows by_nothing many 1 fresh refl refl

-- The first page of a place has the inn, and every other page has the plaza.
abbrev two_places : Request → Option (List Hotel)
two_places r = if r.append then some (plaza ∷ []) else some (inn ∷ [])

abbrev picky : Results
picky = record fresh { hotels = inn ∷ []; has_more = true; min_rating = 45 }
