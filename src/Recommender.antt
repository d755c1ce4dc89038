-- ===== src/Recommender.antt =====
-- frontend/react-app/src/components/public/RoomRecommender.jsx: three steps that ask for the wishes of
-- a stay and show what the server recommends. A request is split at its answer. The buttons and the
-- fields of a step are there while it is shown.
pub mod Steps
mod Tests
use hotel_ms.Common.{
  ℕ, ◌+◌, ◌==◌, min, max, leb, if◌then◌else◌, Bool, true, false, not, ◌&&◌, List, [], ◌∷◌, ◌++◌,
  Option, none, some, Text, codes, truthy, same, includes, filter, any,
}

abbrev pub occasions : List Text
occasions =
    codes "honeymoon" ∷ codes "business" ∷ codes "family" ∷ codes "solo" ∷ codes "group" ∷ []

abbrev pub style_options : List Text
style_options =
    codes "Modern"
    ∷ codes "Luxury"
    ∷ codes "Minimalist"
    ∷ codes "Cozy"
    ∷ codes "Boutique"
    ∷ codes "Classic"
    ∷ []

abbrev pub amenity_options : List Text
amenity_options =
    codes "Pool"
    ∷ codes "Spa"
    ∷ codes "Ocean View"
    ∷ codes "Balcony"
    ∷ codes "Kitchen"
    ∷ codes "Pet-friendly"
    ∷ codes "Gym"
    ∷ codes "Parking"
    ∷ []

-- The colours of a match.
pub data Match : Type 0 where
  good fair poor : Match

unfoldable pub match_color : ℕ → Match
match_color score = if leb 80 score then good else if leb 60 score then fair else poor

-- What the server recommends: the rooms with their scores, and a summary.
pub record Results : Type 0 where
  pub recommendations : List (ℕ × ℕ)
  pub summary : Text

pub record Wizard : Type 0 where
  pub at : ℕ
  pub occasion : Text
  pub budget : ℕ
  pub guests : ℕ
  pub nights : ℕ
  pub styles : List Text
  pub amenities : List Text
  pub loading : Bool
  pub results : Option Results

unfoldable pub initial : Wizard
initial = record {
  at = 1;
  occasion = [];
  budget = 300;
  guests = 2;
  nights = 3;
  styles = [];
  amenities = [];
  loading = false;
  results = none;
}

unfoldable pub toggle_chip : Text → List Text → List Text
toggle_chip value chips =
    if includes value chips then filter (λ v. not (same v value)) chips else chips ++ value ∷ []

-- `findRooms` up to its request, and its answer, which is none if the request fails.
unfoldable pub find_rooms : Wizard → Wizard
find_rooms s = record s { loading = true; at = 3 }

abbrev pub apology : Text
apology = codes "We couldn't fetch recommendations right now. Please try again in a moment."

unfoldable pub answered : Option Results → Wizard → Wizard
answered none s = record s {
  results = some (record { recommendations = []; summary = apology });
  loading = false;
}
answered (some r) s = record s { results = some r; loading = false }

unfoldable pub start_over : Wizard → Wizard
unfolding initial
start_over s = initial

pub data Event : Type 0 where
  choose : Text → Event
  set_budget set_guests set_nights : ℕ → Event
  style amenity : Text → Event
  back find refine restart : Event
  answer : Option Results → Event

abbrev on_step : ℕ → Wizard → Wizard → Wizard
on_step n s t = if s.at == n then t else s

unfoldable pub step : Event → Wizard → Wizard
unfolding toggle_chip find_rooms answered start_over
step (choose key) s = on_step 1 s (record s { occasion = key; at = 2 })
step (set_budget n) s = on_step 2 s (record s { budget = n })
step (set_guests n) s = on_step 2 s (record s { guests = min 10 (max 1 n) })
step (set_nights n) s = on_step 2 s (record s { nights = min 30 (max 1 n) })
step (style v) s = on_step 2 s (record s { styles = toggle_chip v s.styles })
step (amenity v) s = on_step 2 s (record s { amenities = toggle_chip v s.amenities })
step back s = on_step 2 s (record s { at = 1 })
step find s = on_step 2 s (find_rooms s)
step refine s = on_step 3 s (if s.loading then s else record s { at = 2 })
step restart s = on_step 3 s (if s.loading then s else start_over s)
step (answer r) s = if s.loading then answered r s else s

unfoldable pub run : List Event → Wizard → Wizard
unfolding step
run [] s = s
run (e ∷ es) s = run es (step e s)
