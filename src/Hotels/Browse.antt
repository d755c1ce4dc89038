-- ===== src/Hotels/Browse.antt =====
-- Hotels.jsx: the search for a hotel, and the two modes of the page with the request of a hotel's
-- rooms. The requests that are under way wait in a list, with the hotel that each one asks for.
use hotel_ms.Common.{
  ℕ, zero, suc, ◌≡◌, if◌then◌else◌, Bool, true, false, not, ◌||◌, List, [], ◌∷◌, ◌++◌, Option, none,
  some, Text, truthy, trim, to_lower, contains, filter, get_elem?, arith,
}
use hotel_ms.Hotels.{RawRoom}

pub record Hotel : Type 0 where
  pub hotel_id : ℕ
  pub name : Option Text
  pub city : Option Text
  pub country : Option Text

abbrev found_in : Text → Option Text → Bool
found_in q none = false
found_in q (some t) = contains q (to_lower t)

unfoldable pub filtered_hotels : Text → List Hotel → List Hotel
filtered_hotels search hotels =
    if not (truthy (trim search))
    then hotels
    else filter
        (λ h.
          found_in (to_lower search) h.name
          || (found_in (to_lower search) h.city || found_in (to_lower search) h.country))
        hotels

pub data Mode : Type 0 where
  hotels_mode rooms_mode : Mode

pub record Browse : Type 0 where
  pub mode : Mode
  pub selected_hotel : Option ℕ
  pub rooms : List RawRoom
  pub rooms_loading : Bool
  pub rooms_error : Bool
  pub url_hotel : Option ℕ
  pub filters_open : Bool
  pub pending : List ℕ

unfoldable pub fetch_rooms : ℕ → Browse → Browse
fetch_rooms hotel s = record s {
  rooms_loading = true;
  rooms_error = false;
  pending = s.pending ++ hotel ∷ [];
}

unfoldable pub enter_room_mode : ℕ → Browse → Browse
unfolding fetch_rooms
enter_room_mode hotel s =
    let asked = fetch_rooms hotel (record s {
      selected_hotel = some hotel;
      mode = rooms_mode;
      rooms = [];
      rooms_error = false;
    }) in
    record asked { url_hotel = some hotel; filters_open = false }

unfoldable pub back_to_hotels : Browse → Browse
back_to_hotels s = record s {
  mode = hotels_mode;
  selected_hotel = none;
  rooms = [];
  url_hotel = none;
}

-- The body of an answer: a list, or something else, or a failure.
pub data RoomsAnswer : Type 0 where
  rooms_listed : List RawRoom → RoomsAnswer
  rooms_unreadable rooms_failed : RoomsAnswer

unfoldable pub rooms_answered : RoomsAnswer → Browse → Browse
rooms_answered (rooms_listed rs) s = record s { rooms = rs; rooms_loading = false }
rooms_answered rooms_unreadable s = record s { rooms = []; rooms_loading = false }
rooms_answered rooms_failed s = record s { rooms_error = true; rooms_loading = false }

abbrev pub remove_at : List ℕ → ℕ → List ℕ
remove_at [] n = []
remove_at (h ∷ hs) zero = hs
remove_at (h ∷ hs) (suc n) = h ∷ remove_at hs n

-- The n-th request that is under way gets its answer.
unfoldable pub arrive : ℕ → RoomsAnswer → Browse → Browse
unfolding rooms_answered
arrive n a s = elim (get_elem? s.pending n) [
  | none ↦ s
  | some hotel ↦ rooms_answered a (record s { pending = remove_at s.pending n })
]

-- The rooms of a hotel that was left show under another one: after a hotel is entered and left, and
-- a second one entered, with no other request under way, the answer for the first hotel replaces
-- the rooms that the answer for the second one brought.
pub rooms_of_another_hotel :
    (a b : ℕ) (first_rooms second_rooms : List RawRoom) (s : Browse)
    → s.pending ≡ []
    → let entered = enter_room_mode b (back_to_hotels (enter_room_mode a s)) in
      let second = arrive 1 (rooms_listed second_rooms) entered in
      let both = arrive 0 (rooms_listed first_rooms) second in
      (second.rooms ≡ second_rooms)
      × (second.rooms_loading ≡ false)
      × (both.selected_hotel ≡ some b)
      × (both.mode ≡ rooms_mode)
      × (both.rooms ≡ first_rooms)
unfolding enter_room_mode back_to_hotels arrive rooms_answered fetch_rooms
rooms_of_another_hotel a b first_rooms second_rooms s e =
    (ground arith, ground arith, ground arith, ground arith, ground arith)
