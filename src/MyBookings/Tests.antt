-- ===== src/MyBookings/Tests.antt =====
-- The page of bookings on concrete inputs, and the theorems applied to it.
use hotel_ms.Common.{ℕ, ◌≡◌, refl, false, List, [], ◌∷◌, none, codes, In}
use hotel_ms.MyBookings.{
  Booking, Page, all, accepted, refused, Event, cancels, yes, arrives, run, step, counts,
  badge_label, cancelled,
}
use hotel_ms.MyBookings.Cancel.{accepted_ids, cancel_all}
use hotel_ms.MyBookings.Asked.{yes_ids, run-Confirmed}

abbrev first : Booking
first = record {
  id = 4;
  room_id = 1;
  check_in = codes "2026-03-01";
  check_out = codes "2026-03-04";
  total_price = codes "360";
  status = codes "pending";
}

abbrev second : Booking
second = record first { id = 5; status = codes "confirmed" }

abbrev page : Page
page = record {
  bookings = first ∷ second ∷ [];
  loading = false;
  tab = all;
  flipped = none;
  cancelling = none;
  alerts = [];
  asked = [];
}

-- The second booking is cancelled, and the cancellation of the first is refused.
abbrev clicks : List Event
clicks =
    cancels 4
    ∷ yes 4
    ∷ cancels 5
    ∷ yes 5
    ∷ arrives 1 accepted
    ∷ arrives 0 (refused (codes "Too late"))
    ∷ []

run-clicks : (run clicks page).bookings ≡ first ∷ record second { status = codes "cancelled" } ∷ []
unfolding run step
run-clicks = refl

run-alerts : (run clicks page).alerts ≡ codes "Too late" ∷ []
unfolding run
run-alerts = refl

counts-cancelled : counts cancelled (run clicks page) ≡ 1
unfolding run counts
counts-cancelled = refl

badge_label-pending : badge_label first.status ≡ codes "Pending payment"
unfolding badge_label
badge_label-pending = refl

run-Confirmed_example :
    ((run clicks page).bookings ≡ cancel_all (accepted_ids clicks page) page.bookings)
    × ((k : ℕ) → In k (accepted_ids clicks page) → In k (yes_ids clicks))
run-Confirmed_example = run-Confirmed clicks page refl refl
