-- ===== src/MyBookings.antt =====
-- frontend/react-app/src/pages/user/MyBookings.jsx: the bookings of the user under their tabs, and the
-- cancellation of one. The number of nights and the data of the room are computed for display only, and
-- are not modelled.
pub mod Asked
pub mod Cancel
mod Tests
use hotel_ms.Common.{
  ℕ, zero, suc, ◌==◌, if◌then◌else◌, Bool, true, false, not, ◌&&◌, ◌||◌, List, [], ◌∷◌, ◌++◌,
  Option, none, some, Text, codes, truthy, same, filter, length, map, get_elem?, any,
}

pub record Booking : Type 0 where
  pub id : ℕ
  pub room_id : ℕ
  pub check_in : Text
  pub check_out : Text
  pub total_price : Text
  pub status : Text

-- The keys of `TABS`.
pub data Tab : Type 0 where
  all confirmed pending completed cancelled : Tab

unfoldable pub status_of : Tab → Text
status_of all = codes "all"
status_of confirmed = codes "confirmed"
status_of pending = codes "pending"
status_of completed = codes "completed"
status_of cancelled = codes "cancelled"

-- `BADGE_LABEL[b.status] || b.status`
unfoldable pub badge_label : Text → Text
badge_label st =
    if same st (codes "confirmed")
    then codes "Confirmed"
    else if same st (codes "pending")
    then codes "Pending payment"
    else if same st (codes "cancelled")
    then codes "Cancelled"
    else if same st (codes "completed")
    then codes "Completed"
    else st

pub record Page : Type 0 where
  pub bookings : List Booking
  pub loading : Bool
  pub tab : Tab
  pub flipped : Option ℕ
  pub cancelling : Option ℕ
  -- what `alert` showed
  pub alerts : List Text
  -- the bookings whose cancellation is asked of the server, with no answer so far
  pub asked : List ℕ

-- `filter((b) => b.status === ...)`
unfoldable pub with_status : Text → List Booking → List Booking
with_status st bs = filter (λ b. same b.status st) bs

unfoldable pub counts : Tab → Page → ℕ
unfolding with_status status_of
counts all s = length s.bookings
counts confirmed s = length (with_status (status_of confirmed) s.bookings)
counts pending s = length (with_status (status_of pending) s.bookings)
counts completed s = length (with_status (status_of completed) s.bookings)
counts cancelled s = length (with_status (status_of cancelled) s.bookings)

abbrev pub under : Tab → List Booking → List Booking
under all bs = bs
under confirmed bs = with_status (status_of confirmed) bs
under pending bs = with_status (status_of pending) bs
under completed bs = with_status (status_of completed) bs
under cancelled bs = with_status (status_of cancelled) bs

unfoldable pub filtered : Page → List Booking
filtered s = under s.tab s.bookings

-- The effect on mounting, when its answer is there. `none` stands for a failure.
unfoldable pub loaded : Option (List Booking) → Page → Page
loaded none s = record s { loading = false }
loaded (some bs) s = record s { bookings = bs; loading = false }

-- `{ ...b, status: "cancelled" }`
abbrev pub cancel : Booking → Booking
cancel b = record b { status = codes "cancelled" }

-- `prev.map((b) => b.id === id ? ... : b)`
unfoldable pub cancel_at : ℕ → List Booking → List Booking
cancel_at id bs = map (λ b. if b.id == id then cancel b else b) bs

-- The answer to a cancellation. A detail that is missing is empty.
pub data Answer : Type 0 where
  accepted : Answer
  refused : Text → Answer

-- `handleCancel` up to its request, and from the answer on.
unfoldable pub handle_cancel : ℕ → Page → Page
handle_cancel id s = record s { cancelling = some id; asked = s.asked ++ id ∷ [] }

abbrev pub detail_or : Text → Text
detail_or d = if truthy d then d else codes "Failed to cancel. Please try again."

unfoldable pub answered : ℕ → Answer → Page → Page
unfolding cancel_at
answered id accepted s = record s {
  bookings = cancel_at id s.bookings;
  flipped = none;
  cancelling = none;
}
answered id (refused d) s = record s { alerts = s.alerts ++ detail_or d ∷ []; cancelling = none }

abbrev pub remove_at : List ℕ → ℕ → List ℕ
remove_at [] n = []
remove_at (r ∷ rs) zero = rs
remove_at (r ∷ rs) (suc n) = r ∷ remove_at rs n

abbrev pub settle : Option ℕ → ℕ → Answer → Page → Page
settle none n a s = s
settle (some id) n a s = answered id a (record s { asked = remove_at s.asked n })

-- The answer to the request at a place among those under way.
unfoldable pub arrive : ℕ → Answer → Page → Page
unfolding answered
arrive n a s = settle (get_elem? s.asked n) n a s

unfoldable pub choose_tab : Tab → Page → Page
choose_tab t s = record s { tab = t; flipped = none }

abbrev pub is : Option ℕ → ℕ → Bool
is none id = false
is (some k) id = k == id

abbrev pub may_cancel : Booking → Bool
may_cancel b = same b.status (codes "confirmed") || same b.status (codes "pending")

-- The buttons Cancel, on the front of a card, and `Yes, cancel`, on its back.
unfoldable pub click_cancel : ℕ → Page → Page
unfolding filtered
click_cancel id s =
    if not s.loading && any (λ b. b.id == id && may_cancel b) (filtered s)
    then record s { flipped = some id }
    else s

unfoldable pub click_yes : ℕ → Page → Page
unfolding filtered handle_cancel
click_yes id s =
    if not s.loading && (any (λ b. b.id == id) (filtered s) && not (is s.cancelling id))
    then handle_cancel id s
    else s

unfoldable pub keep_booking : Page → Page
keep_booking s = record s { flipped = none }

pub data Event : Type 0 where
  loads : Option (List Booking) → Event
  chooses : Tab → Event
  cancels yes : ℕ → Event
  keeps : Event
  arrives : ℕ → Answer → Event

-- The bookings are loaded once.
unfoldable pub step : Event → Page → Page
unfolding loaded choose_tab click_cancel click_yes keep_booking arrive
step (loads r) s = if s.loading then loaded r s else s
step (chooses t) s = choose_tab t s
step (cancels id) s = click_cancel id s
step (yes id) s = click_yes id s
step keeps s = keep_booking s
step (arrives n a) s = arrive n a s

unfoldable pub run : List Event → Page → Page
unfolding step
run [] s = s
run (e ∷ es) s = run es (step e s)
