-- ===== src/MyBookings/Cancel.antt =====
-- MyBookings.jsx: what cancellations change.
use hotel_ms.Common.{
  ℕ, ◌≡◌, refl, sym, ap, ◌∙◌, ◌==◌, if◌then◌else◌, Bool, true, false, List, [], ◌∷◌, ◌++◌, Option,
  none, some, map, get_elem?, any, Bool-cases, inl, inr, arith,
}
use hotel_ms.MyBookings.{
  settle, Booking, Page, cancel, cancel_at, Answer, accepted, refused, answered, arrive, Event,
  loads, chooses, cancels, yes, keeps, arrives, step, run, choose_tab, click_cancel, click_yes,
  keep_booking, handle_cancel,
}

-- The cancellations that the server accepts along a run.
abbrev pub accepted_by : Option ℕ → Answer → List ℕ
accepted_by none a = []
accepted_by (some id) accepted = id ∷ []
accepted_by (some id) (refused d) = []

abbrev pub accepted_in : Event → Page → List ℕ
accepted_in (arrives n a) s = accepted_by (get_elem? s.asked n) a
accepted_in (loads r) s = []
accepted_in (chooses t) s = []
accepted_in (cancels id) s = []
accepted_in (yes id) s = []
accepted_in keeps s = []

abbrev pub accepted_ids : List Event → Page → List ℕ
accepted_ids [] s = []
accepted_ids (e ∷ es) s = accepted_in e s ++ accepted_ids es (step e s)

-- A booking, cancelled if its number is in the list.
abbrev pub settled : List ℕ → Booking → Booking
settled ids b = if any (λ id. b.id == id) ids then cancel b else b

abbrev pub cancel_all : List ℕ → List Booking → List Booking
cancel_all ids bs = map (settled ids) bs

cancel_all-none : (bs : List Booking) → cancel_all [] bs ≡ bs
cancel_all-none [] = refl
cancel_all-none (b ∷ bs) = ap (◌∷◌ b) (cancel_all-none bs)

-- To cancel a booking twice is to cancel it once.
cancel-twice : (c : Bool) (b : Booking) → (if c then cancel (cancel b) else cancel b) ≡ cancel b
cancel-twice true b = refl
cancel-twice false b = refl

settled-next :
    (id : ℕ) (ids : List ℕ) (b : Booking)
    → settled ids (if b.id == id then cancel b else b) ≡ settled (id ∷ ids) b
settled-next id ids b = elim (Bool-cases (b.id == id)) [
  | inl e ↦ rw e (cancel-twice (any (λ i. b.id == i) ids) b)
  | inr e ↦ rw e refl
]

cancel_all-next :
    (id : ℕ) (ids : List ℕ) (bs : List Booking)
    → cancel_all ids (cancel_at id bs) ≡ cancel_all (id ∷ ids) bs
unfolding cancel_at
cancel_all-next id ids [] = refl
cancel_all-next id ids (b ∷ bs) = cc (settled-next id ids b, cancel_all-next id ids bs)

-- One event cancels what the server accepts with it.
settle-cancels :
    (o : Option ℕ) (n : ℕ) (a : Answer) (s : Page) (ids : List ℕ)
    → cancel_all ids (settle o n a s).bookings ≡ cancel_all (accepted_by o a ++ ids) s.bookings
unfolding answered
settle-cancels none n a s ids = refl
settle-cancels (some id) n accepted s ids = cancel_all-next id ids s.bookings
settle-cancels (some id) n (refused d) s ids = refl

settle-loading :
    (o : Option ℕ) (n : ℕ) (a : Answer) (s : Page) → (settle o n a s).loading ≡ s.loading
unfolding answered
settle-loading none n a s = refl
settle-loading (some id) n accepted s = refl
settle-loading (some id) n (refused d) s = refl

click_cancel-same : (id : ℕ) (s : Page) → (click_cancel id s).bookings ≡ s.bookings
unfolding click_cancel
click_cancel-same id s = ground arith

click_yes-same : (id : ℕ) (s : Page) → (click_yes id s).bookings ≡ s.bookings
unfolding click_yes handle_cancel
click_yes-same id s = ground arith

step-cancels :
    (e : Event) (s : Page) (ids : List ℕ)
    → s.loading ≡ false
    → cancel_all ids (step e s).bookings ≡ cancel_all (accepted_in e s ++ ids) s.bookings
unfolding step arrive
step-cancels (loads r) s ids h = rw h refl
step-cancels (chooses t) s ids h = refl
step-cancels (cancels id) s ids h = ap (cancel_all ids) (click_cancel-same id s)
step-cancels (yes id) s ids h = ap (cancel_all ids) (click_yes-same id s)
step-cancels keeps s ids h = refl
step-cancels (arrives n a) s ids h = settle-cancels (get_elem? s.asked n) n a s ids

step-loading : (e : Event) (s : Page) → s.loading ≡ false → (step e s).loading ≡ false
unfolding step arrive choose_tab click_cancel click_yes keep_booking handle_cancel
step-loading (loads r) s h = ground (arith, h)
step-loading (chooses t) s h = h
step-loading (cancels id) s h = ground (arith, h)
step-loading (yes id) s h = ground (arith, h)
step-loading keeps s h = h
step-loading (arrives n a) s h = settle-loading (get_elem? s.asked n) n a s ∙ h

-- After the bookings are loaded, whatever is clicked and in whatever order the answers come, the page
-- holds the bookings that were loaded, those cancelled whose cancellation the server has accepted.
pub run-bookings :
    (es : List Event) (s : Page)
    → s.loading ≡ false
    → (run es s).bookings ≡ cancel_all (accepted_ids es s) s.bookings
unfolding run
run-bookings [] s h = sym (cancel_all-none s.bookings)
run-bookings (e ∷ es) s h =
    run-bookings es (step e s) (step-loading e s h)
    ∙ step-cancels e s (accepted_ids es (step e s)) h
