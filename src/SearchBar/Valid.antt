-- ===== src/SearchBar/Valid.antt =====
-- BookingSearchBar.jsx: what holds after any run.
use hotel_ms.Common.{
  ℕ, ◌≤◌, ◌<◌, ◌≡◌, ◌==◌, ltb, leb, Bool, true, false, not, ◌&&◌, ◌||◌, Option, none, some, length,
}
use hotel_ms.Calendar.{Date}
use hotel_ms.SearchBar.{Bar}

-- The active suggestion is one of those there are.
abbrev pub active_ok : Option ℕ → ℕ → Bool
active_ok none n = true
active_ok (some i) n = n == 0 || ltb i n

-- The dates are from today on and in order, and the second one is only awaited behind the first.
abbrev pub dates_ok : Date → Option Date → Option Date → Bool → Bool
dates_ok today none none picking = not picking
dates_ok today none (some b) picking = false
dates_ok today (some a) none picking = leb today a
dates_ok today (some a) (some b) picking = leb today a && (leb a b && not picking)

pub record IsValid (today : Date) (s : Bar) : Type 0 where
  pub active : active_ok s.active_sug (length s.suggestions) ≡ true
  pub dates : dates_ok today s.check_in s.check_out s.picking_end ≡ true
  pub month : s.view_month < 12
  pub adults_in : (1 ≤ s.adults) × (s.adults ≤ 30)
  pub children_in : s.children ≤ 10
  pub rooms_in : (1 ≤ s.rooms) × (s.rooms ≤ 30)
  pub safe : s.crashed ≡ false

module _ (today : Date) where
  abbrev Ok : Bar → Type 0
  Ok = IsValid today
