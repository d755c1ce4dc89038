-- ===== src/Booking/Steps.antt =====
-- Booking.jsx: the order of the three steps.
use hotel_ms.Common.{
  ℕ, ◌≤◌, ◌≡◌, refl, leb, Bool, true, ◌&&◌, ◌||◌, List, [], ◌∷◌, Text, truthy, trim, arith,
}
use hotel_ms.Booking.{
  Guest, Stay, Page, Server, Profile, Event, edit_guest, edit_dates, edit_card, edit_expiry,
  edit_cvv, next_names, next_dates, back, indicator, profile, confirm, act, run, chosen,
  handle_confirm, sync_profile, request, pay,
}

-- The three names that the first step asks for are not blank.
abbrev pub named : Guest → Bool
named g = truthy (trim g.first_name) && (truthy (trim g.last_name) && truthy (trim g.email))

abbrev pub dated : Stay → Bool
dated d = chosen d.check_in && chosen d.check_out

-- The steps behind the current one are done.
abbrev Done : ℕ → Bool → Bool → Type 0
Done n g d = (1 ≤ n) × (n ≤ 3) × ((leb n 1 || g) ≡ true) × ((leb n 2 || d) ≡ true)

abbrev pub IsValid : Page → Type 0
IsValid s = Done s.step (named s.guest) (dated s.dates)

truthy-trim : (x : Text) → truthy (trim x) ≡ true → truthy x ≡ true
truthy-trim [] h = h
truthy-trim (c ∷ x) h = refl

-- What a confirmation leaves of the page: all but the error and the loading state.
Kept : Page → Page → Type 0
Kept s t = (t.step ≡ s.step) × (t.guest ≡ s.guest) × (t.dates ≡ s.dates)

handle_confirm-Kept : (y m : ℕ) (sv : Server) (s : Page) → Kept s (handle_confirm y m sv s).page
unfolding Kept handle_confirm request pay
handle_confirm-Kept y m sv s = ground arith

confirm-IsValid :
    (y m : ℕ) (sv : Server) (s : Page) → IsValid s → IsValid (handle_confirm y m sv s).page
unfolding Kept
confirm-IsValid y m sv s v = let (n, g, d) = handle_confirm-Kept y m sv s in rw (n, g, d) v

-- A profile that arrives fills blanks and leaves what is there.
sync-named : (p : Profile) (s : Page) → named s.guest ≡ true → named (sync_profile p s).guest ≡ true
unfolding sync_profile
sync-named p s h = ground (
  arith,
  truthy-trim s.guest.first_name,
  truthy-trim s.guest.last_name,
  truthy-trim s.guest.email,
)

sync-rest :
    (p : Profile) (s : Page)
    → ((sync_profile p s).step ≡ s.step) × ((sync_profile p s).dates ≡ s.dates)
unfolding sync_profile
sync-rest p s = ground arith

profile-IsValid : (p : Profile) (s : Page) → IsValid s → IsValid (sync_profile p s)
profile-IsValid p s v =
    let (n, d) = sync-rest p s in rw (n, d) (v.0, v.1, ground (arith, sync-named p s), v.3)

act-IsValid : (y m : ℕ) (sv : Server) (e : Event) (s : Page) → IsValid s → IsValid (act y m sv e s)
unfolding act
act-IsValid y m sv (edit_guest g) s v = ground arith
act-IsValid y m sv (edit_dates d) s v = ground arith
act-IsValid y m sv (edit_card t) s v = ground arith
act-IsValid y m sv (edit_expiry t) s v = ground arith
act-IsValid y m sv (edit_cvv t) s v = ground arith
act-IsValid y m sv next_names s v = ground arith
act-IsValid y m sv next_dates s v = ground arith
act-IsValid y m sv back s v = ground arith
act-IsValid y m sv (indicator n) s v = ground arith
act-IsValid y m sv (profile p) s v = profile-IsValid p s v
act-IsValid y m sv confirm s v = ground (arith, confirm-IsValid y m sv s v)

-- Whatever the user does and the server answers, from a page for which this holds: the page is on one of its three steps, the dates
-- step is reached only with names and an e-mail that are not blank, and the payment step only with
-- both dates as well.
pub steps_in_order :
    (y m : ℕ) (sv : Server) (es : List Event) (s : Page) → IsValid s → IsValid (run y m sv es s)
unfolding run
steps_in_order y m sv [] s v = v
steps_in_order y m sv (e ∷ es) s v =
    steps_in_order y m sv es (act y m sv e s) (act-IsValid y m sv e s v)
