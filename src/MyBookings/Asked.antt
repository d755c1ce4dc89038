-- ===== src/MyBookings/Asked.antt =====
-- MyBookings.jsx: no booking is cancelled that was not confirmed to be.
use hotel_ms.Common.{
  ℕ, zero, suc, ◌≡◌, refl, false, List, [], ◌∷◌, ◌++◌, Option, none, some, get_elem?, In, here,
  there, ◌⊎◌, inl, inr, subst, ◌==◌, not, any, ◌&&◌, Bool-cases, arith,
}
use mathlib.Core.Option.{some-injective}
use hotel_ms.MyBookings.{
  is, filtered, Booking, Page, Answer, accepted, refused, answered, settle, remove_at, Event, loads,
  chooses, cancels, yes, keeps, arrives, step, run, loaded, choose_tab, click_cancel, click_yes,
  keep_booking, handle_cancel, arrive,
}
use hotel_ms.MyBookings.Cancel.{accepted_by, accepted_in, accepted_ids, cancel_all, run-bookings}

-- The bookings at which `Yes, cancel` is clicked.
abbrev pub yes_ids : List Event → List ℕ
yes_ids [] = []
yes_ids (yes id ∷ es) = id ∷ yes_ids es
yes_ids (loads r ∷ es) = yes_ids es
yes_ids (chooses t ∷ es) = yes_ids es
yes_ids (cancels id ∷ es) = yes_ids es
yes_ids (keeps ∷ es) = yes_ids es
yes_ids (arrives n a ∷ es) = yes_ids es

append-In {ℓ} : {A : Type ℓ} (xs ys : List A) {a : A} → In a (xs ++ ys) → In a xs ⊎ In a ys
append-In [] ys m = inr m
append-In (x ∷ xs) ys here = inl here
append-In (x ∷ xs) ys (there m) = elim (append-In xs ys m) [ inl l ↦ inl (there l) | inr r ↦ inr r ]

get_elem?-In : (xs : List ℕ) (n : ℕ) (id : ℕ) → get_elem? xs n ≡ some id → In id xs
get_elem?-In [] n id e = absurd (cc)
get_elem?-In (x ∷ xs) zero id e = subst (λ y. In y (x ∷ xs)) (some-injective x id e) here
get_elem?-In (x ∷ xs) (suc n) id e = there (get_elem?-In xs n id e)

remove_at-In : (xs : List ℕ) (n : ℕ) {a : ℕ} → In a (remove_at xs n) → In a xs
remove_at-In [] n m = m
remove_at-In (x ∷ xs) zero m = there m
remove_at-In (x ∷ xs) (suc n) here = here
remove_at-In (x ∷ xs) (suc n) (there m) = there (remove_at-In xs n m)

accepted_by-In :
    (xs : List ℕ) (n : ℕ) (a : Answer) {k : ℕ} → In k (accepted_by (get_elem? xs n) a) → In k xs
accepted_by-In xs n a {k} m = go (get_elem? xs n) a refl m
  where
    go : (o : Option ℕ) (a : Answer) → get_elem? xs n ≡ o → In k (accepted_by o a) → In k xs
    go none a e m = elim m [ ]
    go (some id) accepted e here = get_elem?-In xs n id e
    go (some id) accepted e (there x) = elim x [ ]
    go (some id) (refused d) e m = elim m [ ]

settle-asked :
    (o : Option ℕ) (n : ℕ) (a : Answer) (s : Page) {k : ℕ}
    → In k (settle o n a s).asked
    → In k s.asked
unfolding answered
settle-asked none n a s m = m
settle-asked (some id) n accepted s m = remove_at-In s.asked n m
settle-asked (some id) n (refused d) s m = remove_at-In s.asked n m

abbrev yes_of : Event → List ℕ
yes_of (yes id) = id ∷ []
yes_of (loads r) = []
yes_of (chooses t) = []
yes_of (cancels id) = []
yes_of keeps = []
yes_of (arrives n a) = []

loaded-asked : (r : Option (List Booking)) (s : Page) → (loaded r s).asked ≡ s.asked
unfolding loaded
loaded-asked none s = refl
loaded-asked (some bs) s = refl

loads-asked : (r : Option (List Booking)) (s : Page) → (step (loads r) s).asked ≡ s.asked
unfolding step
loads-asked r s = ground (arith, loaded-asked r s)

cancels-asked : (id : ℕ) (s : Page) → (click_cancel id s).asked ≡ s.asked
unfolding click_cancel
cancels-asked id s = ground arith

yes-asked :
    (id : ℕ) (s : Page) {k : ℕ} → In k (click_yes id s).asked → In k s.asked ⊎ In k (id ∷ [])
unfolding click_yes handle_cancel
yes-asked id s {k} m =
    elim (Bool-cases
      (not s.loading && (any (λ b. b.id == id) (filtered s) && not (is s.cancelling id)))) [
        | inl e ↦ append-In s.asked (id ∷ []) (rw e at m)
        | inr e ↦ inl (rw e at m)
      ]

step-asked : (e : Event) (s : Page) {k : ℕ} → In k (step e s).asked → In k s.asked ⊎ In k (yes_of e)
unfolding step choose_tab keep_booking arrive
step-asked (loads r) s {k} m = inl (subst (In k) (loads-asked r s) m)
step-asked (chooses t) s m = inl m
step-asked (cancels id) s {k} m = inl (subst (In k) (cancels-asked id s) m)
step-asked (yes id) s m = yes-asked id s m
step-asked keeps s m = inl m
step-asked (arrives n a) s m = inl (settle-asked (get_elem? s.asked n) n a s m)

accepted_in-asked : (e : Event) (s : Page) {k : ℕ} → In k (accepted_in e s) → In k s.asked
accepted_in-asked (loads r) s m = elim m [ ]
accepted_in-asked (chooses t) s m = elim m [ ]
accepted_in-asked (cancels id) s m = elim m [ ]
accepted_in-asked (yes id) s m = elim m [ ]
accepted_in-asked keeps s m = elim m [ ]
accepted_in-asked (arrives n a) s m = accepted_by-In s.asked n a m

yes_ids-first : (e : Event) (es : List Event) {k : ℕ} → In k (yes_of e) → In k (yes_ids (e ∷ es))
yes_ids-first (yes id) es here = here
yes_ids-first (yes id) es (there m) = elim m [ ]
yes_ids-first (loads r) es m = elim m [ ]
yes_ids-first (chooses t) es m = elim m [ ]
yes_ids-first (cancels id) es m = elim m [ ]
yes_ids-first keeps es m = elim m [ ]
yes_ids-first (arrives n a) es m = elim m [ ]

yes_ids-later : (e : Event) (es : List Event) {k : ℕ} → In k (yes_ids es) → In k (yes_ids (e ∷ es))
yes_ids-later (yes id) es m = there m
yes_ids-later (loads r) es m = m
yes_ids-later (chooses t) es m = m
yes_ids-later (cancels id) es m = m
yes_ids-later keeps es m = m
yes_ids-later (arrives n a) es m = m

accepted_ids-asked :
    (es : List Event) (s : Page) {k : ℕ}
    → In k (accepted_ids es s)
    → In k s.asked ⊎ In k (yes_ids es)
accepted_ids-asked [] s m = elim m [ ]
accepted_ids-asked (e ∷ es) s m =
    elim (append-In (accepted_in e s) (accepted_ids es (step e s)) m) [
      | inl now ↦ inl (accepted_in-asked e s now)
      | inr later ↦ elim (accepted_ids-asked es (step e s) later) [
        | inr r ↦ inr (yes_ids-later e es r)
        | inl l ↦ elim (step-asked e s l) [
          | inl before ↦ inl before
          | inr f ↦ inr (yes_ids-first e es f)
        ]
      ]
    ]

-- After the bookings are loaded and with no request under way, whatever is clicked and in whatever
-- order the answers come, the page holds the bookings that were loaded, those cancelled whose
-- cancellation the server has accepted; and each of these was confirmed by a click on `Yes, cancel`.
pub run-Confirmed :
    (es : List Event) (s : Page)
    → s.loading ≡ false
    → s.asked ≡ []
    → ((run es s).bookings ≡ cancel_all (accepted_ids es s) s.bookings)
      × ((k : ℕ) → In k (accepted_ids es s) → In k (yes_ids es))
run-Confirmed es s h n = (run-bookings es s h, λ k m. from_clicks k (accepted_ids-asked es s m))
  where
    from_clicks : (k : ℕ) → In k s.asked ⊎ In k (yes_ids es) → In k (yes_ids es)
    from_clicks k (inl l) = elim (subst (In k) n l) [ ]
    from_clicks k (inr r) = r
