-- ===== src/Booking/Confirm.antt =====
-- Booking.jsx `handleConfirm`: the requests, the errors and the navigation of a confirmation.
use hotel_ms.Common.{
  ℕ, ◌≡◌, ◌≢◌, refl, ◌∙◌, true, false, not, ◌&&◌, ◌||◌, [], ◌∷◌, none, some, arith, Bool-cases,
  Option-cases, inl, inr, ◌⊎◌,
}
use hotel_ms.Booking.{
  Page, Message, Server, Booked, PaymentData, create_booking, make_payment, Answer, answer, fails,
  Failure, Outcome, select_dates, booking_data, chosen, validate_payment, handle_confirm, request,
  pay, caught, message_of,
}

abbrev pub payment_data : Booked → PaymentData
payment_data b = record { booking_id = b.id; amount = b.total_price }

-- The dates are chosen and the card passes its check.
abbrev pub IsReady : ℕ → ℕ → Page → Type 0
IsReady y m s =
    (chosen s.dates.check_in ≡ true)
    × (chosen s.dates.check_out ≡ true)
    × (validate_payment y m s.payment ≡ none)

ready_request :
    (y m : ℕ) (sv : Server) (s : Page)
    → IsReady y m s
    → handle_confirm y m sv s ≡ request sv (record s { loading = true; error = none })
unfolding handle_confirm
ready_request y m sv s (ci, co, v) = rw (ci, co, v, handle_confirm)

-- The ways in which a confirmation ends.
pub data Ending (sv : Server) (s : Page) (o : Outcome) : Type 0 where
  -- The page refuses, and sends nothing.
  refused :
      (e : Message)
      → o.calls ≡ []
      → o.navigates ≡ none
      → o.page ≡ record s { error = some e }
      → Ending sv s o
  -- The booking fails, and nothing is paid.
  unbooked :
      (f : Failure)
      → sv.books (booking_data s) ≡ fails f
      → o.calls ≡ create_booking (booking_data s) ∷ []
      → o.navigates ≡ none
      → o.page.error ≢ none
      → o.page.loading ≡ false
      → Ending sv s o
  -- The booking is made, and paying it fails.
  unpaid :
      (b : Booked) (f : Failure)
      → sv.books (booking_data s) ≡ answer b
      → sv.pays (payment_data b) ≡ fails f
      → o.calls ≡ create_booking (booking_data s) ∷ make_payment (payment_data b) ∷ []
      → o.navigates ≡ none
      → o.page.error ≢ none
      → o.page.loading ≡ false
      → Ending sv s o
  -- Both succeed.
  confirmed :
      (b : Booked)
      → sv.books (booking_data s) ≡ answer b
      → sv.pays (payment_data b) ≡ answer tt
      → o.calls ≡ create_booking (booking_data s) ∷ make_payment (payment_data b) ∷ []
      → o.navigates ≡ some b.id
      → o.page.error ≡ none
      → o.page.loading ≡ false
      → Ending sv s o

Answer-cases {ℓ} :
    {A : Type ℓ} (a : Answer A) → ((v : A) × (a ≡ answer v)) ⊎ ((f : Failure) × (a ≡ fails f))
Answer-cases (answer v) = inl (v, refl)
Answer-cases (fails f) = inr (f, refl)

-- The page while the requests are under way.
abbrev busy : Page → Page
busy s = record s { loading = true; error = none }

pay-Ending :
    (sv : Server) (s : Page) (b : Booked)
    → sv.books (booking_data s) ≡ answer b
    → Ending sv s (pay sv (busy s) b)
unfolding pay
pay-Ending sv s b bk = elim (Answer-cases (sv.pays (payment_data b))) [
  | inl (_, ok) ↦ rw (ok, pay) (confirmed b bk ok refl refl refl refl)
  | inr (f, bad) ↦ rw (bad, pay) (unpaid b f bk bad refl refl (λ e. cc) refl)
]

request-Ending : (sv : Server) (s : Page) → Ending sv s (request sv (busy s))
unfolding request
request-Ending sv s = elim (Answer-cases (sv.books (booking_data s))) [
  | inl (b, bk) ↦ rw (bk, request) (pay-Ending sv s b bk)
  | inr (f, bad) ↦ rw (bad, request) (unbooked f bad refl refl (λ e. cc) refl)
]

-- Every confirmation ends in one of four ways: the page refuses and sends nothing; the booking
-- fails, and no payment is asked; the booking is made and its payment, of the price that the server
-- gave for it, fails; or both succeed, and only then the page navigates, to that booking. An error
-- is shown exactly if it does not navigate, and where a request was sent the loading state is over.
pub handle_confirm-Ending :
    (y m : ℕ) (sv : Server) (s : Page) → Ending sv s (handle_confirm y m sv s)
unfolding handle_confirm
handle_confirm-Ending y m sv s =
    elim (Bool-cases (chosen s.dates.check_in && chosen s.dates.check_out)) [
      | inr e ↦
          let off : (not (chosen s.dates.check_in) || not (chosen s.dates.check_out)) ≡ true =
            ground arith in
          rw off (refused select_dates refl refl refl)
      | inl e ↦
          let on : (not (chosen s.dates.check_in) || not (chosen s.dates.check_out)) ≡ false =
            ground arith in
          rw on (elim (Option-cases (validate_payment y m s.payment)) [
            | inl ok ↦ rw (ok, handle_confirm) (request-Ending sv s)
            | inr (f, bad) ↦ rw (bad, handle_confirm) (refused f refl refl refl)
          ])
    ]

-- A ready page whose requests both succeed navigates to the booking.
pub ready_confirms :
    (y m : ℕ) (sv : Server) (s : Page) (b : Booked)
    → IsReady y m s
    → sv.books (booking_data s) ≡ answer b
    → sv.pays (payment_data b) ≡ answer tt
    → (handle_confirm y m sv s).navigates ≡ some b.id
unfolding handle_confirm request pay
ready_confirms y m sv s b r bk ok =
    rw (ready_request y m sv s r) (rw (bk, request) (rw (ok, pay) refl))

-- After a payment that failed, the page asks for a second booking of the same room and dates when
-- the user confirms again.
pub retry_books_again :
    (y m : ℕ) (sv : Server) (s : Page) (b : Booked) (f : Failure)
    → IsReady y m s
    → sv.books (booking_data s) ≡ answer b
    → sv.pays (payment_data b) ≡ fails f
    → let o = handle_confirm y m sv s in
      (o.calls ≡ create_booking (booking_data s) ∷ make_payment (payment_data b) ∷ [])
      × ((handle_confirm y m sv o.page).calls
          ≡ create_booking (booking_data s) ∷ make_payment (payment_data b) ∷ [])
unfolding request pay
retry_books_again y m sv s b f r bk bad =
    let again : Page = record s { loading = false; error = some (message_of f) } in
    let first : handle_confirm y m sv s
        ≡ caught (busy s) (create_booking (booking_data s) ∷ make_payment (payment_data b) ∷ []) f =
      ready_request y m sv s r ∙ rw (bk, request) (rw (bad, pay) refl) in
    rw first (refl, rw (ready_request y m sv again r) (rw (bk, request) (rw (bad, pay) refl)))
