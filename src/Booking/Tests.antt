-- ===== src/Booking/Tests.antt =====
-- The booking page on concrete inputs, and the theorems applied to them.
use hotel_ms.Common.{◌≡◌, refl, false, [], ◌∷◌, none, some, codes, arith}
use hotel_ms.Calendar.{day_number, month_length, year_length, is_leap, span}
use hotel_ms.Booking.{
  Guest, Stay, Card, Page, Server, Booked, answer, fails, network, nights, total, validate_payment,
  handle_confirm, first_part, last_part, next_names, next_dates, confirm, back, run,
}
use hotel_ms.Booking.Confirm.{IsReady, Ending, handle_confirm-Ending}
use hotel_ms.Booking.Steps.{IsValid, steps_in_order}

abbrev visitor : Guest
visitor = record {
  first_name = codes "Aziza";
  last_name = codes "Karimova";
  email = codes "a@b.uz";
  phone = [];
}

abbrev june : Stay
june = record {
  check_in = some (record { year = 4; month = 5; day = 1 });
  check_out = some (record { year = 4; month = 5; day = 4 });
  adults = 2;
  children = 0;
  rooms = 2;
  pets = false;
  special_requests = [];
}

abbrev visa : Card
visa = record {
  card_number = codes "4242 4242 4242 4242";
  expiry = codes "12/27";
  cvv = codes "123";
}

abbrev at_payment : Page
at_payment = record {
  room_id = 5;
  price_per_night = 70;
  step = 3;
  loading = false;
  error = none;
  guest = visitor;
  dates = june;
  payment = visa;
}

abbrev reservation : Booked
reservation = record { id = 31; total_price = 420 }

-- A server that books and takes the payment, and one that does not take it.
abbrev works : Server
works = record { books = λ d. answer reservation; pays = λ d. answer tt }

abbrev declines : Server
declines = record { books = λ d. answer reservation; pays = λ d. fails network }

total-june : total at_payment ≡ 420
unfolding total nights day_number span month_length year_length is_leap
total-june = refl

name-parts :
    (first_part (codes " Ali  Vali Aka ") ≡ codes "Ali")
    × (last_part (codes "Ali Vali Aka") ≡ codes "Vali Aka")
unfolding first_part last_part
name-parts = (refl, refl)

visa-accepted : validate_payment 2025 5 visa ≡ none
unfolding validate_payment day_number span month_length year_length is_leap
visa-accepted = refl

at_payment-IsReady : IsReady 2025 5 at_payment
at_payment-IsReady = (refl, refl, visa-accepted)

handle_confirm-Ending_example : Ending works at_payment (handle_confirm 2025 5 works at_payment)
handle_confirm-Ending_example = handle_confirm-Ending 2025 5 works at_payment

abbrev at_names : Page
at_names = record at_payment { step = 1 }

steps_in_order_example :
    IsValid (run 2025 5 works (next_names ∷ next_dates ∷ confirm ∷ back ∷ []) at_names)
steps_in_order_example =
    steps_in_order 2025 5 works (next_names ∷ next_dates ∷ confirm ∷ back ∷ []) at_names
      (omega arith, omega arith, refl, refl)
