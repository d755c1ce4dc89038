-- ===== src/Booking.antt =====
-- frontend/react-app/src/pages/public/Booking.jsx: the three steps of a booking, the check of the
-- card, and the two requests of a confirmation. Prices are whole numbers of one currency unit. The
-- server's answers are arguments.
pub mod Payment
pub mod Steps
pub mod Confirm
mod Tests
use hotel_ms.Common.{
  ℕ, ◌+◌, ◌-◌, ◌*◌, ◌==◌, max, ltb, leb, if◌then◌else◌, Bool, true, false, not, ◌&&◌, ◌||◌, List,
  [], ◌∷◌, ◌++◌, Option, none, some, Text, codes, truthy, trim, split, is_digit, digits_only,
  is_space, filter, length, drop, get_elem?,
}
use hotel_ms.Calendar.{Ymd, DateText, day_number}

pub record Guest : Type 0 where
  pub first_name : Text
  pub last_name : Text
  pub email : Text
  pub phone : Text

pub record Stay : Type 0 where
  pub check_in : DateText
  pub check_out : DateText
  pub adults : ℕ
  pub children : ℕ
  pub rooms : ℕ
  pub pets : Bool
  pub special_requests : Text

pub record Card : Type 0 where
  pub card_number : Text
  pub expiry : Text
  pub cvv : Text

-- The messages that the page shows.
pub data Message : Type 0 where
  fill_names select_dates bad_card_number bad_expiry_format card_expired bad_cvv : Message
  server : Text → Message
  network_down booking_failed : Message

pub record Page : Type 0 where
  pub room_id : ℕ
  pub price_per_night : ℕ
  pub step : ℕ
  pub loading : Bool
  pub error : Option Message
  pub guest : Guest
  pub dates : Stay
  pub payment : Card

-- The nights of a stay: both texts are parsed as midnights of UTC, so the quotient is whole, and a
-- negative one is raised to 1 as 0 is.
abbrev pub nights_between : DateText → DateText → ℕ
nights_between (some a) (some b) =
    max 1 (day_number b.year b.month b.day - day_number a.year a.month a.day)
nights_between none b = 1
nights_between (some a) none = 1

unfoldable pub nights : Stay → ℕ
nights d = nights_between d.check_in d.check_out

unfoldable pub total : Page → ℕ
unfolding nights
total s = s.price_per_night * nights s.dates * s.dates.rooms

-- `parts[0] || ""` and `parts.slice(1).join(" ") || ""` of the trimmed name, split at blanks.
abbrev pub join : ℕ → List Text → Text
join sep [] = []
join sep (t ∷ []) = t
join sep (t ∷ u ∷ ts) = t ++ sep ∷ join sep (u ∷ ts)

abbrev or_empty : Option Text → Text
or_empty none = []
or_empty (some t) = t

unfoldable pub first_part : Text → Text
first_part full_name = or_empty (get_elem? (split 32 (trim full_name)) 0)

unfoldable pub last_part : Text → Text
last_part full_name = join 32 (drop 1 (split 32 (trim full_name)))

pub record Profile : Type 0 where
  pub full_name : Text
  pub email : Text
  pub phone : Text

-- `a || b`
abbrev or_else : Text → Text → Text
or_else a b = if truthy a then a else b

-- The effect that fills what is still empty when the profile arrives.
unfoldable pub sync_profile : Profile → Page → Page
unfolding first_part last_part
sync_profile user s =
    if truthy user.full_name || truthy user.email
    then record s {
      guest = record {
        first_name = or_else s.guest.first_name (first_part user.full_name);
        last_name = or_else s.guest.last_name (last_part user.full_name);
        email = or_else s.guest.email user.email;
        phone = or_else s.guest.phone user.phone;
      };
    }
    else s

-- The digits of a two-digit text as a number.
abbrev pub two_digits : ℕ → ℕ → ℕ
two_digits a b = (a - 48) * 10 + (b - 48)

-- `/^\d{2}\/\d{2}$/`, with the month and the year that the text splits into.
abbrev pub parse_expiry : Text → Option (ℕ × ℕ)
parse_expiry (a ∷ b ∷ c ∷ d ∷ e ∷ []) =
    if is_digit a && (is_digit b && (c == 47 && (is_digit d && is_digit e)))
    then some (two_digits a b, two_digits d e)
    else none
parse_expiry _ = none

-- `validatePayment()`, where today lies in the given year and month (counted from 0). The dates that
-- it compares are first days of months.
abbrev pub expiry_error : ℕ → ℕ → ℕ → ℕ → Option Message
expiry_error year month mm yy =
    if ltb mm 1 || (ltb 12 mm || ltb (day_number (2000 + yy) (mm - 1) 1) (day_number year month 1))
    then some card_expired
    else none

unfoldable pub validate_payment : ℕ → ℕ → Card → Option Message
validate_payment year month p =
    let digits = filter (λ c. not (is_space c)) p.card_number in
    if ltb (length digits) 13 || ltb 19 (length digits)
    then some bad_card_number
    else elim (parse_expiry p.expiry) [
      | none ↦ some bad_expiry_format
      | some (mm, yy) ↦ elim (expiry_error year month mm yy) [
        | some e ↦ some e
        | none ↦ if ltb (length p.cvv) 3 then some bad_cvv else none
      ]
    ]

-- The field of the card number: `replace(/\D/g, "").replace(/(.{4})/g, "$1 ").trim()`.
abbrev pub group_by_four : Text → Text
group_by_four (a ∷ b ∷ c ∷ d ∷ rest) = a ∷ b ∷ c ∷ d ∷ 32 ∷ group_by_four rest
group_by_four short = short

unfoldable pub type_card_number : Text → Page → Page
type_card_number typed s = record s {
  payment = record s.payment { card_number = trim (group_by_four (digits_only typed)) };
}

unfoldable pub type_cvv : Text → Page → Page
type_cvv typed s = record s { payment = record s.payment { cvv = digits_only typed } }

-- The two requests of a confirmation, and their answers.
pub record BookingData : Type 0 where
  pub booking_room : ℕ
  pub from : DateText
  pub until : DateText
  pub requests : Option Text

pub record Booked : Type 0 where
  pub id : ℕ
  pub total_price : ℕ

pub record PaymentData : Type 0 where
  pub booking_id : ℕ
  pub amount : ℕ

pub data Call : Type 0 where
  create_booking : BookingData → Call
  make_payment : PaymentData → Call

-- An error as the catch block reads it: the text of the server, or the kind of the failure.
pub data Failure : Type 0 where
  said : Text → Failure
  network other : Failure

pub data Answer {ℓ} (A : Type ℓ) : Type ℓ where
  answer : A → Answer A
  fails : Failure → Answer A

pub record Server : Type 0 where
  pub books : BookingData → Answer Booked
  pub pays : PaymentData → Answer (Unit {0})

-- What a confirmation does: the page, the requests in their order, and the booking of the page that
-- it navigates to.
pub record Outcome : Type 0 where
  pub page : Page
  pub calls : List Call
  pub navigates : Option ℕ

abbrev pub message_of : Failure → Message
message_of (said t) = server t
message_of network = network_down
message_of other = booking_failed

abbrev pub stopped : Page → Message → Outcome
stopped s e = record { page = record s { error = some e }; calls = []; navigates = none }

-- The `catch` and `finally` blocks, and the `finally` block alone.
abbrev pub caught : Page → List Call → Failure → Outcome
caught s calls f = record {
  page = record s { error = some (message_of f); loading = false };
  calls = calls;
  navigates = none;
}

abbrev pub booking_data : Page → BookingData
booking_data s = record {
  booking_room = s.room_id;
  from = s.dates.check_in;
  until = s.dates.check_out;
  requests = if truthy s.dates.special_requests then some s.dates.special_requests else none;
}

unfoldable pub pay : Server → Page → Booked → Outcome
pay sv s b =
    let data_sent : PaymentData = record { booking_id = b.id; amount = b.total_price } in
    let sent = create_booking (booking_data s) ∷ make_payment data_sent ∷ [] in
    elim (sv.pays data_sent) [
      | fails f ↦ caught s sent f
      | answer _ ↦ record {
        page = record s { loading = false };
        calls = sent;
        navigates = some b.id;
      }
    ]

unfoldable pub request : Server → Page → Outcome
request sv s = elim (sv.books (booking_data s)) [
  | fails f ↦ caught s (create_booking (booking_data s) ∷ []) f
  | answer b ↦ pay sv s b
]

abbrev pub chosen : DateText → Bool
chosen none = false
chosen (some d) = true

unfoldable pub handle_confirm : ℕ → ℕ → Server → Page → Outcome
handle_confirm year month sv s =
    if not (chosen s.dates.check_in) || not (chosen s.dates.check_out)
    then stopped s select_dates
    else elim (validate_payment year month s.payment) [
      | some e ↦ stopped s e
      | none ↦ request sv (record s { loading = true; error = none })
    ]

-- The buttons of the steps.
unfoldable pub continue_names : Page → Page
continue_names s =
    if not (truthy (trim s.guest.first_name))
      || (not (truthy (trim s.guest.last_name)) || not (truthy (trim s.guest.email)))
    then record s { error = some fill_names }
    else record s { error = none; step = 2 }

unfoldable pub continue_dates : Page → Page
continue_dates s =
    if not (chosen s.dates.check_in) || not (chosen s.dates.check_out)
    then s
    else record s { step = 3 }

-- A click on the step indicator goes back, never ahead.
unfoldable pub click_step : ℕ → Page → Page
click_step n s = if ltb n s.step then record s { step = n } else s

-- What the page lets a user do: the fields and buttons of a step are there while it is shown.
pub data Event : Type 0 where
  edit_guest : Guest → Event
  edit_dates : Stay → Event
  edit_card : Text → Event
  edit_expiry : Text → Event
  edit_cvv : Text → Event
  next_names next_dates back : Event
  indicator : ℕ → Event
  profile : Profile → Event
  confirm : Event

abbrev shown : ℕ → Page → Page → Page
shown n s t = if s.step == n then t else s

unfoldable pub act : ℕ → ℕ → Server → Event → Page → Page
unfolding continue_names continue_dates click_step sync_profile type_card_number type_cvv
act y m sv (edit_guest g) s = shown 1 s (record s { guest = g })
act y m sv (edit_dates d) s = shown 2 s (record s { dates = d })
act y m sv (edit_card t) s = shown 3 s (type_card_number t s)
act y m sv (edit_expiry t) s = shown 3 s (record s { payment = record s.payment { expiry = t } })
act y m sv (edit_cvv t) s = shown 3 s (type_cvv t s)
act y m sv next_names s = shown 1 s (continue_names s)
act y m sv next_dates s = shown 2 s (continue_dates s)
act y m sv back s = if s.step == 1 then s else record s { step = s.step - 1 }
act y m sv (indicator n) s = if leb 1 n then click_step n s else s
act y m sv (profile p) s = sync_profile p s
act y m sv confirm s = shown 3 s (handle_confirm y m sv s).page

unfoldable pub run : ℕ → ℕ → Server → List Event → Page → Page
unfolding act
run y m sv [] s = s
run y m sv (e ∷ es) s = run y m sv es (act y m sv e s)
