-- ===== src/Phone/Runs.antt =====
-- PhoneInput.jsx: the field through every sequence of its handlers.
use hotel_ms.Common.{
  ℕ, zero, suc, ◌≡◌, refl, if◌then◌else◌, Bool, true, false, List, [], ◌∷◌, Option, none, some,
  Text, truthy, get_elem?, filter-In, In, here, there, Bool-cases, inl, inr, subst,
}
use mathlib.Core.Option.{some-injective}
use hotel_ms.Phone.Countries.{Country, countries}
use hotel_ms.Phone.{
  Input, filtered_countries, Event, toggle, outside, searches, selects, types, step, run,
  select_listed,
}
use hotel_ms.Phone.Typing.{IsValid, handle_number_input-IsValid, handle_country_select-IsValid}

get_elem?-In {ℓ} : {A : Type ℓ} (xs : List A) (n : ℕ) {a : A} → get_elem? xs n ≡ some a → In a xs
get_elem?-In [] n e = absurd (cc)
get_elem?-In (x ∷ xs) zero {a} e = subst (λ b. In b (x ∷ xs)) (some-injective x a e) here
get_elem?-In (x ∷ xs) (suc n) e = there (get_elem?-In xs n e)

listed-In : (search : Text) (c : Country) → In c (filtered_countries search) → In c countries
unfolding filtered_countries
listed-In search c m = elim (Bool-cases (truthy search)) [
  | inl e ↦ (filter-In _ countries (rw e at m)).0
  | inr e ↦ rw e at m
]

if-IsValid : (b : Bool) (s t : Input) → IsValid s → IsValid t → IsValid (if b then s else t)
if-IsValid true s t v w = v
if-IsValid false s t v w = w

select_listed-IsValid :
    (o : Option Country) (n : ℕ) (s : Input)
    → get_elem? (filtered_countries s.search) n ≡ o
    → IsValid s
    → IsValid (select_listed o s)
select_listed-IsValid none n s e v = v
select_listed-IsValid (some c) n s e v =
    (handle_country_select-IsValid c s v (listed-In s.search c (get_elem?-In _ n e))).0

step-IsValid : (e : Event) (s : Input) → IsValid s → IsValid (step e s)
unfolding step
step-IsValid toggle s v = record { known = v.known; numeric = v.numeric; emitted = v.emitted }
step-IsValid outside s v = record { known = v.known; numeric = v.numeric; emitted = v.emitted }
step-IsValid (searches t) s v =
    if-IsValid s.is_open (record s { search = t }) s
      (record { known = v.known; numeric = v.numeric; emitted = v.emitted }) v
step-IsValid (selects n) s v =
    if-IsValid s.is_open (select_listed (get_elem? (filtered_countries s.search) n) s) s
      (select_listed-IsValid (get_elem? (filtered_countries s.search) n) n s refl v) v
step-IsValid (types t) s v = (handle_number_input-IsValid t s v).0

-- Whatever is clicked and typed, from a valid field: the country is one of the table, the local number
-- consists of digits, and the parent has the text that stands for both.
pub field_in_step : (es : List Event) (s : Input) → IsValid s → IsValid (run es s)
unfolding run
field_in_step [] s v = v
field_in_step (e ∷ es) s v = field_in_step es (step e s) (step-IsValid e s v)
