-- ===== src/Phone.antt =====
-- frontend/react-app/src/components/PhoneInput.jsx: a phone number as a country and its local
-- digits, shown through a mask and handed to the parent as an E.164 text. The parent keeps the text
-- and gives it back as `value`, and a changed `value` runs the effect that parses it again.
pub mod Countries
pub mod Mask
pub mod Parse
pub mod Typing
pub mod Runs
mod Tests
use hotel_ms.Common.{
  ℕ, ◌==◌, ltb, leb, if◌then◌else◌, Bool, true, false, not, ◌||◌, List, [], ◌∷◌, ◌++◌, map, Option,
  none, some, Text, codes, same, truthy, starts_with, contains, digits_only, to_lower, length, take,
  drop, filter, find, sort, get_elem?,
}
use Countries.{Country, countries}

-- The loop over the mask. Its inner test, whether a digit is left, is the loop's own.
unfoldable pub apply_mask : Text → Text → Text
apply_mask [] mask = []
apply_mask (d ∷ ds) [] = []
apply_mask (d ∷ ds) (m ∷ mask) =
    let digit = d ∷ apply_mask ds mask in
    let separator = m ∷ apply_mask (d ∷ ds) mask in if m == 88 then digit else separator

-- `(a, b) => b.dial.length - a.dial.length`, at most 0
abbrev pub longer_dial : Country → Country → Bool
longer_dial a b = leb (length b.dial) (length a.dial)

abbrev pub has_dial : Text → Country → Bool
has_dial e164 c = starts_with c.dial e164

unfoldable pub parse_e164 : Text → Option (Country × Text)
parse_e164 e164 =
    if not (starts_with (codes "+") e164)
    then none
    else elim (find (has_dial e164) (sort longer_dial countries)) [
      | none ↦ none
      | some c ↦ some (c, digits_only (drop (length c.dial) e164))
    ]

-- The text that `emit` hands to `onChange`.
unfoldable pub emit : Country → Text → Text
emit c new_digits =
    let digits = take c.digits new_digits in if ltb 0 (length digits) then c.dial ++ digits else []

pub record Input : Type 0 where
  pub country : Country
  pub local_digits : Text
  pub is_open : Bool
  pub search : Text
  -- the parent's text, the prop `value`
  pub value : Text

-- The effect on `[value]`.
unfoldable pub parse_value : Text → Input → Input
parse_value value s =
    if not (truthy value) then record s { local_digits = [] } else elim (parse_e164 value) [
      | none ↦ s
      | some (c, ds) ↦ record s { country = c; local_digits = take c.digits ds }
    ]

-- The parent stores what it was handed; the effect runs if the text is another one.
unfoldable pub on_change : Text → Input → Input
unfolding parse_value
on_change e164 s =
    let changed = parse_value e164 (record s { value = e164 }) in
    if same e164 s.value then s else changed

unfoldable pub handle_country_select : Country → Input → Input
handle_country_select c s =
    on_change (emit c s.local_digits) (record s { country = c; is_open = false; search = [] })

unfoldable pub handle_number_input : Text → Input → Input
handle_number_input text s =
    let raw = take s.country.digits (digits_only text) in
    on_change (emit s.country raw) (record s { local_digits = raw })

unfoldable pub display_value : Input → Text
unfolding apply_mask
display_value s = apply_mask s.local_digits s.country.mask

unfoldable pub filtered_countries : Text → List Country
filtered_countries search =
    if truthy search
    then filter
        (λ c.
          contains (to_lower search) (to_lower c.name)
          || (contains search c.dial || contains (to_lower search) (to_lower c.code)))
        countries
    else countries

-- `mask.replace(/X/g, "0")`
unfoldable pub placeholder : Country → Text
placeholder c = map (λ m. if m == 88 then 48 else m) c.mask

-- The button of the countries, a click outside, the search, a click on the n-th country that is
-- listed, and the number's field.
pub data Event : Type 0 where
  toggle outside : Event
  searches : Text → Event
  selects : ℕ → Event
  types : Text → Event

abbrev pub select_listed : Option Country → Input → Input
select_listed none s = s
select_listed (some c) s = handle_country_select c s

unfoldable pub step : Event → Input → Input
step toggle s = record s { is_open = not s.is_open }
step outside s = record s { is_open = false }
step (searches t) s = if s.is_open then record s { search = t } else s
step (selects n) s =
    if s.is_open then select_listed (get_elem? (filtered_countries s.search) n) s else s
step (types t) s = handle_number_input t s

unfoldable pub run : List Event → Input → Input
unfolding step
run [] s = s
run (e ∷ es) s = run es (step e s)
