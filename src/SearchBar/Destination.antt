-- ===== src/SearchBar/Destination.antt =====
-- BookingSearchBar.jsx: suggestions that come late.
use hotel_ms.Common.{◌≡◌, ap, ◌∙◌, true, List, [], Option, some, Text, truthy, trim, arith}
use hotel_ms.SearchBar.{
  Hotel, Bar, fetch_suggestions, suggested, arrive, handle_dest_change, timer_fires,
  select_suggestion,
}

-- The suggestions for an earlier text stand under a later one: both are asked for, and the answer to
-- the later one comes first.
pub older_suggestions :
    (server : Text → Option (List Hotel)) (old new : Text) (old_hotels new_hotels : List Hotel)
    (s : Bar)
    → s.pending ≡ []
    → truthy (trim old) ≡ true
    → truthy (trim new) ≡ true
    → server old ≡ some old_hotels
    → server new ≡ some new_hotels
    → let type : Text → Bar → Bar = λ q u. timer_fires (handle_dest_change q u) in
      let t = arrive server 0 (arrive server 1 (type new (type old s))) in
      (t.destination ≡ new) × (t.suggestions ≡ old_hotels) × (t.show_suggestions ≡ true)
unfolding arrive suggested timer_fires fetch_suggestions handle_dest_change
older_suggestions server old new old_hotels new_hotels s e a b p q =
    let late : Bar → Bar = λ u. arrive server 0 (
      arrive server 1
        (timer_fires (handle_dest_change new (timer_fires (handle_dest_change old u))))) in
    let alone : late s ≡ late (record s { pending = [] }) =
      ap (λ (ws : List Text). late (record s { pending = ws })) e in
    (
      ap (λ u. u.destination) alone ∙ ground (arith, a, b, p, q),
      ap (λ u. u.suggestions) alone ∙ ground (arith, a, b, p, q),
      ap (λ u. u.show_suggestions) alone ∙ ground (arith, a, b, p, q),
    )

-- The list opens again behind a choice: a suggestion is clicked within the 300 ms of the last key, and
-- the timer, which the click does not stop, asks for the text that was typed.
pub list_opens_again :
    (server : Text → Option (List Hotel)) (val : Text) (h : Hotel) (hotels : List Hotel) (s : Bar)
    → s.pending ≡ []
    → truthy (trim val) ≡ true
    → truthy h.city ≡ true
    → server val ≡ some hotels
    → let t = arrive server 0 (timer_fires (select_suggestion h (handle_dest_change val s))) in
      (t.destination ≡ h.city) × (t.suggestions ≡ hotels) × (t.show_suggestions ≡ true)
unfolding arrive suggested timer_fires fetch_suggestions handle_dest_change select_suggestion
list_opens_again server val h hotels s e a c p =
    let late : Bar → Bar =
      λ u. arrive server 0 (timer_fires (select_suggestion h (handle_dest_change val u))) in
    let alone : late s ≡ late (record s { pending = [] }) =
      ap (λ (ws : List Text). late (record s { pending = ws })) e in
    (
      ap (λ u. u.destination) alone ∙ ground (arith, a, c, p),
      ap (λ u. u.suggestions) alone ∙ ground (arith, a, c, p),
      ap (λ u. u.show_suggestions) alone ∙ ground (arith, a, c, p),
    )
