-- ===== src/SearchResults/Races.antt =====
-- SearchResults.jsx: answers that come late, and the filter that hides the button.
use hotel_ms.Common.{
  ℕ, ◌+◌, ◌≡◌, refl, ap, ◌∙◌, ltb, if◌then◌else◌, Bool, true, false, not, ◌&&◌, all, length, List,
  [], ◌∷◌, ◌++◌, Option, some, Text, filter, arith,
}
use hotel_ms.SearchResults.{
  Hotel, SortBy, recommended, rating_desc, name_asc, Request, Results, rated, sorted, displayed,
  more_enabled, load_more, fetch_hotels, fetched, arrive, change_location,
}

-- The hotels of one place show under another: the next page of the old place is under way when the
-- place changes, and its answer comes after the first page of the new place.
pub next_page_of_another_place :
    (place : Text) (server : Request → Option (List Hotel)) (s : Results)
    → s.pending ≡ []
    → let old : Request = record { location = s.location; pg = s.page + 1; append = true } in
      let new : Request = record { location = place; pg = 1; append = false } in
      (old_hotels new_hotels : List Hotel)
      → server old ≡ some old_hotels
      → server new ≡ some new_hotels
      → let t =
          arrive server 0
            (arrive server 1 (change_location place (fetch_hotels (s.page + 1) true s))) in
        (t.location ≡ place) × (t.hotels ≡ new_hotels ++ old_hotels) × (t.page ≡ s.page + 1)
unfolding arrive fetched fetch_hotels change_location
next_page_of_another_place place server s e old_hotels new_hotels a b =
    let late : Results → Results = λ u.
      arrive server 0
        (arrive server 1 (change_location place (fetch_hotels (s.page + 1) true u))) in
    let alone : late s ≡ late (record s { pending = [] }) =
      ap (λ (p : List Request). late (record s { pending = p })) e in
    (
      ap (λ u. u.location) alone ∙ ground (arith, a, b),
      ap (λ u. u.hotels) alone ∙ ground (arith, a, b),
      ap (λ u. u.page) alone ∙ ground (arith, a, b),
    )

none_kept :
    (least : ℕ) (hs : List Hotel)
    → all (λ h. not (rated least h)) hs ≡ true
    → filter (rated least) hs ≡ []
none_kept least [] h = refl
none_kept least (x ∷ hs) h = ground (arith, none_kept least hs)

sorted-nil : (name_le : Text → Text → Bool) (by : SortBy) → sorted name_le by [] ≡ []
sorted-nil name_le recommended = refl
sorted-nil name_le rating_desc = refl
sorted-nil name_le name_asc = refl

-- A rating that no hotel of the pages held so far has stops the paging: the button is gone, although
-- the server may have more pages.
pub filter_stops_paging :
    (name_le : Text → Text → Bool) (s : Results)
    → all (λ h. not (rated s.min_rating h)) s.hotels ≡ true
    → (more_enabled name_le s ≡ false) × (load_more name_le s ≡ s)
unfolding more_enabled load_more displayed
filter_stops_paging name_le s h =
    let off : more_enabled name_le s ≡ false =
      ap (λ hs. ltb 0 (length (sorted name_le s.sort_by hs)) && (s.has_more && not s.loading))
        (none_kept s.min_rating s.hotels h)
      ∙ ap (λ hs. ltb 0 (length hs) && (s.has_more && not s.loading))
          (sorted-nil name_le s.sort_by) in
    (off, ap (λ (b : Bool). if b then fetch_hotels (s.page + 1) true s else s) off)
