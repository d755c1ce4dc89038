-- ===== src/AllGuests/Shown.antt =====
-- AllGuests.jsx: which guests are listed.
use hotel_ms.Common.{
  ℕ, ◌≡◌, Bool, true, List, Text, filter, In, In-filter, filter-In, In-sort, sort-In,
}
use hotel_ms.AllGuests.{Guest, Page, SortBy, joined, name, points, matches, sorted, filtered}

module _ (name_le : Text → Text → Bool) (time : Text → ℕ) where
  sorted-both :
      (by : SortBy) (gs : List Guest) {g : Guest}
      → (In g gs → In g (sorted name_le time by gs)) × (In g (sorted name_le time by gs) → In g gs)
  sorted-both joined gs = (λ m. In-sort _ m, λ m. sort-In _ gs m)
  sorted-both name gs = (λ m. In-sort _ m, λ m. sort-In _ gs m)
  sorted-both points gs = (λ m. In-sort _ m, λ m. sort-In _ gs m)

  -- The page lists exactly the guests whose name or address contains the search, with letters of
  -- either size, and that fit the filter, in each of the three orders.
  pub filtered_lem :
      (s : Page) (g : Guest)
      → (In g (filtered name_le time s) → In g s.guests × (matches s g ≡ true))
        × (In g s.guests × (matches s g ≡ true) → In g (filtered name_le time s))
  unfolding filtered
  filtered_lem s g = (
    λ m. filter-In (matches s) s.guests ((sorted-both s.sort_by (filter (matches s) s.guests)).1 m),
    λ (m, h). (sorted-both s.sort_by (filter (matches s) s.guests)).0 (In-filter (matches s) m h),
  )
