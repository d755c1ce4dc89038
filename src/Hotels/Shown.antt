-- ===== src/Hotels/Shown.antt =====
-- Hotels.jsx `filteredRooms`: which rooms the filters leave, and in which order.
use hotel_ms.Common.{
  Text, ◌≤◌, ◌≡◌, refl, ◌↔◌, ◌⊎◌, inl, inr, ltb, Bool, true, false, List, [], ◌∷◌, ◌++◌, same,
  length, filter, any, In, In-filter, filter-In, InOrder, sort-InOrder, In-sort, sort-In, arith,
}
use hotel_ms.Hotels.{
  same_category, Room, Filters, SortBy, recommended, price_asc, price_desc, by_rating, allowed,
  holds, passes, cheaper, dearer, better, sorted, filtered_rooms, has_active_filters, clear_filters,
  step, toggle_amenity,
}

-- A room that the filters ask for: its price is in the range, and the lists of types and of sizes are
-- each empty or have one that fits.
pub record IsWanted (f : Filters) (r : Room) : Type 0 where
  pub not_below : f.low ≤ r.price_per_night
  pub not_above : r.price_per_night ≤ f.high
  pub of_type : (f.types ≡ []) ⊎ (any (same_category r.category) f.types ≡ true)
  pub of_size : (f.caps ≡ []) ⊎ (any (holds r.capacity) f.caps ≡ true)

allowed_iff {ℓ} :
    {A : Type ℓ} (p : A → Bool) (xs : List A)
    → (allowed p xs ≡ true) ↔ ((xs ≡ []) ⊎ (any p xs ≡ true))
allowed_iff p [] = (λ h. inl refl, λ h. refl)
allowed_iff p (x ∷ xs) = (λ h. inr h, λ h. elim h [ inl e ↦ absurd (cc) | inr e ↦ e ])

passes-IsWanted : (f : Filters) (r : Room) → passes f r ≡ true → IsWanted f r
unfolding passes
passes-IsWanted f r h = record {
  not_below = ground arith;
  not_above = ground arith;
  of_type = (allowed_iff (same_category r.category) f.types).0 (ground arith);
  of_size = (allowed_iff (holds r.capacity) f.caps).0 (ground arith);
}

IsWanted-passes : (f : Filters) (r : Room) → IsWanted f r → passes f r ≡ true
unfolding passes
IsWanted-passes f r w =
    let t = (allowed_iff (same_category r.category) f.types).1 w.of_type in
    let c = (allowed_iff (holds r.capacity) f.caps).1 w.of_size in
    let a = w.not_below in let b = w.not_above in ground arith

sorted-In : (s : SortBy) (rooms : List Room) {r : Room} → In r (sorted s rooms) → In r rooms
sorted-In recommended rooms m = m
sorted-In price_asc rooms m = sort-In cheaper rooms m
sorted-In price_desc rooms m = sort-In dearer rooms m
sorted-In by_rating rooms m = sort-In better rooms m

In-sorted : (s : SortBy) (rooms : List Room) {r : Room} → In r rooms → In r (sorted s rooms)
In-sorted recommended rooms m = m
In-sorted price_asc rooms m = In-sort cheaper m
In-sorted price_desc rooms m = In-sort dearer m
In-sorted by_rating rooms m = In-sort better m

-- The page shows exactly the rooms of the list whose price is in the range and that fit one of the
-- chosen types and one of the chosen sizes, where any of these are chosen. The chosen amenities do not
-- matter.
pub filtered_rooms_lem :
    (f : Filters) (rooms : List Room) (r : Room)
    → In r (filtered_rooms f rooms) ↔ (In r rooms × IsWanted f r)
unfolding filtered_rooms
filtered_rooms_lem f rooms r = (
  λ m.
      let (k, p) = filter-In (passes f) rooms (sorted-In f.sort_by (filter (passes f) rooms) m) in
      (k, passes-IsWanted f r p),
  λ w.
      In-sorted f.sort_by (filter (passes f) rooms)
        (In-filter (passes f) w.0 (IsWanted-passes f r w.1)),
)

-- Under the two orders by price, each room that is shown costs at most as much as the next one, and
-- at least as much.
pub filtered_rooms-InOrder :
    (f : Filters) (rooms : List Room)
    → (f.sort_by ≡ price_asc → InOrder cheaper (filtered_rooms f rooms))
      × (f.sort_by ≡ price_desc → InOrder dearer (filtered_rooms f rooms))
unfolding filtered_rooms passes
filtered_rooms-InOrder f rooms = (
  λ e. rw e (sort-InOrder cheaper (λ x y h. ground arith) (filter (passes f) rooms)),
  λ e. rw e (sort-InOrder dearer (λ x y h. ground arith) (filter (passes f) rooms)),
)

-- After the filters are cleared none of them is active, and a room is shown exactly if it is in the
-- list and costs at most 2400: a dearer room is hidden although no filter is active.
pub cleared_hides_dear :
    (f : Filters) (rooms : List Room) (r : Room)
    → (has_active_filters (clear_filters f) ≡ false)
      × (In r (filtered_rooms (clear_filters f) rooms) ↔ (In r rooms × (r.price_per_night ≤ 2400)))
unfolding has_active_filters clear_filters
cleared_hides_dear f rooms r =
    let lem = filtered_rooms_lem (clear_filters f) rooms r in
    (
      refl,
      (
        λ m. let w = lem.0 m in (w.0, w.1.not_above),
        λ w. lem.1 (
          w.0,
          record {
            not_below = omega arith;
            not_above = w.1;
            of_type = inl refl;
            of_size = inl refl;
          },
        ),
      ),
    )

length-append_one : (a : Text) (xs : List Text) → ltb 0 (length (xs ++ a ∷ [])) ≡ true
length-append_one a [] = refl
length-append_one a (x ∷ xs) = ground arith

-- Choosing an amenity that is not chosen yet makes a filter active, and changes nothing of what is
-- shown.
pub amenities_ignored :
    (a : Text) (f : Filters) (rooms : List Room)
    → any (same a) f.amenities ≡ false
    → (has_active_filters (step (toggle_amenity a) f) ≡ true)
      × (filtered_rooms (step (toggle_amenity a) f) rooms ≡ filtered_rooms f rooms)
unfolding filtered_rooms step passes has_active_filters
amenities_ignored a f rooms h = (rw h (ground (arith, length-append_one a f.amenities)), refl)
