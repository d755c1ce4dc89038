-- ===== src/SearchResults/Paging.antt =====
-- SearchResults.jsx: the pages, clicked one after the other, against the whole list of the server.
use hotel_ms.Common.{
  ℕ, zero, suc, ◌+◌, ◌-◌, ◌*◌, ◌/◌, ◌≤◌, ◌<◌, ◌≡◌, refl, sym, ap, ◌∙◌, ◌==◌, leb, if◌then◌else◌,
  Bool, true, false, List, [], ◌∷◌, ◌++◌, Option, some, Text, filter, length, take, drop, take-all,
  In, here, min, In-sort, In-filter, Bool-cases, inl, inr, arith, subst,
}
use hotel_ms.SearchResults.{
  Hotel, SortBy, recommended, rating_desc, name_asc, Request, Results, better, rated, sorted,
  displayed, more_enabled, load_more, fetch_hotels, fetched, arrive,
}

-- The abstract view: a list is served in pages, and what is shown is always its first part.
abbrev pub page_of : List Hotel → ℕ → List Hotel
page_of all pg = take 20 (drop (20 * (pg - 1)) all)

abbrev pub serves : List Hotel → Request → Option (List Hotel)
serves all r = some (page_of all r.pg)

pub record Shows (all : List Hotel) (s : Results) : Type 0 where
  pub some_page : 1 ≤ s.page
  pub first_part : s.hotels ≡ take (20 * s.page) all
  pub more : s.has_more ≡ leb (20 * s.page) (length all)
  pub idle : s.loading ≡ false
  pub alone : s.pending ≡ []
  pub unfiltered : s.min_rating ≡ 0

length-take {ℓ} : {A : Type ℓ} (n : ℕ) (xs : List A) → length (take n xs) ≡ min n (length xs)
length-take zero xs = omega arith
length-take (suc n) [] = omega arith
length-take (suc n) (x ∷ xs) = omega (arith, length-take n xs)

length-drop {ℓ} : {A : Type ℓ} (n : ℕ) (xs : List A) → length (drop n xs) ≡ length xs - n
length-drop zero xs = omega arith
length-drop (suc n) [] = omega arith
length-drop (suc n) (x ∷ xs) = omega (arith, length-drop n xs)

take-nil {ℓ} : {A : Type ℓ} (n : ℕ) → take {A = A} n [] ≡ []
take-nil zero = refl
take-nil (suc n) = refl

take-add {ℓ} :
    {A : Type ℓ} (m k : ℕ) (xs : List A) → take (m + k) xs ≡ take m xs ++ take k (drop m xs)
take-add zero k xs = ap (λ n. take n xs) (omega arith)
take-add (suc m) k [] = take-nil (suc m + k) ∙ sym (take-nil k)
take-add (suc m) k (x ∷ xs) =
    let e : suc m + k ≡ suc (m + k) = omega arith in
    ap (λ n. take n (x ∷ xs)) e ∙ ap (λ t. x ∷ t) (take-add m k xs)

-- A page is full exactly if the list reaches to its end.
full_page :
    (all : List Hotel) (pg : ℕ)
    → 1 ≤ pg
    → 20 * (pg - 1) ≤ length all
    → (length (page_of all pg) == 20) ≡ leb (20 * pg) (length all)
full_page all pg h k =
    let e : length (page_of all pg) ≡ min 20 (length all - 20 * (pg - 1)) =
      length-take 20 (drop (20 * (pg - 1)) all) ∙ ap (min 20) (length-drop (20 * (pg - 1)) all) in
    ground (arith, e)

In-length {ℓ} : {A : Type ℓ} {a : A} (xs : List A) → In a xs → 0 < length xs
In-length [] m = elim m [ ]
In-length (x ∷ xs) m = omega arith

module _ (name_le : Text → Text → Bool) where
  In-sorted : (by : SortBy) {h : Hotel} {hs : List Hotel} → In h hs → In h (sorted name_le by hs)
  In-sorted recommended m = m
  In-sorted rating_desc m = In-sort better m
  In-sorted name_asc m = In-sort (λ a b. name_le a.name b.name) m

  displayed_pos :
      (hs : List Hotel) (s : Results)
      → s.hotels ≡ hs
      → 0 < length hs
      → s.min_rating ≡ 0
      → 0 < length (displayed name_le s)
  unfolding displayed
  displayed_pos [] s e h r = absurd (omega arith)
  displayed_pos (x ∷ hs) s e h r =
      let kept : In x (filter (rated s.min_rating) s.hotels) =
        In-filter (rated s.min_rating) (rw e here) (rw r (ground arith)) in
      In-length _ (In-sorted s.sort_by kept)

  shown_pos :
      (all : List Hotel) (s : Results) → Shows all s → s.has_more ≡ true → 0 < length s.hotels
  shown_pos all s v h =
      let l : length s.hotels ≡ min (20 * s.page) (length all) =
        ap length v.first_part ∙ length-take (20 * s.page) all in
      ground (arith, l, v.more, v.some_page)

  enabled : (all : List Hotel) (s : Results) → Shows all s → more_enabled name_le s ≡ s.has_more
  unfolding more_enabled
  enabled all s v = elim (Bool-cases s.has_more) [
    | inr e ↦ ground (arith, e)
    | inl e ↦
        ground (arith, e, v.idle, displayed_pos s.hotels s refl (shown_pos all s v e) v.unfiltered)
  ]

  -- One click, and the answer to it.
  abbrev pub click : List Hotel → Results → Results
  click all s = arrive (serves all) 0 (load_more name_le s)

  answered :
      (server : Request → Option (List Hotel)) (pg : ℕ) (append : Bool) (s : Results)
      → s.pending ≡ []
      → let r : Request = record { location = s.location; pg = pg; append = append } in
        arrive server 0 (fetch_hotels pg append s)
        ≡ fetched r (server r) (record s { loading = true; error = false; pending = [] })
  unfolding arrive fetch_hotels
  answered server pg append s e =
      ap (λ (p : List Request). arrive server 0 (fetch_hotels pg append (record s { pending = p })))
        e

  click_done : (all : List Hotel) (s : Results) → Shows all s → s.has_more ≡ false → click all s ≡ s
  unfolding arrive load_more
  click_done all s v h =
      ap (λ (b : Bool). arrive (serves all) 0 (if b then fetch_hotels (s.page + 1) true s else s))
        (enabled all s v ∙ h)
      ∙ ap (λ (p : List Request). arrive (serves all) 0 (record s { pending = p })) v.alone
      ∙ ap (λ (p : List Request). record s { pending = p }) (sym v.alone)

  click_more :
      (all : List Hotel) (s : Results)
      → Shows all s
      → s.has_more ≡ true
      → click all s
        ≡ fetched
            (record { location = s.location; pg = s.page + 1; append = true })
            (some (page_of all (s.page + 1)))
            (record s { loading = true; error = false; pending = [] })
  unfolding load_more
  click_more all s v h =
      ap (λ (b : Bool). arrive (serves all) 0 (if b then fetch_hotels (s.page + 1) true s else s))
        (enabled all s v ∙ h)
      ∙ answered (serves all) (s.page + 1) true s v.alone

  click-Shows :
      (all : List Hotel) (s : Results)
      → Shows all s
      → s.has_more ≡ true
      → Shows all (click all s) × ((click all s).page ≡ s.page + 1)
  unfolding fetched
  click-Shows all s v h =
      let within : 20 * s.page ≤ length all = ground (arith, v.more) in
      let at : 20 * (s.page + 1 - 1) ≡ 20 * s.page = omega arith in
      let total : 20 * s.page + 20 ≡ 20 * (s.page + 1) = omega arith in
      subst (λ u. Shows all u × (u.page ≡ s.page + 1)) (sym (click_more all s v h))
        (
          record {
            some_page = omega arith;
            first_part =
                ap (λ t. t ++ page_of all (s.page + 1)) v.first_part
                ∙ ap (λ n. take (20 * s.page) all ++ take 20 (drop n all)) at
                ∙ sym (take-add (20 * s.page) 20 all)
                ∙ ap (λ n. take n all) total;
            more = full_page all (s.page + 1) (omega arith) (omega (arith, within));
            idle = refl;
            alone = refl;
            unfiltered = v.unfiltered;
          },
          refl,
        )

  -- As many clicks as there are rounds.
  abbrev pub clicks : List Hotel → ℕ → Results → Results
  clicks all zero s = s
  clicks all (suc n) s = clicks all n (click all s)

  -- The first answer to a search establishes the abstract view.
  first-Shows :
      (all : List Hotel) (s : Results)
      → s.pending ≡ []
      → s.min_rating ≡ 0
      → Shows all (arrive (serves all) 0 (fetch_hotels 1 false s))
  unfolding fetched
  first-Shows all s e r = subst (Shows all) (sym (answered (serves all) 1 false s e)) (record {
    some_page = omega arith;
    first_part = refl;
    more = full_page all 1 (omega arith) (omega arith);
    idle = refl;
    alone = refl;
    unfiltered = r;
  })

  first_page :
      (all : List Hotel) (s : Results)
      → s.pending ≡ []
      → (arrive (serves all) 0 (fetch_hotels 1 false s)).page ≡ 1
  unfolding fetched
  first_page all s e = ap (λ u. u.page) (answered (serves all) 1 false s e)

  clicks-reach :
      (all : List Hotel) (n : ℕ) (s : Results)
      → Shows all s
      → length all < 20 * (s.page + n)
      → ((clicks all n s).hotels ≡ all) × ((clicks all n s).has_more ≡ false)
  clicks-reach all zero s v h =
      (v.first_part ∙ take-all (20 * s.page) all (omega (arith, h)), v.more ∙ ground (arith, h))
  clicks-reach all (suc n) s v h = elim (Bool-cases s.has_more) [
    | inl e ↦
        let (w, p) = click-Shows all s v e in
        clicks-reach all n (click all s) w (omega (arith, p, h))
    | inr e ↦
        subst (λ u. ((clicks all n u).hotels ≡ all) × ((clicks all n u).has_more ≡ false))
          (sym (click_done all s v e)) (clicks-reach all n s v (ground (arith, e, v.more)))
  ]

  -- Browsing refines the whole list: where no rating is asked for and no other request is under way,
  -- after each number of clicks what is held is the first part of the server's list, as many
  -- twenties as the page's number says.
  pub clicks-Shows :
      (all : List Hotel) (n : ℕ) (s : Results)
      → s.pending ≡ []
      → s.min_rating ≡ 0
      → Shows all (clicks all n (arrive (serves all) 0 (fetch_hotels 1 false s)))
  clicks-Shows all n s e r =
      go n (arrive (serves all) 0 (fetch_hotels 1 false s)) (first-Shows all s e r)
    where
      go : (k : ℕ) (t : Results) → Shows all t → Shows all (clicks all k t)
      go zero t v = v
      go (suc k) t v = elim (Bool-cases t.has_more) [
        | inl h ↦ go k (click all t) (click-Shows all t v h).0
        | inr h ↦ rw (click_done all t v h) (go k t v)
      ]

  -- Loading more ends: where no rating is asked for and no other request is under way, one click for
  -- each full twenty of the server's list is enough to hold the whole list, each hotel once and in the
  -- server's order, with the button gone.
  pub load_more_ends :
      (all : List Hotel) (s : Results)
      → s.pending ≡ []
      → s.min_rating ≡ 0
      → let t = clicks all (length all / 20) (arrive (serves all) 0 (fetch_hotels 1 false s)) in
        (t.hotels ≡ all) × (t.has_more ≡ false) × (more_enabled name_le t ≡ false)
  load_more_ends all s e r =
      let t = arrive (serves all) 0 (fetch_hotels 1 false s) in
      let n : ℕ = length all / 20 in
      let (held, gone) =
        clicks-reach all n t (first-Shows all s e r) (omega (arith, first_page all s e)) in
      (held, gone, enabled all (clicks all n t) (clicks-Shows all n s e r) ∙ gone)
