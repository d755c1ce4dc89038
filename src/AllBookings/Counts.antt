-- ===== src/AllBookings/Counts.antt =====
-- AllBookings.jsx `doStatusChange`: the counts of the tabs.
use hotel_ms.Common.{
  ℕ, suc, ◌+◌, ◌<◌, ◌≡◌, refl, sym, ap, ◌∙◌, ◌==◌, ==_iff, Bool, true, false, List, [], ◌∷◌, some,
  find, length, arith, Bool-cases, inl, inr, subst, if◌then◌else◌,
}
use mathlib.Core.Option.{some-injective}
use hotel_ms.AllBookings.{
  Status, pending, confirmed, completed, cancelled, same_status, Booking, Table, count_status,
  counts_of, set_status, has_id, decrement, move_count, old_status, finish_change,
}

-- No two bookings have one id.
abbrev Absent : ℕ → List Booking → Type 0
Absent id [] = Unit {0}
Absent id (b ∷ bs) = ((b.id == id) ≡ false) × Absent id bs

abbrev pub DistinctIds : List Booking → Type 0
DistinctIds [] = Unit {0}
DistinctIds (b ∷ bs) = Absent b.id bs × DistinctIds bs

set_status-Absent :
    (id : ℕ) (st : Status) (bs : List Booking) → Absent id bs → set_status id st bs ≡ bs
unfolding set_status
set_status-Absent id st [] h = refl
set_status-Absent id st (b ∷ bs) h = rw h.0 (ap (λ t. b ∷ t) (set_status-Absent id st bs h.1))

same_status_refl : (st : Status) → same_status st st ≡ true
same_status_refl pending = refl
same_status_refl confirmed = refl
same_status_refl completed = refl
same_status_refl cancelled = refl

count-cons :
    (b : Booking) (bs : List Booking) (st : Status)
    → count_status (b ∷ bs) st
      ≡ (if same_status b.status st then count_status bs st + 1 else count_status bs st)
unfolding count_status
count-cons b bs st = ground arith

find-hit :
    (id : ℕ) (x : Booking) (bs : List Booking)
    → (x.id == id) ≡ true
    → find (has_id id) (x ∷ bs) ≡ some x
find-hit id x bs h = rw h refl

find-miss :
    (id : ℕ) (x : Booking) (bs : List Booking)
    → (x.id == id) ≡ false
    → find (has_id id) (x ∷ bs) ≡ find (has_id id) bs
find-miss id x bs h = rw h refl

count-found :
    (id : ℕ) (bs : List Booking) {b : Booking}
    → find (has_id id) bs ≡ some b
    → 0 < count_status bs b.status
count-found id [] e = absurd (cc)
count-found id (x ∷ bs) {b} e = elim (Bool-cases (x.id == id)) [
  | inl h ↦
      let same : x ≡ b = some-injective x b (sym (find-hit id x bs h) ∙ e) in
      let c = count-cons x bs x.status in
      let r = same_status_refl x.status in
      let p : 0 < count_status (x ∷ bs) x.status = ground arith in
      subst (λ y. 0 < count_status (x ∷ bs) y.status) same p
  | inr h ↦
      let rest = count-found id bs (sym (find-miss id x bs h) ∙ e) in
      let c = count-cons x bs b.status in ground arith
]

set_status-hit :
    (id : ℕ) (new : Status) (x : Booking) (bs : List Booking)
    → Absent x.id bs
    → (x.id == id) ≡ true
    → set_status id new (x ∷ bs) ≡ (record x { status = new }) ∷ bs
unfolding set_status
set_status-hit id new x bs a h =
    let same : x.id ≡ id = (==_iff x.id id).0 h in
    rw h (
      ap (λ t. (record x { status = new }) ∷ t)
        (set_status-Absent id new bs (subst (λ i. Absent i bs) same a)))

set_status-miss :
    (id : ℕ) (new : Status) (x : Booking) (bs : List Booking)
    → (x.id == id) ≡ false
    → set_status id new (x ∷ bs) ≡ x ∷ set_status id new bs
unfolding set_status
set_status-miss id new x bs h = rw h refl

count-set_status :
    (id : ℕ) (new st : Status) (bs : List Booking) {b : Booking}
    → DistinctIds bs
    → find (has_id id) bs ≡ some b
    → count_status (set_status id new bs) st ≡ (
        if same_status new st
        then decrement (some b.status) (count_status bs) st + 1
        else decrement (some b.status) (count_status bs) st)
unfolding decrement
count-set_status id new st [] d e = absurd (cc)
count-set_status id new st (x ∷ bs) {b} d e = elim (Bool-cases (x.id == id)) [
  | inl h ↦
      let same : x.status ≡ b.status =
        ap (λ y. y.status) (some-injective x b (sym (find-hit id x bs h) ∙ e)) in
      let r = same_status_refl x.status in
      let c = count-cons x bs st in
      let f = count-cons x bs x.status in
      let n = count-cons (record x { status = new }) bs st in
      rw (set_status-hit id new x bs d.0 h, sym same) (ground arith)
  | inr h ↦
      let e2 = sym (find-miss id x bs h) ∙ e in
      let rest = count-set_status id new st bs d.1 e2 in
      let p = count-found id bs e2 in
      let c = count-cons x bs st in
      let f = count-cons x bs b.status in
      let n = count-cons x (set_status id new bs) st in
      rw (set_status-miss id new x bs h) (ground arith)
]

length-set_status :
    (id : ℕ) (new : Status) (bs : List Booking) → length (set_status id new bs) ≡ length bs
unfolding set_status
length-set_status id new [] = refl
length-set_status id new (b ∷ bs) = ap suc (length-set_status id new bs)

move_count-counts_of :
    (id : ℕ) (new : Status) (bs : List Booking) {b : Booking}
    → DistinctIds bs
    → find (has_id id) bs ≡ some b
    → move_count (some b.status) new (counts_of bs) ≡ counts_of (set_status id new bs)
unfolding move_count counts_of
move_count-counts_of id new bs {b} d f = λ i. record {
  all_bookings = sym (length-set_status id new bs) i;
  count = λ st. sym (count-set_status id new st bs d f) i;
}

-- Where no two bookings share an id and the list that the change has captured has the booking's
-- present status, the answer to the change, an error too, keeps the counts of the tabs right: if they
-- were the counts of the shown list, they are the counts of the list behind the answer.
pub counts_stay_right :
    (id : ℕ) (new : Status) (captured : List Booking) (ok : Bool) (s : Table) {b : Booking}
    → DistinctIds s.bookings
    → find (has_id id) s.bookings ≡ some b
    → old_status id captured ≡ some b.status
    → s.tab_counts ≡ counts_of s.bookings
    → (finish_change id new captured ok s).tab_counts
      ≡ counts_of (finish_change id new captured ok s).bookings
unfolding finish_change
counts_stay_right id new captured true s {b} d f o h =
    ap (λ c. move_count (old_status id captured) new c) h
    ∙ ap (λ o. move_count o new (counts_of s.bookings)) o
    ∙ move_count-counts_of id new s.bookings d f
counts_stay_right id new captured false s d f o h = h
