-- ===== src/Calendar/Days.antt =====
-- Days and civil dates: the two readings are inverse, and what `new Date(y, m + 1, 0)` gives.
use hotel_ms.Common.{
  ℕ, zero, suc, ◌+◌, ◌-◌, ◌/◌, ◌%◌, ◌≤◌, ◌<◌, ◌≡◌, refl, ap, ◌∙◌, ltb, ltb→lt, arith, Bool-cases,
  inl, inr,
}
use native.Mathlib.Nat.{add-zero}
use native.Mathlib.Decide.{dec_lt}
use hotel_ms.Calendar.{
  Ymd, is_leap, month_length, year_length, span, split_span, day_number, civil, get_date,
}

split_span-span :
    (len : ℕ → ℕ) (j fuel i k : ℕ)
    → j < fuel
    → k < len (i + j)
    → split_span len fuel i (span len i j + k) ≡ (i + j, k)
unfolding split_span span
split_span-span len zero zero i k hf hk = absurd (omega arith)
split_span-span len zero (suc fuel) i k hf hk =
    let at_i : len (i + 0) ≡ len i = ap len (omega arith) in ground (arith, at_i)
split_span-span len (suc j) zero i k hf hk = absurd (omega arith)
split_span-span len (suc j) (suc fuel) i k hf hk =
    let at_j : i + suc j ≡ suc i + j = omega arith in
    let cut : len i + span len (suc i) j + k - len i ≡ span len (suc i) j + k = omega arith in
    rw (at_j, cut)
      (ground (arith, split_span-span len j fuel (suc i) k (omega arith) (rw at_j at hk)))

pub span-suc : (len : ℕ → ℕ) (i j : ℕ) → span len i (suc j) ≡ span len i j + len (i + j)
unfolding span
span-suc len i zero = let at_i : len (i + 0) ≡ len i = ap len (omega arith) in omega arith
span-suc len i (suc j) =
    let at_j : len (i + suc j) ≡ len (suc i + j) = ap len (omega arith) in
    omega (arith, span-suc len (suc i) j)

le-span : (len : ℕ → ℕ) → ((n : ℕ) → 0 < len n) → (i j : ℕ) → j ≤ span len i j
unfolding span
le-span len h i zero = omega arith
le-span len h i (suc j) = omega (arith, h i, le-span len h (suc i) j)

pub year_length-pos : (y : ℕ) → 0 < year_length y
unfolding year_length
year_length-pos y = ground arith

pub month_length-pos : (y m : ℕ) → 0 < month_length y m
unfolding month_length
month_length-pos y m = ground arith

-- A year is its twelve months.
pub year_length-span : (y : ℕ) → year_length y ≡ span (month_length y) 0 12
unfolding year_length span month_length
year_length-span y = elim (Bool-cases (is_leap y)) [ inl e ↦ rw e refl | inr e ↦ rw e refl ]

month_length-eq : (y m n : ℕ) → m ≡ n → month_length y m ≡ month_length y n
month_length-eq y m n e = ap (month_length y) e

-- A civil date of the calendar, months counted from 0.
pub record IsDate (d : Ymd) : Type 0 where
  pub month_ok : d.month < 12
  pub day_pos : 0 < d.day
  pub day_ok : d.day ≤ month_length d.year d.month

span-zero : (len : ℕ → ℕ) → span len 0 0 ≡ 0
unfolding span
span-zero len = refl

pub zero_plus : (n : ℕ) → 0 + n ≡ n
zero_plus n = omega arith

split_from_zero :
    (len : ℕ → ℕ) (j fuel k : ℕ)
    → j < fuel
    → k < len j
    → split_span len fuel 0 (span len 0 j + k) ≡ (j, k)
split_from_zero len j fuel k hf hk =
    rw (zero_plus j) at (split_span-span len j fuel 0 k hf (rw (zero_plus j) hk))

pub span-le-add : (len : ℕ → ℕ) (i j e : ℕ) → span len i j ≤ span len i (j + e)
span-le-add len i j zero = omega (arith, ap (span len i) (add-zero j))
span-le-add len i j (suc e) =
    let next : j + suc e ≡ suc (j + e) = omega arith in
    omega (arith, ap (span len i) next, span-suc len i (j + e), span-le-add len i j e)

-- The day of the year, from 0, lies within the year.
within_year :
    (d : Ymd) → IsDate d → span (month_length d.year) 0 d.month + (d.day - 1) < year_length d.year
within_year d v =
    let len : ℕ → ℕ = month_length d.year in
    let whole : suc d.month + (11 - d.month) ≡ 12 = omega (arith, v.month_ok) in
    omega (
      arith,
      v.day_ok,
      v.day_pos,
      span-suc len 0 d.month,
      ap (λ (n : ℕ). len n) (zero_plus d.month),
      year_length-span d.year,
      ap (span len 0) whole,
      span-le-add len 0 (suc d.month) (11 - d.month),
    )

pub day_number_lem :
    (d : Ymd)
    → IsDate d
    → day_number d.year d.month d.day
      ≡ span year_length 0 d.year + span (month_length d.year) 0 d.month + d.day
unfolding day_number
day_number_lem d v =
    let whole : d.year + d.month / 12 ≡ d.year = omega (arith, v.month_ok) in
    let part : d.month % 12 ≡ d.month = omega (arith, v.month_ok) in rw (whole, part)

civil_of :
    (d : Ymd)
    → IsDate d
    → civil (span year_length 0 d.year + span (month_length d.year) 0 d.month + d.day) ≡ d
unfolding civil
civil_of d v =
    let months : ℕ = span (month_length d.year) 0 d.month in
    let n : ℕ = span year_length 0 d.year + months + d.day in
    let before : n - 1 ≡ span year_length 0 d.year + (months + (d.day - 1)) =
      omega (arith, v.day_pos) in
    let enough : d.year < n =
      omega (arith, v.day_pos, le-span year_length year_length-pos 0 d.year) in
    let last : d.day - 1 + 1 ≡ d.day = omega (arith, v.day_pos) in
    rw
      (before, split_from_zero year_length d.year n (months + (d.day - 1)) enough (within_year d v))
      (rw
        (split_from_zero (month_length d.year) d.month 12 (d.day - 1) v.month_ok
          (omega (arith, v.day_ok, v.day_pos)))
        (rw last refl))

-- Every civil date is read back from the number of its day.
pub civil-day_number : (d : Ymd) → IsDate d → civil (day_number d.year d.month d.day) ≡ d
civil-day_number d v = rw (day_number_lem d v) (civil_of d v)

last-IsDate : (y m : ℕ) → m < 12 → IsDate (record { year = y; month = m; day = month_length y m })
last-IsDate y m h = record { month_ok = h; day_pos = month_length-pos y m; day_ok = omega arith }

-- The day 0 of a month is the last day of the month before, over the year's end too.
pub day_zero : (y m : ℕ) → m < 12 → day_number y (m + 1) 0 ≡ day_number y m (month_length y m)
day_zero y m h = rw (day_number_lem _ (last-IsDate y m h)) (elim (dec_lt m 11) [
  | yes inside ↦ within y m inside
  | no last ↦ over y m (omega (arith, h, last))
])
  where
    within :
        (y m : ℕ)
        → m < 11
        → day_number y (m + 1) 0
          ≡ span year_length 0 y + span (month_length y) 0 m + month_length y m
    within y m h =
        let whole : y + (m + 1) / 12 ≡ y = omega (arith, h) in
        let part : (m + 1) % 12 ≡ suc m = omega (arith, h) in
        unfold day_number in
        rw (whole, part)
          (omega (arith, span-suc (month_length y) 0 m, ap (month_length y) (zero_plus m)))

    over :
        (y m : ℕ)
        → m ≡ 11
        → day_number y (m + 1) 0
          ≡ span year_length 0 y + span (month_length y) 0 m + month_length y m
    over y m e =
        let whole : y + (m + 1) / 12 ≡ suc y = omega (arith, e) in
        let part : (m + 1) % 12 ≡ 0 = omega (arith, e) in
        let months : suc m ≡ 12 = omega (arith, e) in
        unfold day_number in
        rw (whole, part)
          (omega (
            arith,
            span-suc year_length 0 y,
            ap year_length (zero_plus y),
            year_length-span y,
            span-zero (month_length (suc y)),
            ap (span (month_length y) 0) months,
            span-suc (month_length y) 0 m,
            ap (month_length y) (zero_plus m),
          ))

-- The last day of a month, as the pickers find it: the day 0 of the next month.
pub last_day : (y m : ℕ) → m < 12 → get_date (day_number y (m + 1) 0) ≡ month_length y m
unfolding get_date
last_day y m h =
    rw (day_zero y m h) (ap (λ (d : Ymd). d.day) (civil-day_number _ (last-IsDate y m h)))

-- The period and the rest that `split_span` finds.
Split : (ℕ → ℕ) → ℕ → ℕ → ℕ → ℕ × ℕ → Type 0
Split len fuel i n r =
    (e : ℕ) × (k : ℕ) × (r ≡ (i + e, k)) × (span len i e + k ≡ n) × (k < len (i + e)) × (e < fuel)

Split-here : (len : ℕ → ℕ) (fuel i n : ℕ) → n < len i → Split len (suc fuel) i n (i, n)
unfolding Split span
Split-here len fuel i n h =
    let at_i : len (i + 0) ≡ len i = ap len (omega arith) in
    let sum : i ≡ i + 0 = omega arith in
    (0, n, ap (λ t. (t, n)) sum, omega arith, omega (arith, at_i), omega arith)

Split-next :
    (len : ℕ → ℕ) (fuel i n : ℕ) (r : ℕ × ℕ)
    → len i ≤ n
    → Split len fuel (suc i) (n - len i) r
    → Split len (suc fuel) i n r
unfolding Split span
Split-next len fuel i n r h (j, k, found, total, inside, near) =
    let at_j : len (suc i + j) ≡ len (i + suc j) = ap len (omega arith) in
    let sum : suc i + j ≡ i + suc j = omega arith in
    (
      suc j,
      k,
      found ∙ ap (λ t. (t, k)) sum,
      omega (arith, total),
      omega (arith, inside, at_j),
      omega (arith, near),
    )

split_span-Split :
    (len : ℕ → ℕ) (fuel i n : ℕ)
    → n < span len i fuel
    → Split len fuel i n (split_span len fuel i n)
unfolding split_span span
split_span-Split len zero i n h = absurd (omega arith)
split_span-Split len (suc fuel) i n h = elim (Bool-cases (ltb n (len i))) [
  | inl e ↦ rw e (Split-here len fuel i n (ltb→lt n (len i) e))
  | inr e ↦
      let out : len i ≤ n = ground arith in
      rw e (
        Split-next len fuel i n _ out
          (split_span-Split len fuel (suc i) (n - len i) (omega (arith, out))))
]

split_span_zero :
    (len : ℕ → ℕ) (fuel n : ℕ)
    → n < span len 0 fuel
    → (e : ℕ) × (k : ℕ) × (split_span len fuel 0 n ≡ (e, k))
      × (span len 0 e + k ≡ n)
      × (k < len e)
      × (e < fuel)
unfolding Split
split_span_zero len fuel n h =
    let (e, k, found, total, inside, near) = split_span-Split len fuel 0 n h in
    let sum : 0 + e ≡ e = omega arith in
    (e, k, found ∙ ap (λ t. (t, k)) sum, total, omega (arith, inside, ap len sum), near)

civil-IsDate :
    (n y m k e : ℕ)
    → 0 < n
    → split_span year_length n 0 (n - 1) ≡ (y, k)
    → span year_length 0 y + k ≡ n - 1
    → split_span (month_length y) 12 0 k ≡ (m, e)
    → span (month_length y) 0 m + e ≡ k
    → e < month_length y m
    → m < 12
    → IsDate (civil n) × (day_number (civil n).year (civil n).month (civil n).day ≡ n)
unfolding civil
civil-IsDate n y m k e h fy ty fm tm small near =
    let date : IsDate (record { year = y; month = m; day = e + 1 }) = record {
      month_ok = near;
      day_pos = omega arith;
      day_ok = omega arith;
    } in
    rw (fy, civil) (rw (fm, civil) (date, rw (day_number_lem _ date) (omega arith)))

-- A day's number is that of its civil date, which is a date of the calendar.
pub day_number-civil :
    (n : ℕ)
    → 0 < n
    → IsDate (civil n) × (day_number (civil n).year (civil n).month (civil n).day ≡ n)
day_number-civil n h =
    let (y, k, fy, ty, iy, _) =
      split_span_zero year_length n (n - 1)
        (omega (arith, le-span year_length year_length-pos 0 n)) in
    let (m, e, fm, tm, small, near) =
      split_span_zero (month_length y) 12 k (rw (year_length-span y) at iy) in
    civil-IsDate n y m k e h fy ty fm tm small near

-- Days of one month follow each other.
pub day_number-add : (y m d : ℕ) → day_number y m d ≡ day_number y m 0 + d
unfolding day_number
day_number-add y m d = omega arith
