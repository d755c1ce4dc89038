-- ===== src/GuestIntelligence/Segments.antt =====
-- GuestIntelligence.jsx: the figures of the analytics tab, one for each segment. An object is the list
-- of its entries, in the order in which they are made. Revenue is a whole number, and `Math.round` of a
-- quotient is written with whole numbers.
use hotel_ms.Common.{
  ℕ, ◌+◌, ◌*◌, ◌/◌, ◌≤◌, max, ◌≡◌, refl, ap, ◌∙◌, leb, leb→le, if◌then◌else◌, true, List, [], ◌∷◌,
  Text, codes, truthy, same, same→eq, filter, length, In, here, there, Bool-cases, inl, inr, subst,
  arith,
}
use native.Mathlib.Nat.{le-div_iff_mul-le}
use hotel_ms.GuestIntelligence.{Guest}

pub record Entry : Type 0 where
  pub segment : Text
  pub value : ℕ

-- `g.segment || 'casual'`
abbrev pub segment_of : Guest → Text
segment_of g = if truthy g.segment then g.segment else codes "casual"

-- `sums[s] || 0`
abbrev pub at : Text → List Entry → ℕ
at seg [] = 0
at seg (e ∷ es) = if same seg e.segment then e.value else at seg es

-- `sums[s] = (sums[s] || 0) + n`
abbrev pub bump : Text → ℕ → List Entry → List Entry
bump seg n [] = record { segment = seg; value = n } ∷ []
bump seg n (e ∷ es) =
    if same seg e.segment then record e { value = e.value + n } ∷ es else e ∷ bump seg n es

-- One figure of the loop over the guests.
abbrev pub tally : (Guest → ℕ) → List Guest → List Entry → List Entry
tally f [] es = es
tally f (g ∷ gs) es = tally f gs (bump (segment_of g) (f g) es)

unfoldable pub segment_revenue : List Guest → List Entry
segment_revenue gs = tally (λ g. g.total_spent) gs []

unfoldable pub segment_counts : List Guest → List Entry
segment_counts gs = tally (λ g. 1) gs []

abbrev pub largest : List Entry → ℕ
largest [] = 1
largest (e ∷ es) = max e.value (largest es)

-- `Math.max(...Object.values(segmentRevenue), 1)`
unfoldable pub max_revenue : List Guest → ℕ
unfolding segment_revenue
max_revenue gs = largest (segment_revenue gs)

-- `Math.round(rev / maxRevenue * 100)`, the width of a bar.
unfoldable pub bar_width : List Guest → ℕ → ℕ
unfolding max_revenue
bar_width gs rev = (200 * rev + max_revenue gs) / (2 * max_revenue gs)

unfoldable pub at_risk_guests : List Guest → List Guest
at_risk_guests gs = filter (λ g. leb 60 g.churn_probability) gs

-- The sum over the guests that stand in a segment, which each figure should be.
abbrev pub sum_of : (Guest → ℕ) → List Guest → ℕ
sum_of f [] = 0
sum_of f (g ∷ gs) = f g + sum_of f gs

abbrev pub within : Text → List Guest → List Guest
within seg gs = filter (λ g. same seg (segment_of g)) gs

abbrev pub total : List Entry → ℕ
total [] = 0
total (e ∷ es) = e.value + total es

same_both : (a b c : Text) → same a b ≡ true → same a c ≡ true → same b c ≡ true
same_both a b c h k = subst (λ (x : Text). same x c ≡ true) (same→eq a b h) k

at-bump :
    (seg other : Text) (n : ℕ) (es : List Entry)
    → at seg (bump other n es) ≡ (if same seg other then at seg es + n else at seg es)
at-bump seg other n [] = ground arith
at-bump seg other n (e ∷ es) = elim (Bool-cases (same other e.segment)) [
  | inl h ↦ ground (arith, h, ap (same seg) (same→eq other e.segment h))
  | inr h ↦ elim (Bool-cases (same seg e.segment)) [
    | inr l ↦ ground (arith, h, l, at-bump seg other n es)
    | inl l ↦ elim (Bool-cases (same seg other)) [
      | inr m ↦ ground (arith, h, l, m)
      | inl m ↦ absurd (ground (arith, h, same_both seg other e.segment m l))
    ]
  ]
]

total-bump : (seg : Text) (n : ℕ) (es : List Entry) → total (bump seg n es) ≡ total es + n
total-bump seg n [] = omega arith
total-bump seg n (e ∷ es) = ground (arith, total-bump seg n es)

at-tally :
    (f : Guest → ℕ) (seg : Text) (gs : List Guest) (es : List Entry)
    → at seg (tally f gs es) ≡ at seg es + sum_of f (within seg gs)
at-tally f seg [] es = omega arith
at-tally f seg (g ∷ gs) es =
    ground
      (arith, at-tally f seg gs (bump (segment_of g) (f g) es), at-bump seg (segment_of g) (f g) es)

total-tally :
    (f : Guest → ℕ) (gs : List Guest) (es : List Entry)
    → total (tally f gs es) ≡ total es + sum_of f gs
total-tally f [] es = omega arith
total-tally f (g ∷ gs) es =
    omega
      (arith, total-tally f gs (bump (segment_of g) (f g) es), total-bump (segment_of g) (f g) es)

sum_of-ones : (gs : List Guest) → sum_of (λ g. 1) gs ≡ length gs
sum_of-ones [] = refl
sum_of-ones (g ∷ gs) = omega (arith, sum_of-ones gs)

-- The figures of the analytics tab are right: for each segment, its revenue and its number are those
-- of the guests in it (where a guest without a segment is casual), and over all segments they make up
-- the revenue and the number of all guests.
pub segment_revenue-segment_counts :
    (gs : List Guest)
    → ((seg : Text)
        → (at seg (segment_revenue gs) ≡ sum_of (λ g. g.total_spent) (within seg gs))
          × (at seg (segment_counts gs) ≡ length (within seg gs)))
      × (total (segment_revenue gs) ≡ sum_of (λ g. g.total_spent) gs)
      × (total (segment_counts gs) ≡ length gs)
unfolding segment_revenue segment_counts
segment_revenue-segment_counts gs = (
  λ seg. (
    at-tally (λ g. g.total_spent) seg gs [] ∙ omega arith,
    at-tally (λ g. 1) seg gs [] ∙ omega (arith, sum_of-ones (within seg gs)),
  ),
  total-tally (λ g. g.total_spent) gs [] ∙ omega arith,
  total-tally (λ g. 1) gs [] ∙ omega (arith, sum_of-ones gs),
)

largest-pos : (es : List Entry) → 1 ≤ largest es
largest-pos [] = omega arith
largest-pos (e ∷ es) = omega (arith, largest-pos es)

In-largest : {e : Entry} {es : List Entry} → In e es → e.value ≤ largest es
In-largest here = omega arith
In-largest (there m) = omega (arith, In-largest m)

rounded : (r m : ℕ) → 1 ≤ m → r ≤ m → (200 * r + m) / (2 * m) ≤ 100
rounded r m h k =
    let q : ℕ = (200 * r + m) / (2 * m) in
    elim (Bool-cases (leb 101 q)) [
      | inl e ↦
          let over : 101 * (2 * m) ≤ 200 * r + m =
            (le-div_iff_mul-le {k = 2 * m} {x = 101} {y = 200 * r + m} (omega (arith, h))).0
              (leb→le 101 q e) in
          absurd (omega (arith, over, h, k))
      | inr e ↦ ground (arith, e)
    ]

-- No bar of the revenue chart is longer than its frame.
pub bar_width-within :
    (gs : List Guest) {e : Entry} → In e (segment_revenue gs) → bar_width gs e.value ≤ 100
unfolding bar_width max_revenue
bar_width-within gs {e = e} m =
    rounded e.value (largest (segment_revenue gs)) (largest-pos (segment_revenue gs)) (In-largest m)
