-- ===== src/Recommender/Steps.antt =====
-- RoomRecommender.jsx: what the steps promise.
use hotel_ms.Common.{
  ◌≤◌, ◌≡◌, ◌≢◌, refl, ◌==◌, Bool, true, false, not, ◌||◌, List, [], ◌∷◌, ◌++◌, Option, none, some,
  Text, truthy, same, same_refl, same_iff, sym, ap, ◌∙◌, includes, filter, arith, Bool-cases, inl,
  inr,
}
use hotel_ms.Recommender.{
  Results, Wizard, initial, toggle_chip, find_rooms, answered, start_over, Event, choose,
  set_budget, set_guests, set_nights, style, amenity, back, find, refine, restart, answer, step,
  run,
}

abbrev is_some : Option Results → Bool
is_some none = false
is_some (some r) = true

-- The occasion is chosen behind the first step, the counts are in their ranges, and the third step
-- has an answer or waits for it.
pub record IsValid (s : Wizard) : Type 0 where
  pub at_min : 1 ≤ s.at
  pub at_max : s.at ≤ 3
  pub chosen : (s.at == 1 || truthy s.occasion) ≡ true
  pub guests_min : 1 ≤ s.guests
  pub guests_max : s.guests ≤ 10
  pub nights_min : 1 ≤ s.nights
  pub nights_max : s.nights ≤ 30
  pub waits : (not s.loading || s.at == 3) ≡ true
  pub shown : (not (s.at == 3) || (s.loading || is_some s.results)) ≡ true

-- The occasions that are clicked have keys that are not empty.
abbrev pub Chooses : List Event → Type 0
Chooses [] = Unit {0}
Chooses (choose key ∷ es) = (truthy key ≡ true) × Chooses es
Chooses (e ∷ es) = Chooses es

pub initial-IsValid : IsValid initial
unfolding initial
initial-IsValid = record {
  at_min = omega arith;
  at_max = omega arith;
  chosen = refl;
  guests_min = omega arith;
  guests_max = omega arith;
  nights_min = omega arith;
  nights_max = omega arith;
  waits = refl;
  shown = refl;
}

step-IsValid :
    (e : Event) (es : List Event) (s : Wizard) → Chooses (e ∷ es) → IsValid s → IsValid (step e s)
unfolding step find_rooms answered start_over initial
step-IsValid (choose key) es s h v = ground arith
step-IsValid (set_budget n) es s h v = ground arith
step-IsValid (set_guests n) es s h v = ground arith
step-IsValid (set_nights n) es s h v = ground arith
step-IsValid (style t) es s h v = ground arith
step-IsValid (amenity t) es s h v = ground arith
step-IsValid back es s h v = ground arith
step-IsValid find es s h v = ground arith
step-IsValid refine es s h v = ground arith
step-IsValid restart es s h v = ground arith
step-IsValid (answer none) es s h v = ground arith
step-IsValid (answer (some r)) es s h v = ground arith

rest-Chooses : (e : Event) (es : List Event) → Chooses (e ∷ es) → Chooses es
rest-Chooses (choose key) es h = h.1
rest-Chooses _ es h = h

-- Whatever is clicked and answered, with occasions whose keys are not empty, and from a state for
-- which this holds: behind the first step the occasion is chosen, the guests are 1 to 10 and the
-- nights 1 to 30, a request is under way only on the third step, and that step shows an answer
-- unless one is under way.
pub run-IsValid : (es : List Event) (s : Wizard) → Chooses es → IsValid s → IsValid (run es s)
unfolding run
run-IsValid [] s h v = v
run-IsValid (e ∷ es) s h v =
    run-IsValid es (step e s) (rest-Chooses e es h) (step-IsValid e es s h v)

includes-append :
    (x y : Text) (xs : List Text) → includes y (xs ++ x ∷ []) ≡ (includes y xs || same x y)
includes-append x y [] = ground arith
includes-append x y (z ∷ xs) = ground (arith, includes-append x y xs)

removed : (x : Text) (xs : List Text) → includes x (filter (λ v. not (same v x)) xs) ≡ false
removed x [] = refl
removed x (z ∷ xs) = ground (arith, removed x xs)

kept :
    (x y : Text) (xs : List Text)
    → x ≢ y
    → includes y (filter (λ v. not (same v x)) xs) ≡ includes y xs
kept x y [] n = refl
kept x y (z ∷ xs) n = elim (Bool-cases (same z x)) [
  | inl e ↦
      let z≡x : z ≡ x = (same_iff z x).0 e in
      let off : same z y ≡ false = different z y (λ h. n (sym z≡x ∙ h)) in
      rw (e, off) (kept x y xs n)
  | inr e ↦ rw e (ap (λ b. same z y || b) (kept x y xs n))
]
  where
    different : (a b : Text) → a ≢ b → same a b ≡ false
    different a b d = elim (Bool-cases (same a b)) [
      | inl e ↦ absurd (d ((same_iff a b).0 e))
      | inr e ↦ e
    ]

-- A chip that is clicked changes sides, and no other chip does.
pub toggle_chip_lem :
    (x : Text) (xs : List Text)
    → (includes x (toggle_chip x xs) ≡ not (includes x xs))
      × ((y : Text) → x ≢ y → includes y (toggle_chip x xs) ≡ includes y xs)
unfolding toggle_chip
toggle_chip_lem x xs = elim (Bool-cases (includes x xs)) [
  | inl e ↦ (rw e (removed x xs), λ y n. rw e (kept x y xs n))
  | inr e ↦ (
    rw e (rw (includes-append x x xs, e) (same_refl x)),
    λ y n. rw e (elim (Bool-cases (same x y)) [
      | inl h ↦ absurd (n ((same_iff x y).0 h))
      | inr h ↦ rw (includes-append x y xs, h) (ground arith)
    ]),
  )
]
