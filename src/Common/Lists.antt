-- ===== src/Common/Lists.antt =====
-- Lists over the native numbers: measures, tests, and a sort that is stable.
use Prim.Native.Nat.{ℕ, zero, suc, ◌+◌, ◌≤◌}
use mathlib.Core.Path.{◌≡◌, refl, ap, ◌∙◌}
use mathlib.Core.Logic.{inl, inr}
use mathlib.Core.Bool.{Bool, true, false, ◌&&◌, ◌||◌}
use mathlib.Core.Option.{Option, none, some}
use mathlib.Core.List.{List, [], ◌∷◌, ◌++◌}
use native.Mathlib.Omega.{arith}
use hotel_ms.Common.Tests.{if◌then◌else◌, Bool-cases}

module _ {ℓ} {A : Type ℓ} where
  abbrev pub length : List A → ℕ
  length [] = 0
  length (x ∷ xs) = suc (length xs)

  abbrev pub take : ℕ → List A → List A
  take zero xs = []
  take (suc n) [] = []
  take (suc n) (x ∷ xs) = x ∷ take n xs

  abbrev pub drop : ℕ → List A → List A
  drop zero xs = xs
  drop (suc n) [] = []
  drop (suc n) (x ∷ xs) = drop n xs

  abbrev pub get_elem? : List A → ℕ → Option A
  get_elem? [] i = none
  get_elem? (x ∷ xs) zero = some x
  get_elem? (x ∷ xs) (suc i) = get_elem? xs i

  abbrev pub replicate : ℕ → A → List A
  replicate zero x = []
  replicate (suc n) x = x ∷ replicate n x

  -- `xs.filter(keep)` for a Boolean test.
  abbrev pub filter : (A → Bool) → List A → List A
  filter keep [] = []
  filter keep (x ∷ xs) = if keep x then x ∷ filter keep xs else filter keep xs

  -- `xs.some(test)`
  abbrev pub any : (A → Bool) → List A → Bool
  any test [] = false
  any test (x ∷ xs) = test x || any test xs

  -- `xs.every(test)`
  abbrev pub all : (A → Bool) → List A → Bool
  all test [] = true
  all test (x ∷ xs) = test x && all test xs

  -- `xs.find(test)`
  abbrev pub find : (A → Bool) → List A → Option A
  find test [] = none
  find test (x ∷ xs) = if test x then some x else find test xs

  pub length-append : (xs ys : List A) → length (xs ++ ys) ≡ length xs + length ys
  length-append [] ys = omega arith
  length-append (x ∷ xs) ys = omega (arith, length-append xs ys)

  pub length-take-le : (n : ℕ) (xs : List A) → length (take n xs) ≤ n
  length-take-le zero xs = omega arith
  length-take-le (suc n) [] = omega arith
  length-take-le (suc n) (x ∷ xs) = omega (arith, length-take-le n xs)

  pub length-filter-le : (p : A → Bool) (xs : List A) → length (filter p xs) ≤ length xs
  length-filter-le p [] = omega arith
  length-filter-le p (x ∷ xs) = ground (arith, length-filter-le p xs)

  pub take-all : (n : ℕ) (xs : List A) → length xs ≤ n → take n xs ≡ xs
  take-all zero [] h = refl
  take-all zero (x ∷ xs) h = absurd (omega arith)
  take-all (suc n) [] h = refl
  take-all (suc n) (x ∷ xs) h = ap (λ t. x ∷ t) (take-all n xs (omega arith))

  pub all-get_elem? :
      (p : A → Bool) (xs : List A) (i : ℕ) {a : A}
      → all p xs ≡ true
      → get_elem? xs i ≡ some a
      → p a ≡ true
  all-get_elem? p [] i h e = absurd (cc)
  all-get_elem? p (x ∷ xs) zero h e = ground arith
  all-get_elem? p (x ∷ xs) (suc i) h e = all-get_elem? p xs i (ground arith) e

  pub find-passes : (p : A → Bool) (xs : List A) {a : A} → find p xs ≡ some a → p a ≡ true
  find-passes p [] e = absurd (cc)
  find-passes p (x ∷ xs) e = elim (Bool-cases (p x)) [
    | inl h ↦ ground arith
    | inr h ↦ find-passes p xs (ground arith)
  ]

-- Membership, by the place at which the element stands.
pub data In {ℓ} {A : Type ℓ} (a : A) : List A → Type ℓ where
  here : {xs : List A} → In a (a ∷ xs)
  there : {x : A} {xs : List A} → In a xs → In a (x ∷ xs)

module _ {ℓ} {A : Type ℓ} where
  pub all-In : (p : A → Bool) {a : A} {xs : List A} → In a xs → all p xs ≡ true → p a ≡ true
  all-In p here h = ground arith
  all-In p (there m) h = all-In p m (ground arith)

  pub In-filter : (p : A → Bool) {a : A} {xs : List A} → In a xs → p a ≡ true → In a (filter p xs)
  In-filter p here h = rw h here
  In-filter p {xs = x ∷ rest} (there m) h = elim (Bool-cases (p x)) [
    | inl e ↦ rw e (there (In-filter p m h))
    | inr e ↦ rw e (In-filter p m h)
  ]

  kept-In :
      (p : A → Bool) (x : A) (xs : List A) {a : A}
      → (In a (filter p xs) → In a xs × (p a ≡ true))
      → p x ≡ true
      → In a (x ∷ filter p xs)
      → In a (x ∷ xs) × (p a ≡ true)
  kept-In p x xs rest e here = (here, e)
  kept-In p x xs rest e (there n) = (there (rest n).0, (rest n).1)

  pub filter-In : (p : A → Bool) (xs : List A) {a : A} → In a (filter p xs) → In a xs × (p a ≡ true)
  filter-In p [] m = elim m [ ]
  filter-In p (x ∷ xs) m = elim (Bool-cases (p x)) [
    | inl e ↦ kept-In p x xs (filter-In p xs) e (rw e at m)
    | inr e ↦ let found = filter-In p xs (rw e at m) in (there found.0, found.1)
  ]

  -- `find` succeeds where some element passes, at an element that passes.
  pub find-In :
      (p : A → Bool) {a : A} {xs : List A}
      → In a xs
      → p a ≡ true
      → (b : A) × (find p xs ≡ some b) × In b xs × (p b ≡ true)
  find-In p {xs = []} m h = elim m [ ]
  find-In p {xs = x ∷ rest} here h = (x, rw h, here, h)
  find-In p {xs = x ∷ rest} (there m) h = elim (Bool-cases (p x)) [
    | inl e ↦ (x, rw e, here, e)
    | inr e ↦ let (b, f, k, q) = find-In p m h in (b, rw e f, there k, q)
  ]

  pub get_elem?-append :
      (xs ys : List A) (k : ℕ) → get_elem? (xs ++ ys) (length xs + k) ≡ get_elem? ys k
  get_elem?-append [] ys k = ap (get_elem? ys) (omega arith)
  get_elem?-append (x ∷ xs) ys k =
      let next : suc (length xs) + k ≡ suc (length xs + k) = omega arith in
      ap (get_elem? (x ∷ (xs ++ ys))) next ∙ get_elem?-append xs ys k

  pub length-replicate : (n : ℕ) (x : A) → length (replicate n x) ≡ n
  length-replicate zero x = refl
  length-replicate (suc n) x = ap suc (length-replicate n x)
