-- ===== src/Common/Sort.antt =====
-- `[...xs].sort(compare)`: JavaScript's sort is stable, so any stable sort gives its result.
-- `before x y` is `compare(x, y) <= 0`.
use mathlib.Core.Path.{◌≡◌}
use mathlib.Core.Bool.{Bool, true, false}
use mathlib.Core.List.{List, [], ◌∷◌, Perm}
use mathlib.Core.List.Perm
use hotel_ms.Common.Tests.{if◌then◌else◌, Bool-cases}
use hotel_ms.Common.Lists.{In, here, there}
use mathlib.Core.Logic.{inl, inr}

module _ {ℓ} {A : Type ℓ} where
  swap_heads : (x y : A) {ys : List A} {a : A} → In a (x ∷ ys) → In a (x ∷ y ∷ ys)
  swap_heads x y here = here
  swap_heads x y (there m) = there (there m)

  behind :
      (x y : A) (ys : List A) {zs : List A} {a : A}
      → (In a zs → In a (x ∷ ys))
      → In a (y ∷ zs)
      → In a (x ∷ y ∷ ys)
  behind x y ys f here = there here
  behind x y ys f (there m) = swap_heads x y (f m)

  under : (x : A) {a : A} {ys xs : List A} → (In a ys → In a xs) → In a (x ∷ ys) → In a (x ∷ xs)
  under x f here = here
  under x f (there m) = there (f m)

module _ {ℓ} {A : Type ℓ} (before : A → A → Bool) where
  abbrev pub insert : A → List A → List A
  insert x [] = x ∷ []
  insert x (y ∷ ys) = if before x y then x ∷ y ∷ ys else y ∷ insert x ys

  abbrev pub sort : List A → List A
  sort [] = []
  sort (x ∷ xs) = insert x (sort xs)

  insert-perm : (x : A) (ys : List A) → Perm (x ∷ ys) (insert x ys)
  insert-perm x [] = Perm.refl _
  insert-perm x (y ∷ ys) = elim (Bool-cases (before x y)) [
    | inl e ↦ rw e (Perm.refl _)
    | inr e ↦ rw e (Perm.trans (Perm.swap y x ys) (Perm.cons y (insert-perm x ys)))
  ]

  -- Sorting keeps every element, as often as it stands in the list.
  pub sort-perm : (xs : List A) → Perm xs (sort xs)
  sort-perm [] = Perm.refl _
  sort-perm (x ∷ xs) = Perm.trans (Perm.cons x (sort-perm xs)) (insert-perm x (sort xs))

  -- Each element stands before the next one.
  abbrev pub InOrder : List A → Type 0
  InOrder [] = Unit {0}
  InOrder (x ∷ []) = Unit {0}
  InOrder (x ∷ y ∷ ys) = (before x y ≡ true) × InOrder (y ∷ ys)

  module _ (total : (x y : A) → before x y ≡ false → before y x ≡ true) where
    insert-InOrder : (x : A) (ys : List A) → InOrder ys → InOrder (insert x ys)
    insert-InOrder x [] h = tt
    insert-InOrder x (y ∷ []) h = elim (Bool-cases (before x y)) [
      | inl e ↦ rw e (e, tt)
      | inr e ↦ rw e (total x y e, tt)
    ]
    insert-InOrder x (y ∷ z ∷ zs) h = elim (Bool-cases (before x y)) [
      | inl e ↦ rw e (e, h)
      | inr e ↦ rw e (elim (Bool-cases (before x z)) [
        | inl f ↦ rw f (total x y e, (f, h.1))
        | inr f ↦ rw f (h.0, rw f at (insert-InOrder x (z ∷ zs) h.1))
      ])
    ]

    pub sort-InOrder : (xs : List A) → InOrder (sort xs)
    sort-InOrder [] = tt
    sort-InOrder (x ∷ xs) = insert-InOrder x (sort xs) (sort-InOrder xs)

  In-insert : (x : A) {a : A} {ys : List A} → In a ys → In a (insert x ys)
  In-insert x {ys = []} m = elim m [ ]
  In-insert x {ys = y ∷ rest} here = elim (Bool-cases (before x y)) [
    | inl e ↦ rw e (there here)
    | inr e ↦ rw e here
  ]
  In-insert x {ys = y ∷ rest} (there m) = elim (Bool-cases (before x y)) [
    | inl e ↦ rw e (there (there m))
    | inr e ↦ rw e (there (In-insert x m))
  ]

  insert-In_self : (x : A) (ys : List A) → In x (insert x ys)
  insert-In_self x [] = here
  insert-In_self x (y ∷ ys) = elim (Bool-cases (before x y)) [
    | inl e ↦ rw e here
    | inr e ↦ rw e (there (insert-In_self x ys))
  ]

  pub In-sort : {a : A} {xs : List A} → In a xs → In a (sort xs)
  In-sort {xs = []} m = elim m [ ]
  In-sort {xs = x ∷ rest} here = insert-In_self x (sort rest)
  In-sort {xs = x ∷ rest} (there m) = In-insert x (In-sort m)

  insert-In : (x : A) {a : A} (ys : List A) → In a (insert x ys) → In a (x ∷ ys)
  insert-In x [] m = m
  insert-In x (y ∷ ys) m = elim (Bool-cases (before x y)) [
    | inl e ↦ rw e at m
    | inr e ↦ behind x y ys (insert-In x ys) (rw e at m)
  ]

  pub sort-In : {a : A} (xs : List A) → In a (sort xs) → In a xs
  sort-In [] m = m
  sort-In (x ∷ xs) m = under x (sort-In xs) (insert-In x (sort xs) m)
