-- ===== src/Profile/Score.antt =====
-- ProfileManagement.jsx: the score of completeness.
use hotel_ms.Common.{
  ℕ, ◌+◌, ◌≤◌, ◌≡◌, refl, min, if◌then◌else◌, Bool, true, false, ◌&&◌, truthy, trim, ◌==◌, arith,
}
use hotel_ms.Profile.{Person, completion_score}

abbrev pub complete : Person → Bool
complete p = truthy (trim p.full_name) && (truthy (trim p.phone) && truthy (trim p.photo_url))

-- The score is between 25 and 100, and it is 100 exactly if name, phone and photo are all given.
pub completion_score_lem :
    (p : Person)
    → (25 ≤ completion_score p)
      × (completion_score p ≤ 100)
      × ((completion_score p == 100) ≡ complete p)
unfolding completion_score
completion_score_lem p =
    let a = truthy (trim p.full_name) in
    let b = truthy (trim p.phone) in let c = truthy (trim p.photo_url) in go a b c
  where
    go :
        (a b c : Bool)
        → let n : ℕ =
            min (25 + (if a then 30 else 0) + (if b then 25 else 0) + (if c then 20 else 0)) 100 in
          (25 ≤ n) × (n ≤ 100) × ((n == 100) ≡ (a && (b && c)))
    go true true true = (omega arith, omega arith, refl)
    go true true false = (omega arith, omega arith, refl)
    go true false true = (omega arith, omega arith, refl)
    go true false false = (omega arith, omega arith, refl)
    go false true true = (omega arith, omega arith, refl)
    go false true false = (omega arith, omega arith, refl)
    go false false true = (omega arith, omega arith, refl)
    go false false false = (omega arith, omega arith, refl)
