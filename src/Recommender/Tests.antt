-- ===== src/Recommender/Tests.antt =====
-- The recommender on concrete inputs, and the theorems applied to them.
use hotel_ms.Common.{◌≡◌, refl, [], ◌∷◌, none, codes}
use hotel_ms.Recommender.{initial, match_color, fair, choose, set_guests, find, answer, refine, run}
use hotel_ms.Recommender.Steps.{IsValid, initial-IsValid, run-IsValid}

match_color-65 : match_color 65 ≡ fair
unfolding match_color
match_color-65 = refl

run-IsValid_example :
    IsValid
      (run (choose (codes "family") ∷ set_guests 40 ∷ find ∷ answer none ∷ refine ∷ []) initial)
run-IsValid_example =
    run-IsValid (choose (codes "family") ∷ set_guests 40 ∷ find ∷ answer none ∷ refine ∷ []) initial
      (refl, tt) initial-IsValid
