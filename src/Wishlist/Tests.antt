-- ===== src/Wishlist/Tests.antt =====
-- The saved rooms on concrete inputs, and the theorems applied to them.
use hotel_ms.Common.{◌≡◌, refl, true, false, [], ◌∷◌, arith}
use hotel_ms.Wishlist.{Wishlist, is_saved, toggle, settle}
use hotel_ms.Wishlist.Toggle.{both, toggle_settles, settle-both}

abbrev three_saved : Wishlist
three_saved = record {
  is_authenticated = true;
  saved_ids = 4 ∷ 7 ∷ 9 ∷ [];
  loading = false;
  pending = [];
}

toggle_settles_example : is_saved 7 (settle 0 true (toggle 7 three_saved)) ≡ false
toggle_settles_example = toggle_settles 7 7 true three_saved refl refl

settle-both_example :
    (is_saved 5 (settle 0 true (settle 0 false (both 7 5 three_saved))) ≡ true)
    × (is_saved 5 (settle 0 false (settle 1 true (both 7 5 three_saved))) ≡ true)
settle-both_example = settle-both 7 5 5 false true three_saved refl refl (λ e. omega arith)
