-- ===== src/Guests/Tests.antt =====
-- The guests picker on concrete inputs, and the theorems applied to them.
use hotel_ms.Common.{◌≡◌, refl, true, false, [], ◌∷◌, arith}
use hotel_ms.Guests.{Party, Picker, rooms_row, adults_row, run, increase, decrease, done, minus}
use hotel_ms.Guests.Bounds.{IsParty, IsValid, counters_in_range}

abbrev couple : Party
couple = record { adults = 2; children = 0; rooms = 1; pets = false }

abbrev shown : Picker
shown = record { props = couple; draft = couple; is_open = true }

minus-floor : minus rooms_row couple ≡ couple
unfolding minus
minus-floor = refl

couple-IsParty : IsParty couple
couple-IsParty = record {
  adults_min = omega arith;
  adults_max = omega arith;
  children_max = omega arith;
  rooms_min = omega arith;
  rooms_max = omega arith;
}

counters_in_range_example :
    IsValid (run (decrease rooms_row ∷ increase adults_row ∷ done ∷ []) shown)
counters_in_range_example =
    counters_in_range (decrease rooms_row ∷ increase adults_row ∷ done ∷ []) shown tt
      (record { draft_ok = couple-IsParty; props_ok = couple-IsParty })
