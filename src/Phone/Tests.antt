-- ===== src/Phone/Tests.antt =====
-- The phone field on concrete inputs, and the theorems applied to them.
use hotel_ms.Common.{◌∷◌, ◌≡◌, refl, true, false, [], some, codes, In, here, arith}
use hotel_ms.Phone.Countries.{Country, countries}
use hotel_ms.Phone.{Input, apply_mask, parse_e164, emit}
use hotel_ms.Phone.{searches, selects, types, run}
use hotel_ms.Phone.Runs.{field_in_step}
use hotel_ms.Phone.Parse.{parse_e164-emit}
use hotel_ms.Phone.Typing.{IsValid}

abbrev uzbekistan : Country
uzbekistan = record {
  code = codes "UZ";
  name = codes "Uzbekistan";
  dial = codes "+998";
  digits = 9;
  mask = codes "(XX) XXX-XX-XX";
}

abbrev canada : Country
canada = record {
  code = codes "CA";
  name = codes "Canada";
  dial = codes "+1";
  digits = 10;
  mask = codes "(XXX) XXX-XXXX";
}

uzbekistan_known : In uzbekistan countries
unfolding countries
uzbekistan_known = here

apply_mask-uzbekistan : apply_mask (codes "901234567") uzbekistan.mask ≡ codes "(90) 123-45-67"
unfolding apply_mask
apply_mask-uzbekistan = refl

parse_e164-emit_example :
    (d : Country) × (parse_e164 (emit uzbekistan (codes "90123")) ≡ some (d, codes "90123"))
    × In d countries
    × (d.dial ≡ codes "+998")
parse_e164-emit_example =
    parse_e164-emit uzbekistan (codes "90123") uzbekistan_known refl refl (omega arith)

abbrev field : Input
field = record {
  country = uzbekistan;
  local_digits = codes "901";
  is_open = true;
  search = codes "uz";
  value = codes "+998901";
}

field-IsValid : IsValid field
unfolding emit
field-IsValid = record { known = uzbekistan_known; numeric = refl; emitted = refl }

abbrev toronto : Input
toronto = record {
  country = canada;
  local_digits = codes "416";
  is_open = false;
  search = [];
  value = codes "+1416";
}

field_in_step_example :
    IsValid (run (searches (codes "fra") ∷ selects 0 ∷ types (codes "6 12") ∷ []) field)
field_in_step_example =
    field_in_step (searches (codes "fra") ∷ selects 0 ∷ types (codes "6 12") ∷ []) field
      field-IsValid
