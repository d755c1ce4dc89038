-- ===== src/Phone/Mask.antt =====
-- PhoneInput.jsx `applyMask`: what the mask shows and what can be read back from it.
use hotel_ms.Common.{
  ℕ, suc, ◌≤◌, ◌≡◌, refl, ◌==◌, leb, if◌then◌else◌, Bool, true, not, ◌&&◌, [], ◌∷◌, Text, is_digit,
  digits_only, length, all, In, all-In, arith, leb→le, &&-eq-true,
}
use hotel_ms.Phone.Countries.{Country, countries}
use hotel_ms.Phone.{apply_mask}

-- The number of places for digits.
abbrev pub places : Text → ℕ
places [] = 0
places (m ∷ mask) = if m == 88 then suc (places mask) else places mask

abbrev no_digits : Text → Bool
no_digits = all (λ m. not (is_digit m))

digits_only-apply_mask :
    (ds mask : Text)
    → all is_digit ds ≡ true
    → no_digits mask ≡ true
    → length ds ≤ places mask
    → digits_only (apply_mask ds mask) ≡ ds
unfolding apply_mask
digits_only-apply_mask [] mask hd hm h = refl
digits_only-apply_mask (d ∷ ds) [] hd hm h = absurd (omega arith)
digits_only-apply_mask (d ∷ ds) (m ∷ mask) hd hm h =
    ground (arith, digits_only-apply_mask ds mask, digits_only-apply_mask (d ∷ ds) mask)

-- Every mask has room for the country's digits, and no digit of its own.
abbrev mask_fits : Country → Bool
mask_fits c = no_digits c.mask && leb c.digits (places c.mask)

masks_fit : all mask_fits countries ≡ true
unfolding countries
masks_fit = refl

-- For every country of the table and every local number of at most its length, the digits of the
-- displayed text are the number: the mask hides none and adds none.
pub display_reads_back :
    (c : Country) (ds : Text)
    → In c countries
    → all is_digit ds ≡ true
    → length ds ≤ c.digits
    → digits_only (apply_mask ds c.mask) ≡ ds
display_reads_back c ds m hd h =
    let (clean, room) = &&-eq-true (no_digits c.mask) _ (all-In mask_fits m masks_fit) in
    digits_only-apply_mask ds c.mask hd clean (omega (arith, leb→le _ _ room))
