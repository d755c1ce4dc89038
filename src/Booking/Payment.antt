-- ===== src/Booking/Payment.antt =====
-- Booking.jsx `validatePayment` and the field of the card number.
use hotel_ms.Common.{
  ℕ, ◌+◌, ◌-◌, ◌*◌, ◌≤◌, ◌≡◌, refl, sym, ap, ◌∙◌, true, false, not, ◌&&◌, [], ◌∷◌, some, Text,
  truthy, trim_start, trim_end, is_digit, digits_only, all-digits_only, is_space, filter, all,
  length, arith, Bool-cases, inl, inr, &&-eq-true,
}
use hotel_ms.Booking.{Card, Page, parse_expiry, group_by_four, type_card_number}

-- The characters that are not white space, `replace(/\s/g, "")`.
abbrev pub no_spaces : Text → Text
no_spaces = filter (λ c. not (is_space c))

no_spaces-trim_start : (s : Text) → no_spaces (trim_start s) ≡ no_spaces s
no_spaces-trim_start [] = refl
no_spaces-trim_start (c ∷ s) = elim (Bool-cases (is_space c)) [
  | inl e ↦ rw e (no_spaces-trim_start s)
  | inr e ↦ rw e (rw e refl)
]

blank-no_spaces : (s : Text) → truthy (trim_end s) ≡ false → no_spaces s ≡ []
blank-no_spaces [] h = refl
blank-no_spaces (c ∷ s) h = ground (arith, blank-no_spaces s)

no_spaces-trim_end : (s : Text) → no_spaces (trim_end s) ≡ no_spaces s
no_spaces-trim_end [] = refl
no_spaces-trim_end (c ∷ s) = elim (Bool-cases (is_space c && not (truthy (trim_end s)))) [
  | inl e ↦
      let (blank, none_left) = &&-eq-true (is_space c) (not (truthy (trim_end s))) e in
      rw (e, blank) (sym (blank-no_spaces s (ground arith)))
  | inr e ↦ rw (e, no_spaces-trim_end s)
]

digit-not-space : (c : ℕ) → is_digit c ≡ true → is_space c ≡ false
digit-not-space c h = ground arith

no_spaces-cons : (c : ℕ) (s : Text) → is_digit c ≡ true → no_spaces (c ∷ s) ≡ c ∷ no_spaces s
no_spaces-cons c s h = rw (digit-not-space c h)

no_spaces-digits : (ds : Text) → all is_digit ds ≡ true → no_spaces ds ≡ ds
no_spaces-digits [] h = refl
no_spaces-digits (d ∷ ds) h =
    let (hd, hs) = &&-eq-true (is_digit d) (all is_digit ds) h in
    no_spaces-cons d ds hd ∙ ap (λ t. d ∷ t) (no_spaces-digits ds hs)

no_spaces-group : (ds : Text) → all is_digit ds ≡ true → no_spaces (group_by_four ds) ≡ ds
no_spaces-group (a ∷ b ∷ c ∷ d ∷ rest) h =
    let (ha, h₁) = &&-eq-true (is_digit a) _ h in
    let (hb, h₂) = &&-eq-true (is_digit b) _ h₁ in
    let (hc, h₃) = &&-eq-true (is_digit c) _ h₂ in
    let (hd, h₄) = &&-eq-true (is_digit d) _ h₃ in
    rw (digit-not-space a ha, digit-not-space b hb, digit-not-space c hc, digit-not-space d hd)
      (ap (λ t. a ∷ b ∷ c ∷ d ∷ t) (no_spaces-group rest h₄))
no_spaces-group [] h = refl
no_spaces-group (a ∷ []) h = no_spaces-digits (a ∷ []) h
no_spaces-group (a ∷ b ∷ []) h = no_spaces-digits (a ∷ b ∷ []) h
no_spaces-group (a ∷ b ∷ c ∷ []) h = no_spaces-digits (a ∷ b ∷ c ∷ []) h

-- Whatever is typed into the field of the card number, the digits that the check counts are the
-- digits typed: the blanks that the field shows neither add to them nor hide any.
pub card_number_digits :
    (typed : Text) (s : Page)
    → no_spaces (type_card_number typed s).payment.card_number ≡ digits_only typed
unfolding type_card_number
card_number_digits typed s =
    let shown : Text = group_by_four (digits_only typed) in
    no_spaces-trim_end (trim_start shown)
    ∙ no_spaces-trim_start shown
    ∙ no_spaces-group (digits_only typed) (all-digits_only typed)

-- A card that can be charged, where today lies in the given year and month (counted from 0): 13 to
-- 19 characters other than blanks, an expiry in a month that exists and has not passed, a code of at
-- least three characters.
pub record IsPayable (year month : ℕ) (p : Card) : Type 0 where
  pub long_enough : 13 ≤ length (no_spaces p.card_number)
  pub short_enough : length (no_spaces p.card_number) ≤ 19
  pub mm : ℕ
  pub yy : ℕ
  pub expires : parse_expiry p.expiry ≡ some (mm, yy)
  pub month_pos : 1 ≤ mm
  pub month_max : mm ≤ 12
  pub not_passed : year * 12 + month ≤ (2000 + yy) * 12 + (mm - 1)
  pub code : 3 ≤ length p.cvv
