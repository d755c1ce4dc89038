-- ===== src/Phone/Typing.antt =====
-- PhoneInput.jsx: the handlers, and the effect that parses the value again.
use hotel_ms.Common.{
  ℕ, zero, suc, ◌≤◌, ◌<◌, ◌≡◌, ◌≢◌, refl, sym, ap, ◌∙◌, ◌==◌, ltb, Bool, true, false, not, ◌&&◌,
  ◌||◌, [], ◌∷◌, ◌++◌, some, Text, codes, same, truthy, is_digit, digits_only, all-digits_only,
  length, length-take-le, take, take-all, find, all, In, all-In, starts_with, arith, Bool-cases,
  inl, inr, same_iff,
}
use hotel_ms.Phone.Countries.{Country, countries}
use hotel_ms.Phone.{
  parse_e164, emit, has_dial, Input, parse_value, on_change, handle_country_select,
  handle_number_input,
}
use hotel_ms.Phone.Parse.{parse_e164-emit, emit_lem, sorted}

-- The country is one of the table, the local number consists of digits, and the parent has the
-- text that stands for both.
pub record IsValid (s : Input) : Type 0 where
  pub known : In s.country countries
  pub numeric : all is_digit s.local_digits ≡ true
  pub emitted : s.value ≡ emit s.country s.local_digits

-- Countries that share a dial code have numbers of one length, and no length is 0.
same_length : Country → Country → Bool
same_length c d = not (same d.dial c.dial) || d.digits == c.digits

lengths_agree : all (λ c. ltb 0 c.digits && all (same_length c) countries) countries ≡ true
unfolding same_length countries
lengths_agree = refl

digits-eq :
    (c d : Country) → In c countries → In d countries → d.dial ≡ c.dial → d.digits ≡ c.digits
unfolding same_length
digits-eq c d m k e = ground (
  arith,
  all-In (same_length c) k,
  (same_iff d.dial c.dial).1 e,
  all-In (λ (b : Country). ltb 0 b.digits && all (same_length b) countries) m lengths_agree,
)

digits-pos : (c : Country) → In c countries → 0 < c.digits
digits-pos c m = ground (
  arith,
  all-In (λ (b : Country). ltb 0 b.digits && all (same_length b) countries) m lengths_agree,
)

all-take : (n : ℕ) (ds : Text) → all is_digit ds ≡ true → all is_digit (take n ds) ≡ true
all-take zero ds h = refl
all-take (suc n) [] h = refl
all-take (suc n) (d ∷ ds) h = ground (arith, all-take n ds)

take-take : (n : ℕ) (ds : Text) → take n (take n ds) ≡ take n ds
take-take n ds = take-all n (take n ds) (length-take-le n ds)

emit-take : (c : Country) (ds : Text) → emit c (take c.digits ds) ≡ emit c ds
unfolding emit
emit-take c ds = rw (take-take c.digits ds)

emit-nil : (c : Country) (n : ℕ) → c.digits ≡ n → emit c [] ≡ []
unfolding emit
emit-nil c zero e = rw e
emit-nil c (suc n) e = rw e

truthy-take : (n : ℕ) (ds : Text) → 0 < n → truthy ds ≡ true → truthy (take n ds) ≡ true
truthy-take zero ds h t = absurd (omega arith)
truthy-take (suc n) [] h t = t
truthy-take (suc n) (d ∷ ds) h t = refl

-- The state after the text for a country and a number was parsed again: valid, the same dial code,
-- and the number cut to the country's length.
abbrev Reparsed : Country → Text → Input → Type 0
Reparsed c ds t = IsValid t × (t.country.dial ≡ c.dial) × (t.local_digits ≡ take c.digits ds)

reparse_digits :
    (c d : Country) (ds : Text) (s : Input)
    → In c countries
    → In d countries
    → d.dial ≡ c.dial
    → all is_digit ds ≡ true
    → truthy ds ≡ true
    → length ds ≤ c.digits
    → s.value ≡ emit c ds
    → Reparsed c ds (record s { country = d; local_digits = take d.digits ds })
reparse_digits c d ds s m k e hd ht hl hv =
    let lengths : d.digits ≡ c.digits = digits-eq c d m k e in
    (
      record {
        known = k;
        numeric = all-take d.digits ds hd;
        emitted =
            hv
            ∙ emit_lem c ds ht hl
            ∙ rw (← e) (sym (emit_lem d ds ht (omega arith)))
            ∙ sym (emit-take d ds);
      },
      e,
      ap (λ n. take n ds) lengths,
    )

truthy-append : (s t : Text) → truthy t ≡ true → truthy (s ++ t) ≡ true
truthy-append [] t h = h
truthy-append (x ∷ s) t h = refl

reparse_short :
    (c : Country) (ds : Text) (s : Input)
    → In c countries
    → all is_digit ds ≡ true
    → truthy ds ≡ true
    → length ds ≤ c.digits
    → s.value ≡ emit c ds
    → Reparsed c ds (parse_value (emit c ds) s)
unfolding parse_value
reparse_short c ds s m hd ht hl hv =
    let (d, found, k, e) = parse_e164-emit c ds m ht hd hl in
    let some_text : truthy (emit c ds) ≡ true =
      rw (emit_lem c ds ht hl) (truthy-append c.dial ds ht) in
    rw (some_text, parse_value)
      (rw (found, parse_value) (reparse_digits c d ds s m k e hd ht hl hv))

reparse :
    (c : Country) (ds : Text) (s : Input)
    → In c countries
    → all is_digit ds ≡ true
    → truthy ds ≡ true
    → s.value ≡ emit c ds
    → Reparsed c ds (parse_value (emit c ds) s)
reparse c ds s m hd ht hv =
    let cut : Text = take c.digits ds in
    let (v, e, l) =
      reparse_short c cut s m (all-take c.digits ds hd)
        (truthy-take c.digits ds (digits-pos c m) ht) (length-take-le c.digits ds)
        (hv ∙ sym (emit-take c ds)) in
    rw (← emit-take c ds) (v, e, l ∙ take-take c.digits ds)

-- The same for the empty number, and for a text that the parent had already.
on_change-Reparsed :
    (c : Country) (ds : Text) (s : Input)
    → In c countries
    → all is_digit ds ≡ true
    → let t = on_change (emit c ds) (record s { country = c; local_digits = ds }) in
      IsValid t × (t.country.dial ≡ c.dial) × (take c.digits t.local_digits ≡ take c.digits ds)
unfolding on_change
on_change-Reparsed c ds s m hd = elim (Bool-cases (same (emit c ds) s.value)) [
  | inl e ↦ rw e (
    record { known = m; numeric = hd; emitted = sym ((same_iff (emit c ds) s.value).0 e) },
    refl,
    refl,
  )
  | inr e ↦ rw e (changed ds hd)
]
  where
    changed :
        (es : Text)
        → all is_digit es ≡ true
        → let t =
            parse_value
              (emit c es)
              (record s { country = c; local_digits = es; value = emit c es }) in
          IsValid t × (t.country.dial ≡ c.dial) × (take c.digits t.local_digits ≡ take c.digits es)
    changed [] h =
        rw (emit-nil c c.digits refl) (
          record { known = m; numeric = refl; emitted = sym (emit-nil c c.digits refl) },
          refl,
          refl,
        )
    changed (x ∷ es) h =
        let (v, e, l) =
          reparse c (x ∷ es)
            (record s { country = c; local_digits = x ∷ es; value = emit c (x ∷ es) }) m h refl
            refl in
        (v, e, ap (take c.digits) l ∙ take-take c.digits (x ∷ es))

-- The parent has what it was handed, and the dropdown is as it was.
on_change-value :
    (e164 : Text) (s : Input)
    → ((on_change e164 s).value ≡ e164) × ((on_change e164 s).is_open ≡ s.is_open)
unfolding on_change parse_value
on_change-value e164 s =
    let same_text = (same_iff e164 s.value).0 in
    elim (Bool-cases (same e164 s.value)) [
      | inl e ↦ rw e (sym (same_text e), refl)
      | inr e ↦ rw e (ground arith)
    ]

-- Typing into the field: the state is valid afterwards, the dial code is the old one, and the local
-- number and the parent's text are those of the digits typed, cut to the country's length.
pub handle_number_input-IsValid :
    (text : Text) (s : Input)
    → IsValid s
    → let t = handle_number_input text s in
      let raw = take s.country.digits (digits_only text) in
      IsValid t
      × (t.country.dial ≡ s.country.dial)
      × (take s.country.digits t.local_digits ≡ raw)
      × (t.value ≡ emit s.country raw)
unfolding handle_number_input
handle_number_input-IsValid text s v =
    let raw : Text = take s.country.digits (digits_only text) in
    let (w, e, l) =
      on_change-Reparsed s.country raw s v.known
        (all-take s.country.digits (digits_only text) (all-digits_only text)) in
    (w, e, l ∙ take-take s.country.digits (digits_only text), (on_change-value _ _).0)

-- Selecting a country of the table: the state is valid afterwards, with the dial code of the
-- selected country and the number cut to its length.
pub handle_country_select-IsValid :
    (c : Country) (s : Input)
    → IsValid s
    → In c countries
    → let t = handle_country_select c s in
      IsValid t
      × (t.country.dial ≡ c.dial)
      × (take c.digits t.local_digits ≡ take c.digits s.local_digits)
      × (t.is_open ≡ false)
unfolding handle_country_select
handle_country_select-IsValid c s v m =
    let (w, e, l) =
      on_change-Reparsed c s.local_digits (record s { is_open = false; search = [] }) m v.numeric in
    (w, e, l, (on_change-value _ _).1)

-- The countries behind which another one of the same dial code hides, and that other one.
abbrev Shadows : Text → Text → Type 0
Shadows dial code =
    (ds : Text) → (c : Country) × (find (has_dial (dial ++ ds)) sorted ≡ some c) × (c.code ≡ code)

one_is_us : Shadows (codes "+1") (codes "US")
unfolding countries
one_is_us ds = (_, refl, refl)

parse_dial :
    (dial code ds : Text) (s : Input)
    → Shadows dial code
    → starts_with (codes "+") dial ≡ true
    → (parse_value (dial ++ ds) s).country.code ≡ code
unfolding parse_value parse_e164
parse_dial [] code ds s sh h = absurd (cc)
parse_dial (x ∷ dial) code ds s sh h =
    let (c, found, e) = sh ds in rw (h, parse_e164) (rw (found, parse_e164) e)

-- A changed number under the dial code +1 ends with the country US, whichever country of that code
-- was selected: a user who selected Canada is moved to the United States by the next digit.
pub typing_leaves_canada :
    (text : Text) (s : Input)
    → s.country.dial ≡ codes "+1"
    → truthy (take s.country.digits (digits_only text)) ≡ true
    → s.value ≢ emit s.country (take s.country.digits (digits_only text))
    → (handle_number_input text s).country.code ≡ codes "US"
unfolding handle_number_input on_change
typing_leaves_canada text s e ht hv =
    let raw : Text = take s.country.digits (digits_only text) in
    elim (Bool-cases (same (emit s.country raw) s.value)) [
      | inl same_text ↦ absurd (hv (sym ((same_iff (emit s.country raw) s.value).0 same_text)))
      | inr changed ↦ rw changed (
          rw (emit_lem s.country raw ht (length-take-le s.country.digits (digits_only text)), e)
            (parse_dial (codes "+1") (codes "US") raw _ one_is_us refl))
    ]
