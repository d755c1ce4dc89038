-- ===== src/Phone/Parse.antt =====
-- PhoneInput.jsx `parseE164` and `emit`: a number that is handed to the parent and parsed again.
use hotel_ms.Common.{
  ◌≤◌, ◌≡◌, refl, Bool, true, not, ◌||◌, List, [], ◌∷◌, ◌++◌, some, Text, codes, same, starts_with,
  truthy, is_digit, digits_only-digits, drop-append, take-all, starts_with-append, length, find,
  all, In, all-In, find-In, sort, In-sort, sort-In, arith, same_iff,
}
use hotel_ms.Phone.Countries.{Country, countries}
use hotel_ms.Phone.{parse_e164, emit, longer_dial, has_dial}

abbrev pub sorted : List Country
sorted = sort longer_dial countries

compatible : Text → Text → Bool
compatible d e = starts_with d e || starts_with e d

starts_with-compatible : (d c ds : Text) → starts_with d (c ++ ds) ≡ true → compatible d c ≡ true
unfolding compatible
starts_with-compatible [] c ds h = refl
starts_with-compatible (x ∷ d) [] ds h = refl
starts_with-compatible (x ∷ d) (y ∷ c) ds h = ground (arith, starts_with-compatible d c ds)

-- Of two dial codes neither begins with the other, unless they are the same.
distinct_dials : Country → Country → Bool
unfolding compatible
distinct_dials c d = same d.dial c.dial || not (compatible d.dial c.dial)

dials_prefix_free : all (λ c. all (distinct_dials c) sorted) countries ≡ true
unfolding distinct_dials countries
dials_prefix_free = refl

dials_begin_with_plus : all (λ (c : Country). starts_with (codes "+") c.dial) countries ≡ true
unfolding countries
dials_begin_with_plus = refl

same_dial :
    (d c : Country) (ds : Text)
    → distinct_dials c d ≡ true
    → has_dial (c.dial ++ ds) d ≡ true
    → same d.dial c.dial ≡ true
unfolding distinct_dials
same_dial d c ds apart h = ground (arith, starts_with-compatible d.dial c.dial ds h)

-- A dial code in front of digits selects a country with that dial code.
find-dial :
    (c : Country) (ds : Text)
    → In c countries
    → (d : Country) × (find (has_dial (c.dial ++ ds)) sorted ≡ some d)
      × In d countries
      × (d.dial ≡ c.dial)
find-dial c ds m =
    let (d, found, k, h) =
      find-In (has_dial (c.dial ++ ds)) (In-sort longer_dial m) (starts_with-append c.dial ds) in
    let apart : distinct_dials c d ≡ true =
      all-In (distinct_dials c) k
        (all-In (λ (e : Country). all (distinct_dials e) sorted) m dials_prefix_free) in
    (
      d,
      found,
      sort-In longer_dial countries k,
      (same_iff d.dial c.dial).0 (same_dial d c ds apart h),
    )

starts_with-plus :
    (d ds : Text) → starts_with (codes "+") d ≡ true → starts_with (codes "+") (d ++ ds) ≡ true
starts_with-plus [] ds h = absurd (cc)
starts_with-plus (x ∷ d) ds h = h

pub emit_lem :
    (c : Country) (ds : Text) → truthy ds ≡ true → length ds ≤ c.digits → emit c ds ≡ c.dial ++ ds
unfolding emit
emit_lem c [] ht hl = absurd (cc)
emit_lem c (x ∷ ds) ht hl = rw (take-all c.digits (x ∷ ds) hl) (ground arith)

parse_found :
    (c d : Country) (ds : Text)
    → In c countries
    → find (has_dial (c.dial ++ ds)) sorted ≡ some d
    → d.dial ≡ c.dial
    → all is_digit ds ≡ true
    → parse_e164 (c.dial ++ ds) ≡ some (d, ds)
unfolding parse_e164
parse_found c d ds m found e hd =
    rw (starts_with-plus c.dial ds (all-In _ m dials_begin_with_plus))
      (rw (found, parse_e164) (simp (e, drop-append, digits_only-digits ds hd)))

-- What `emit` hands to the parent for a country of the table and a local number that is not empty
-- and not too long is parsed back to the same digits, with a country of the same dial code.
pub parse_e164-emit :
    (c : Country) (ds : Text)
    → In c countries
    → truthy ds ≡ true
    → all is_digit ds ≡ true
    → length ds ≤ c.digits
    → (d : Country) × (parse_e164 (emit c ds) ≡ some (d, ds)) × In d countries × (d.dial ≡ c.dial)
parse_e164-emit c ds m ht hd hl =
    let (d, found, k, e) = find-dial c ds m in
    (d, rw (emit_lem c ds ht hl) (parse_found c d ds m found e hd), k, e)
