-- ===== src/ActivityLogs/Reader.antt =====
-- ActivityLogs.jsx: the quoting of `exportCSV`, and a reader of comma-separated values against which the
-- file is checked.
use hotel_ms.Common.{
  ℕ, ◌≡◌, refl, ap, ◌∙◌, ◌==◌, if◌then◌else◌, if-true, if-false, Bool, true, not, ◌&&◌, &&-eq-true,
  Bool-cases, inl, inr, List, [], ◌∷◌, ◌++◌, Option, none, some, Text, all, map, arith,
}
use mathlib.Core.List.{append_assoc}
use hotel_ms.ActivityLogs.{join}

-- `.replace(/"/g, '""')`
abbrev pub doubled : Text → Text
doubled [] = []
doubled (c ∷ s) = if c == 34 then 34 ∷ 34 ∷ doubled s else c ∷ doubled s

abbrev pub quoted : Text → Text
quoted s = 34 ∷ (doubled s ++ 34 ∷ [])

-- The reader: where it stands in a field, and what each character does.
pub data Place : Type 0 where
  start plain inside after : Place

pub data Action : Type 0 where
  add skip end_field end_row : Action

abbrev outside : ℕ → Place × Action
outside c =
    if c == 44 then (start, end_field) else if c == 10 then (start, end_row) else (plain, add)

abbrev pub on_char : Place → ℕ → Place × Action
on_char start c = if c == 34 then (inside, skip) else outside c
on_char plain c = outside c
on_char inside c = if c == 34 then (after, skip) else (inside, add)
on_char after c = if c == 34 then (inside, add) else outside c

-- The field `f` before those of the first row.
abbrev pub with_field : Text → List (List Text) → List (List Text)
with_field f [] = []
with_field f (r ∷ rs) = (f ∷ r) ∷ rs

abbrev pub push : ℕ → List (List Text) → List (List Text)
push c [] = []
push c ([] ∷ rs) = [] ∷ rs
push c ((f ∷ fs) ∷ rs) = ((c ∷ f) ∷ fs) ∷ rs

abbrev pub act : Action → ℕ → List (List Text) → List (List Text)
act add c rows = push c rows
act skip c rows = rows
act end_field c rows = with_field [] rows
act end_row c rows = ([] ∷ []) ∷ rows

abbrev pub read_csv : Place → Text → List (List Text)
read_csv p [] = ([] ∷ []) ∷ []
read_csv p (c ∷ s) = let rows = read_csv (on_char p c).0 s in act (on_char p c).1 c rows

-- A text that needs no quotes.
abbrev pub bare_char : ℕ → Bool
bare_char c = not (c == 34) && (not (c == 44) && not (c == 10))

abbrev pub bare : Text → Bool
bare = all bare_char

push-with_field :
    (c : ℕ) (f : Text) (rows : List (List Text))
    → push c (with_field f rows) ≡ with_field (c ∷ f) rows
push-with_field c f [] = refl
push-with_field c f (r ∷ rs) = refl

on_char-bare :
    (c : ℕ)
    → bare_char c ≡ true
    → (on_char start c ≡ (plain, add)) × (on_char plain c ≡ (plain, add))
on_char-bare c h = (ground (arith, h), ground (arith, h))

-- What ends a field: a text that the reader takes in the same way behind any character but in quotes.
pub record Ends (t : Text) (rows : List (List Text)) : Type 0 where
  pub at_start : read_csv start t ≡ with_field [] rows
  pub at_plain : read_csv plain t ≡ with_field [] rows
  pub at_after : read_csv after t ≡ with_field [] rows

read-plain :
    (f t : Text) (rows : List (List Text))
    → bare f ≡ true
    → Ends t rows
    → read_csv plain (f ++ t) ≡ with_field f rows
read-plain [] t rows h e = e.at_plain
read-plain (c ∷ f) t rows h e =
    let (b, rest) = &&-eq-true (bare_char c) (bare f) h in
    ap (λ o. act o.1 c (read_csv o.0 (f ++ t))) (on_char-bare c b).1
    ∙ ap (push c) (read-plain f t rows rest e)
    ∙ push-with_field c f rows

read-bare :
    (f t : Text) (rows : List (List Text))
    → bare f ≡ true
    → Ends t rows
    → read_csv start (f ++ t) ≡ with_field f rows
read-bare [] t rows h e = e.at_start
read-bare (c ∷ f) t rows h e =
    let (b, rest) = &&-eq-true (bare_char c) (bare f) h in
    ap (λ o. act o.1 c (read_csv o.0 (f ++ t))) (on_char-bare c b).0
    ∙ ap (push c) (read-plain f t rows rest e)
    ∙ push-with_field c f rows

read-inside :
    (f t : Text) (rows : List (List Text))
    → Ends t rows
    → read_csv inside (doubled f ++ 34 ∷ t) ≡ with_field f rows
read-inside [] t rows e = e.at_after
read-inside (c ∷ f) t rows e = elim (Bool-cases (c == 34)) [
  | inl h ↦
      ap (λ s. read_csv inside (s ++ 34 ∷ t)) (if-true (c == 34) _ _ h)
      ∙ ap (push 34) (read-inside f t rows e)
      ∙ push-with_field 34 f rows
      ∙ ap (λ k. with_field (k ∷ f) rows) (ground (arith, h))
  | inr h ↦
      let plain_char : on_char inside c ≡ (inside, add) = ground (arith, h) in
      ap (λ s. read_csv inside (s ++ 34 ∷ t)) (if-false (c == 34) _ _ h)
      ∙ ap (λ o. act o.1 c (read_csv o.0 (doubled f ++ 34 ∷ t))) plain_char
      ∙ ap (push c) (read-inside f t rows e)
      ∙ push-with_field c f rows
]

-- A field as it is written, and as it is read.
pub data Cell : Type 0 where
  bare_cell quoted_cell : Text → Cell

abbrev pub written : Cell → Text
written (bare_cell f) = f
written (quoted_cell f) = quoted f

abbrev pub value : Cell → Text
value (bare_cell f) = f
value (quoted_cell f) = f

abbrev pub fits : Cell → Bool
fits (bare_cell f) = bare f
fits (quoted_cell f) = true

field-Ends : (t : Text) → Ends (44 ∷ t) (read_csv start t)
field-Ends t = record { at_start = refl; at_plain = refl; at_after = refl }

-- What may follow a row.
abbrev pub more_text : Option Text → Text
more_text none = []
more_text (some t) = 10 ∷ t

abbrev pub more_rows : Option Text → List (List Text)
more_rows none = []
more_rows (some t) = read_csv start t

row-Ends : (o : Option Text) → Ends (more_text o) ([] ∷ more_rows o)
row-Ends none = record { at_start = refl; at_plain = refl; at_after = refl }
row-Ends (some t) = record { at_start = refl; at_plain = refl; at_after = refl }

read-cell :
    (x : Cell) (t : Text) (rows : List (List Text))
    → fits x ≡ true
    → Ends t rows
    → read_csv start (written x ++ t) ≡ with_field (value x) rows
read-cell (bare_cell f) t rows h e = read-bare f t rows h e
read-cell (quoted_cell f) t rows h e =
    ap (read_csv inside) (append_assoc (doubled f) (34 ∷ []) t) ∙ read-inside f t rows e

pub read-row :
    (x : Cell) (xs : List Cell) (o : Option Text)
    → all fits (x ∷ xs) ≡ true
    → read_csv start (join 44 (map written (x ∷ xs)) ++ more_text o)
      ≡ map value (x ∷ xs) ∷ more_rows o
read-row x [] o h = read-cell x (more_text o) ([] ∷ more_rows o) (ground (arith, h)) (row-Ends o)
read-row x (y ∷ ys) o h =
    let (first, rest) = &&-eq-true (fits x) (all fits (y ∷ ys)) h in
    let t = join 44 (map written (y ∷ ys)) in
    ap (read_csv start) (append_assoc (written x) (44 ∷ t) (more_text o))
    ∙ read-cell x (44 ∷ (t ++ more_text o)) _ first (field-Ends (t ++ more_text o))
    ∙ ap (with_field (value x)) (read-row y ys o rest)

pub append_nil : (s : Text) → s ++ [] ≡ s
append_nil [] = refl
append_nil (c ∷ s) = ap (λ t. c ∷ t) (append_nil s)
