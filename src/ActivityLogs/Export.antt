-- ===== src/ActivityLogs/Export.antt =====
-- ActivityLogs.jsx: `exportCSV`. `String` of a number is the language's, and is a parameter.
use hotel_ms.Common.{
  ℕ, ◌≡◌, refl, sym, ap, ◌∙◌, Bool, true, &&-eq-true, List, [], ◌∷◌, ◌++◌, Option, none, some, Text,
  codes, all, map, arith,
}
use hotel_ms.ActivityLogs.{Log, join}
use hotel_ms.ActivityLogs.Reader.{
  quoted, start, read_csv, Cell, bare_cell, quoted_cell, fits, bare, more_text, more_rows, read-row,
  append_nil,
}

abbrev pub header : List Text
header =
    codes "id"
    ∷ codes "severity"
    ∷ codes "action"
    ∷ codes "user_id"
    ∷ codes "user_name"
    ∷ codes "user_role"
    ∷ codes "resource"
    ∷ codes "resource_id"
    ∷ codes "detail"
    ∷ codes "ip_address"
    ∷ codes "created_at"
    ∷ []

module _ (show : ℕ → Text) where
  abbrev pub csv_row : Log → Text
  csv_row l = join 44 (
      show l.id
      ∷ l.severity
      ∷ l.action
      ∷ l.user_id
      ∷ l.user_name
      ∷ l.user_role
      ∷ l.resource
      ∷ l.resource_id
      ∷ quoted l.detail
      ∷ l.ip_address
      ∷ l.created_at
      ∷ [])

  -- The text of the file.
  unfoldable pub export_csv : List Log → Text
  export_csv rows = join 10 (join 44 header ∷ map csv_row rows)

module _ (show : ℕ → Text) where
  -- What a row should say.
  abbrev pub fields : Log → List Text
  fields l =
      show l.id
      ∷ l.severity
      ∷ l.action
      ∷ l.user_id
      ∷ l.user_name
      ∷ l.user_role
      ∷ l.resource
      ∷ l.resource_id
      ∷ l.detail
      ∷ l.ip_address
      ∷ l.created_at
      ∷ []

  abbrev cells : Log → List Cell
  cells l =
      bare_cell l.severity
      ∷ bare_cell l.action
      ∷ bare_cell l.user_id
      ∷ bare_cell l.user_name
      ∷ bare_cell l.user_role
      ∷ bare_cell l.resource
      ∷ bare_cell l.resource_id
      ∷ quoted_cell l.detail
      ∷ bare_cell l.ip_address
      ∷ bare_cell l.created_at
      ∷ []

  -- No comma, quote or new line stands in a field that is written without quotes.
  abbrev pub clean : Log → Bool
  clean l = all bare (
      show l.id
      ∷ l.severity
      ∷ l.action
      ∷ l.user_id
      ∷ l.user_name
      ∷ l.user_role
      ∷ l.resource
      ∷ l.resource_id
      ∷ l.ip_address
      ∷ l.created_at
      ∷ [])

  clean-fits : (l : Log) → clean l ≡ true → all fits (bare_cell (show l.id) ∷ cells l) ≡ true
  clean-fits l h = ground (arith, h)

  read-log :
      (l : Log) (o : Option Text)
      → clean l ≡ true
      → read_csv start (csv_row show l ++ more_text o) ≡ fields l ∷ more_rows o
  read-log l o h = read-row (bare_cell (show l.id)) (cells l) o (clean-fits l h)

  read-logs :
      (l : Log) (ls : List Log)
      → all clean (l ∷ ls) ≡ true
      → read_csv start (join 10 (map (csv_row show) (l ∷ ls))) ≡ map fields (l ∷ ls)
  read-logs l [] h =
      ap (read_csv start) (sym (append_nil (csv_row show l))) ∙ read-log l none (ground (arith, h))
  read-logs l (k ∷ ls) h =
      let (first, rest) = &&-eq-true (clean l) (all clean (k ∷ ls)) h in
      read-log l (some (join 10 (map (csv_row show) (k ∷ ls)))) first
      ∙ ap (λ rows. fields l ∷ rows) (read-logs k ls rest)

  -- The exported file is read back: where no field but the detail has a comma, a quote or a new line,
  -- the reader finds the header and, row by row, the fields of each entry, the detail as it was.
  pub export_csv-reads_back :
      (rows : List Log)
      → all clean rows ≡ true
      → read_csv start (export_csv show rows) ≡ header ∷ map fields rows
  unfolding export_csv
  export_csv-reads_back [] h = refl
  export_csv-reads_back (l ∷ ls) h = ap (λ rows. header ∷ rows) (read-logs l ls h)
