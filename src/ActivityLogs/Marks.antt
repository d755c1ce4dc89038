-- ===== src/ActivityLogs/Marks.antt =====
-- ActivityLogs.jsx: bookmarks and notes.
use hotel_ms.Common.{
  ℕ, ◌≡◌, refl, ◌≢◌, ◌==◌, if◌then◌else◌, false, not, List, [], ◌∷◌, none, some, Text, truthy,
  filter, find, arith,
}
use hotel_ms.ActivityLogs.{Logs, Note, has, toggle_bookmark, note_of, save_note}

has-removed : (id : ℕ) (ids : List ℕ) → has id (filter (λ y. not (y == id)) ids) ≡ false
has-removed id [] = refl
has-removed id (x ∷ xs) = ground (arith, has-removed id xs)

has-others :
    (id k : ℕ) (ids : List ℕ) → k ≢ id → has k (filter (λ y. not (y == id)) ids) ≡ has k ids
has-others id k [] h = refl
has-others id k (x ∷ xs) h = ground (arith, has-others id k xs h)

-- The bookmark that is clicked changes sides, and no other one does.
pub toggle_bookmark_lem :
    (id : ℕ) (s : Logs)
    → (has id (toggle_bookmark id s).bookmarks ≡ not (has id s.bookmarks))
      × ((k : ℕ) → k ≢ id → has k (toggle_bookmark id s).bookmarks ≡ has k s.bookmarks)
unfolding toggle_bookmark
toggle_bookmark_lem id s = (
  ground (arith, has-removed id s.bookmarks),
  λ k h. ground (arith, has-others id k s.bookmarks h, h),
)

note-removed :
    (id : ℕ) (ns : List Note) → find (λ n. n.id == id) (filter (λ n. not (n.id == id)) ns) ≡ none
note-removed id [] = refl
note-removed id (n ∷ ns) = ground (arith, note-removed id ns)

note-others :
    (id k : ℕ) (ns : List Note)
    → k ≢ id
    → find (λ n. n.id == k) (filter (λ n. not (n.id == id)) ns) ≡ find (λ n. n.id == k) ns
note-others id k [] h = refl
note-others id k (n ∷ ns) h = ground (arith, note-others id k ns h)

-- A note that is saved is read back, an empty one is gone, and no other note changes.
pub save_note_lem :
    (id : ℕ) (text : Text) (s : Logs)
    → (note_of id (save_note id text s)
        ≡ (if truthy text then some (record { id = id; text = text }) else none))
      × ((k : ℕ) → k ≢ id → note_of k (save_note id text s) ≡ note_of k s)
unfolding save_note note_of
save_note_lem id text s =
    (ground (arith, note-removed id s.notes), λ k h. ground (arith, note-others id k s.notes h, h))
