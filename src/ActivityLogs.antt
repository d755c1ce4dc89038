-- ===== src/ActivityLogs.antt =====
-- frontend/react-app/src/pages/admin/system/ActivityLogs.jsx: the audit trail with its pages, its
-- filters, the refresh every thirty seconds that holds new entries back, bookmarks and notes. Both
-- objects kept in the browser's storage are lists of entries.
pub mod Export
pub mod Feed
pub mod Marks
pub mod Pages
pub mod Reader
mod Tests
use hotel_ms.Common.{
  ℕ, zero, suc, ◌+◌, ◌-◌, ◌*◌, ◌/◌, min, ◌==◌, ltb, leb, if◌then◌else◌, Bool, true, false, not,
  ◌&&◌, List, [], ◌∷◌, ◌++◌, Option, none, some, Text, truthy, contains, to_lower, same, codes,
  filter, any, find, length, map,
}

-- An entry of the server; a text that is missing is empty.
pub record Log : Type 0 where
  pub id : ℕ
  pub severity : Text
  pub action : Text
  pub user_id : Text
  pub user_name : Text
  pub user_role : Text
  pub resource : Text
  pub resource_id : Text
  pub detail : Text
  pub ip_address : Text
  pub created_at : Text

pub record Filters : Type 0 where
  pub search : Text
  pub severity : Text
  pub role : Text
  pub action : Text
  pub date_from : Text
  pub date_to : Text

pub record Note : Type 0 where
  pub id : ℕ
  pub text : Text

pub record Logs : Type 0 where
  pub logs : List Log
  pub total : ℕ
  pub page : ℕ
  pub loading : Bool
  pub new_count : ℕ
  pub pending_logs : List Log
  -- `latestIdRef`
  pub latest_id : ℕ
  pub filters : Filters
  pub bookmarks_only : Bool
  pub bookmarks : List ℕ
  pub notes : List Note

abbrev pub page_size : ℕ
page_size = 50

abbrev pub no_filters : Filters
no_filters = record {
  search = [];
  severity = codes "all";
  role = codes "all";
  action = codes "all";
  date_from = [];
  date_to = [];
}

-- `setFilter`, which goes back to the first page.
unfoldable pub set_filter : (Filters → Filters) → Logs → Logs
set_filter change s = record s { filters = change s.filters; page = 0 }

unfoldable pub clear_filters : Logs → Logs
clear_filters s = record s { filters = no_filters; bookmarks_only = false; page = 0 }

pub record Params : Type 0 where
  pub limit : ℕ
  pub offset : ℕ
  pub action : Option Text
  pub severity : Option Text
  pub role : Option Text
  pub date_from : Option Text
  pub date_to : Option Text

abbrev pub chosen : Text → Option Text
chosen t = if same t (codes "all") then none else some t

abbrev pub given : Text → Option Text
given t = if truthy t then some t else none

unfoldable pub build_params : Logs → Params
build_params s = record {
  limit = page_size;
  offset = s.page * page_size;
  action = chosen s.filters.action;
  severity = chosen s.filters.severity;
  role = chosen s.filters.role;
  date_from = given s.filters.date_from;
  date_to = given s.filters.date_to;
}

-- The response: the entries, and how many there are in all.
pub record Answer : Type 0 where
  pub items : List Log
  pub total : Option ℕ

abbrev pub count_of : Answer → ℕ
count_of r = elim r.total [ none ↦ length r.items | some n ↦ n ]

abbrev pub newer : ℕ → Log → Bool
newer latest l = ltb latest l.id

abbrev pub shown : Answer → Logs → Logs
shown r s = record s { logs = r.items; total = count_of r }

-- `load` up to its request, which is silent on the timer.
unfoldable pub load : Bool → Logs → Logs
load silent s = if silent then s else record s { loading = true }

abbrev pub ended : Bool → Logs → Logs
ended silent s = if silent then s else record s { loading = false }

-- What follows the request. `none` stands for a failure, which is ignored.
abbrev pub answered : Bool → Answer → Logs → Logs
answered silent r s = elim r.items [
  | [] ↦ shown r s
  | first ∷ rest ↦
      if silent && (ltb 0 s.latest_id && ltb s.latest_id first.id)
      then (let fresh = filter (newer s.latest_id) r.items in
          record s { pending_logs = fresh; new_count = length fresh; latest_id = first.id })
      else record (shown r s) { latest_id = first.id }
]

unfoldable pub loaded : Bool → Option Answer → Logs → Logs
loaded silent none s = ended silent s
loaded silent (some r) s = ended silent (answered silent r s)

unfoldable pub apply_pending : Logs → Logs
apply_pending s = record s { logs = s.pending_logs ++ s.logs; new_count = 0; pending_logs = [] }

abbrev pub has : ℕ → List ℕ → Bool
has id ids = any (λ y. y == id) ids

unfoldable pub toggle_bookmark : ℕ → Logs → Logs
toggle_bookmark id s = record s {
  bookmarks =
      if has id s.bookmarks then filter (λ y. not (y == id)) s.bookmarks else id ∷ s.bookmarks;
}

unfoldable pub note_of : ℕ → Logs → Option Note
note_of id s = find (λ n. n.id == id) s.notes

-- `saveNote`: an empty text removes the note.
unfoldable pub save_note : ℕ → Text → Logs → Logs
save_note id text s =
    let others = filter (λ n. not (n.id == id)) s.notes in
    record s { notes = if truthy text then record { id = id; text = text } ∷ others else others }

-- `xs.join(sep)` for a separator of one character.
abbrev pub join : ℕ → List Text → Text
join sep [] = []
join sep (x ∷ []) = x
join sep (x ∷ y ∷ ys) = x ++ sep ∷ join sep (y ∷ ys)

abbrev pub haystack : Log → Text
haystack l = to_lower (
    join 32 (
      l.action ∷ l.resource ∷ l.user_name ∷ l.user_role ∷ l.detail ∷ l.ip_address ∷ l.user_id ∷ []))

abbrev pub matches : Logs → Log → Bool
matches s l =
    if s.bookmarks_only && not (has l.id s.bookmarks)
    then false
    else if truthy s.filters.search
    then contains (to_lower s.filters.search) (haystack l)
    else true

unfoldable pub filtered : Logs → List Log
filtered s = filter (matches s) s.logs

unfoldable pub bookmarked_logs : Logs → List Log
bookmarked_logs s = filter (λ l. has l.id s.bookmarks) s.logs

-- The pages: `Math.ceil(total / PAGE_SIZE)`.
unfoldable pub total_pages : Logs → ℕ
total_pages s = (s.total + 49) / page_size

-- The buttons below the table, which are there if there are two pages. The differences are cut off
-- at 0 by `Math.max`.
unfoldable pub window_start : Logs → ℕ
unfolding total_pages
window_start s = min (s.page - 2) (total_pages s - 5)

abbrev pub count_from : ℕ → ℕ → List ℕ
count_from start zero = []
count_from start (suc n) = start ∷ count_from (start + 1) n

unfoldable pub page_buttons : Logs → List ℕ
unfolding window_start total_pages
page_buttons s = count_from (window_start s) (min 5 (total_pages s))

-- What the administrator and the server do.
pub data Event : Type 0 where
  filter_set : (Filters → Filters) → Event
  filters_cleared bookmarks_only_clicked first_clicked prev_clicked next_clicked last_clicked
        new_clicked :
      Event
  page_clicked bookmark_clicked : ℕ → Event
  note_saved : ℕ → Text → Event
  load_started : Bool → Event
  load_ended : Bool → Option Answer → Event

abbrev pub go_to : Bool → ℕ → Logs → Logs
go_to enabled p s = if enabled then record s { page = p } else s

abbrev pub paging : Logs → Bool
paging s = ltb 1 (total_pages s)

unfoldable pub step : Event → Logs → Logs
unfolding set_filter clear_filters load loaded apply_pending toggle_bookmark save_note total_pages
    page_buttons
step (filter_set change) s = set_filter change s
step filters_cleared s = clear_filters s
step bookmarks_only_clicked s = record s { bookmarks_only = not s.bookmarks_only }
step first_clicked s = go_to (paging s && not (s.page == 0)) 0 s
step prev_clicked s = go_to (paging s && not (s.page == 0)) (s.page - 1) s
step next_clicked s =
    go_to (paging s && ltb (s.page + 1) (total_pages s)) (min (total_pages s - 1) (s.page + 1)) s
step last_clicked s = go_to (paging s && ltb (s.page + 1) (total_pages s)) (total_pages s - 1) s
step (page_clicked p) s = go_to (paging s && has p (page_buttons s)) p s
step new_clicked s = if ltb 0 s.new_count then apply_pending s else s
step (bookmark_clicked id) s = toggle_bookmark id s
step (note_saved id text) s = save_note id text s
step (load_started silent) s = load silent s
step (load_ended silent r) s = loaded silent r s

abbrev pub run : List Event → Logs → Logs
run [] s = s
run (e ∷ es) s = run es (step e s)
