-- ===== src/ActivityLogs/Tests.antt =====
-- The activity logs on concrete inputs, and the theorems applied to them.
use hotel_ms.Common.{
  ℕ, ◌<◌, min, ◌≡◌, refl, true, false, [], ◌∷◌, ◌++◌, none, some, Text, codes, length, map, In,
  arith,
}
use hotel_ms.ActivityLogs.{
  Log, Logs, Answer, no_filters, loaded, apply_pending, filtered, total_pages, page_buttons,
}
use hotel_ms.ActivityLogs.Feed.{live_refresh_agrees, second_refresh_drops}
use hotel_ms.ActivityLogs.Pages.{page_buttons_lem}
use hotel_ms.ActivityLogs.Reader.{start, read_csv}
use hotel_ms.ActivityLogs.Export.{header, fields, export_csv, export_csv-reads_back}

abbrev entry : ℕ → Log
entry n = record {
  id = n;
  severity = codes "info";
  action = codes "login";
  user_id = codes "3";
  user_name = codes "Olim";
  user_role = codes "guest";
  resource = [];
  resource_id = [];
  detail = codes "said \"yes\", then left";
  ip_address = codes "10.0.0.1";
  created_at = codes "2026-05-04";
}

abbrev page_one : Logs
page_one = record {
  logs = entry 2 ∷ entry 1 ∷ [];
  total = 120;
  page = 1;
  loading = false;
  new_count = 0;
  pending_logs = [];
  latest_id = 2;
  filters = no_filters;
  bookmarks_only = false;
  bookmarks = 1 ∷ [];
  notes = [];
}

-- A page that is full with two entries: entry 1 has left it.
abbrev one_more : Answer
one_more = record { items = entry 3 ∷ entry 2 ∷ []; total = some 121 }

abbrev two_more : Answer
two_more = record { items = entry 4 ∷ entry 3 ∷ entry 2 ∷ []; total = none }

filtered-bookmarked : filtered (record page_one { bookmarks_only = true }) ≡ entry 1 ∷ []
unfolding filtered
filtered-bookmarked = refl

live_refresh_agrees_example :
    let t = apply_pending (loaded true (some one_more) page_one) in
    let u = loaded false (some one_more) page_one in
    (t.logs ≡ u.logs ++ entry 1 ∷ [])
    × (t.latest_id ≡ u.latest_id)
    × (t.new_count ≡ 0)
    × (t.pending_logs ≡ [])
    × (t.total ≡ 120)
    × (u.total ≡ 121)
live_refresh_agrees_example =
    live_refresh_agrees one_more (entry 3) [] (entry 2 ∷ []) (entry 1 ∷ []) page_one refl refl
      (omega arith) refl refl

second_refresh_drops_example :
    let t = loaded true (some two_more) (loaded true (some one_more) page_one) in
    (t.logs ≡ page_one.logs) × ¬ (In (entry 3) t.pending_logs)
second_refresh_drops_example =
    second_refresh_drops one_more two_more (entry 3) (entry 4) (entry 2 ∷ [])
      (entry 3 ∷ entry 2 ∷ []) page_one refl refl (omega arith) (omega arith) (omega arith)

second_of_three : 1 < total_pages page_one
unfolding total_pages
second_of_three = omega arith

page_buttons_lem_example :
    (length (page_buttons page_one) ≡ min 5 (total_pages page_one))
    × In 1 (page_buttons page_one)
    × ((p : ℕ) → In p (page_buttons page_one) → p < total_pages page_one)
page_buttons_lem_example = page_buttons_lem page_one second_of_three

abbrev unary : ℕ → Text
unary n = codes "1"

export_csv-reads_back_example :
    read_csv start (export_csv unary (entry 1 ∷ [])) ≡ header ∷ map (fields unary) (entry 1 ∷ [])
export_csv-reads_back_example = export_csv-reads_back unary (entry 1 ∷ []) refl
