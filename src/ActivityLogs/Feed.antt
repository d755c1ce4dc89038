-- ===== src/ActivityLogs/Feed.antt =====
-- ActivityLogs.jsx: the entries that the timer's refresh holds back until the button is clicked.
use hotel_ms.Common.{
  ℕ, ◌<◌, ◌≤◌, ◌≡◌, refl, sym, ap, ◌∙◌, ltb, if-true, if-false, Bool, true, false, not, ◌&&◌, List,
  [], ◌∷◌, ◌++◌, Option, none, some, filter, all, length, In, filter-In, Bool-cases, inl, inr,
  subst, arith,
}
use mathlib.Core.List.{append_assoc}
use hotel_ms.ActivityLogs.{
  Log, Logs, Answer, newer, loaded, answered, ended, apply_pending, step, run, Event, count_of,
  filter_set, filters_cleared, bookmarks_only_clicked, first_clicked, prev_clicked, next_clicked,
  last_clicked, new_clicked, page_clicked, bookmark_clicked, note_saved, load_started, load_ended,
  load, set_filter, clear_filters, toggle_bookmark, save_note, go_to,
}

-- The state after a refresh that brings news.
held :
    (r : Answer) (first : Log) (rest : List Log) (s : Logs)
    → r.items ≡ first ∷ rest
    → 0 < s.latest_id
    → s.latest_id < first.id
    → loaded true (some r) s ≡ (
        let fresh = filter (newer s.latest_id) r.items in
        record s { pending_logs = fresh; new_count = length fresh; latest_id = first.id })
unfolding loaded
held r first rest s e h k =
    let news : Answer → Logs = λ q.
      let fresh = filter (newer s.latest_id) q.items in
      record s { pending_logs = fresh; new_count = length fresh; latest_id = first.id } in
    let q : List Log → Answer = λ ls. record r { items = ls } in
    let test : (ltb 0 s.latest_id && ltb s.latest_id first.id) ≡ true = ground arith in
    ap (λ ls. loaded true (some (q ls)) s) e
    ∙ if-true (ltb 0 s.latest_id && ltb s.latest_id first.id) _ _ test
    ∙ sym (ap (λ ls. news (q ls)) e)

-- The state after one that brings none.
replaced :
    (r : Answer) (first : Log) (rest : List Log) (s : Logs)
    → r.items ≡ first ∷ rest
    → first.id ≤ s.latest_id
    → loaded true (some r) s ≡ record s { logs = r.items; total = count_of r; latest_id = first.id }
unfolding loaded
replaced r first rest s e h =
    let q : List Log → Answer = λ ls. record r { items = ls } in
    let test : (ltb 0 s.latest_id && ltb s.latest_id first.id) ≡ false = ground arith in
    ap (λ ls. loaded true (some (q ls)) s) e
    ∙ if-false (ltb 0 s.latest_id && ltb s.latest_id first.id) _ _ test
    ∙ sym (ap (λ ls. record s { logs = ls; total = count_of (q ls); latest_id = first.id }) e)

none_newer :
    (latest : ℕ) (ls : List Log)
    → all (λ l. not (newer latest l)) ls ≡ true
    → filter (newer latest) ls ≡ []
none_newer latest [] h = refl
none_newer latest (l ∷ ls) h = ground (arith, none_newer latest ls)

split_newer :
    (latest : ℕ) (fresh old : List Log)
    → all (newer latest) fresh ≡ true
    → all (λ l. not (newer latest l)) old ≡ true
    → filter (newer latest) (fresh ++ old) ≡ fresh
split_newer latest [] old h k = none_newer latest old k
split_newer latest (l ∷ ls) old h k = ground (arith, split_newer latest ls old)

-- The state after a reload that is not silent.
reloaded :
    (r : Answer) (first : Log) (rest : List Log) (s : Logs)
    → r.items ≡ first ∷ rest
    → loaded false (some r) s
      ≡ record s { logs = r.items; total = count_of r; latest_id = first.id; loading = false }
unfolding loaded
reloaded r first rest s e =
    let q : List Log → Answer = λ ls. record r { items = ls } in
    ap (λ ls. loaded false (some (q ls)) s) e
    ∙ sym (
        ap
          (λ ls. record s {
            logs = ls;
            total = count_of (q ls);
            latest_id = first.id;
            loading = false;
          })
          e)

-- A refresh on the timer and a click on the button show what a full reload shows: where the server's
-- page has new entries before those that are shown, of which the last ones may have left the page, the
-- list is that of the reload, with those that have left behind it, the newest entry is the same one,
-- and nothing is held back any more. The number of all entries, which the reload renews, stays as it
-- was.
pub live_refresh_agrees :
    (r : Answer) (first : Log) (fresh stay gone : List Log) (s : Logs)
    → s.logs ≡ stay ++ gone
    → r.items ≡ first ∷ fresh ++ stay
    → 0 < s.latest_id
    → all (newer s.latest_id) (first ∷ fresh) ≡ true
    → all (λ l. not (newer s.latest_id l)) stay ≡ true
    → let t = apply_pending (loaded true (some r) s) in
      let u = loaded false (some r) s in
      (t.logs ≡ u.logs ++ gone)
      × (t.latest_id ≡ u.latest_id)
      × (t.new_count ≡ 0)
      × (t.pending_logs ≡ [])
      × (t.total ≡ s.total)
      × (u.total ≡ count_of r)
unfolding apply_pending
live_refresh_agrees r first fresh stay gone s a e h k o =
    let news : filter (newer s.latest_id) r.items ≡ first ∷ fresh =
      ap (filter (newer s.latest_id)) e ∙ split_newer s.latest_id (first ∷ fresh) stay k o in
    let state = held r first (fresh ++ stay) s e h (ground (arith, k)) in
    let whole = reloaded r first (fresh ++ stay) s e in
    (
      ap (λ v. (apply_pending v).logs) state
          ∙ ap (λ ls. ls ++ s.logs) news
          ∙ ap (λ ls. first ∷ fresh ++ ls) a
          ∙ sym (append_assoc (first ∷ fresh) stay gone)
          ∙ ap (λ ls. ls ++ gone) (sym e ∙ sym (ap (λ v. v.logs) whole)),
      ap (λ v. (apply_pending v).latest_id) state ∙ sym (ap (λ v. v.latest_id) whole),
      refl,
      refl,
      ap (λ v. (apply_pending v).total) state,
      ap (λ v. v.total) whole,
    )

-- The entries that one refresh holds back are dropped by the next refresh that brings more: its
-- first entry is then neither shown nor held back.
pub second_refresh_drops :
    (r1 r2 : Answer) (a b : Log) (as1 bs : List Log) (s : Logs)
    → r1.items ≡ a ∷ as1
    → r2.items ≡ b ∷ bs
    → 0 < s.latest_id
    → s.latest_id < a.id
    → a.id < b.id
    → let t = loaded true (some r2) (loaded true (some r1) s) in
      (t.logs ≡ s.logs) × ¬ (In a t.pending_logs)
second_refresh_drops r1 r2 a b as1 bs s e f h k l =
    let u : Logs =
      (let fresh = filter (newer s.latest_id) r1.items in
        record s { pending_logs = fresh; new_count = length fresh; latest_id = a.id }) in
    let state =
      ap (loaded true (some r2)) (held r1 a as1 s e h k) ∙ held r2 b bs u f (omega arith) l in
    (
      ap (λ v. v.logs) state,
      λ m.
          let found : In a (filter (newer a.id) r2.items) =
            subst (λ v. In a v.pending_logs) state m in
          let n : ltb a.id a.id ≡ true = (filter-In (newer a.id) r2.items found).1 in
          absurd (ground (arith, n)),
    )

-- A refresh that brings news, a second one that brings the same answer, and a click on the button
-- show every new entry twice.
pub refresh_then_apply_doubles :
    (r : Answer) (a : Log) (rest : List Log) (s : Logs)
    → r.items ≡ a ∷ rest
    → 0 < s.latest_id
    → s.latest_id < a.id
    → (apply_pending (loaded true (some r) (loaded true (some r) s))).logs
      ≡ filter (newer s.latest_id) r.items ++ r.items
unfolding apply_pending
refresh_then_apply_doubles r a rest s e h k =
    let u : Logs =
      (let fresh = filter (newer s.latest_id) r.items in
        record s { pending_logs = fresh; new_count = length fresh; latest_id = a.id }) in
    let state =
      ap (loaded true (some r)) (held r a rest s e h k) ∙ replaced r a rest u e (omega arith) in
    ap (λ v. (apply_pending v).logs) state

-- The number on the button is that of the entries behind it.
abbrev pub IsCounted : Logs → Type 0
IsCounted s = s.new_count ≡ length s.pending_logs

ended-IsCounted : (silent : Bool) (s : Logs) → IsCounted s → IsCounted (ended silent s)
ended-IsCounted true s v = v
ended-IsCounted false s v = v

answered-IsCounted :
    (silent : Bool) (r : Answer) (s : Logs) → IsCounted s → IsCounted (answered silent r s)
answered-IsCounted silent r s v = go r.items
  where
    go : (ls : List Log) → IsCounted (answered silent (record r { items = ls }) s)
    go [] = v
    go (first ∷ rest) =
        elim (Bool-cases (silent && (ltb 0 s.latest_id && ltb s.latest_id first.id))) [
          | inl e ↦ subst IsCounted (sym (if-true _ _ _ e)) refl
          | inr e ↦ subst IsCounted (sym (if-false _ _ _ e)) v
        ]

loaded-IsCounted :
    (silent : Bool) (r : Option Answer) (s : Logs) → IsCounted s → IsCounted (loaded silent r s)
unfolding loaded
loaded-IsCounted silent none s v = ended-IsCounted silent s v
loaded-IsCounted silent (some r) s v =
    ended-IsCounted silent (answered silent r s) (answered-IsCounted silent r s v)

go_to-IsCounted : (b : Bool) (p : ℕ) (s : Logs) → IsCounted s → IsCounted (go_to b p s)
go_to-IsCounted true p s v = v
go_to-IsCounted false p s v = v

step-IsCounted : (e : Event) (s : Logs) → IsCounted s → IsCounted (step e s)
unfolding step load set_filter clear_filters toggle_bookmark save_note apply_pending
step-IsCounted (filter_set change) s v = v
step-IsCounted filters_cleared s v = v
step-IsCounted bookmarks_only_clicked s v = v
step-IsCounted first_clicked s v = go_to-IsCounted _ _ s v
step-IsCounted prev_clicked s v = go_to-IsCounted _ _ s v
step-IsCounted next_clicked s v = go_to-IsCounted _ _ s v
step-IsCounted last_clicked s v = go_to-IsCounted _ _ s v
step-IsCounted (page_clicked p) s v = go_to-IsCounted _ p s v
step-IsCounted new_clicked s v = ground (arith, v)
step-IsCounted (bookmark_clicked id) s v = v
step-IsCounted (note_saved id text) s v = v
step-IsCounted (load_started silent) s v = ground (arith, v)
step-IsCounted (load_ended silent r) s v = loaded-IsCounted silent r s v

-- Whatever is clicked and answered, the number on the button for new entries is the number of
-- entries that it will show.
pub run-IsCounted : (es : List Event) (s : Logs) → IsCounted s → IsCounted (run es s)
run-IsCounted [] s v = v
run-IsCounted (e ∷ es) s v = run-IsCounted es (step e s) (step-IsCounted e s v)
