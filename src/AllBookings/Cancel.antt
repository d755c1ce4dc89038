-- ===== src/AllBookings/Cancel.antt =====
-- AllBookings.jsx `handleStatusChange` and the question before a cancellation.
use hotel_ms.Common.{
  ℕ, ◌≡◌, refl, sym, ap, ◌∙◌, if◌then◌else◌, Bool, true, false, List, [], ◌∷◌, Option, none, some,
  In, here, there, subst, get_elem?,
}
use mathlib.Core.Option.{some-injective}
use hotel_ms.AllBookings.{
  enabled, yes_for, Status, pending, confirmed, completed, cancelled, Booking, Table, start_change,
  handle_status_change, confirm_yes, confirm_no, finish_change, select_tab, bookings_loaded,
  clear_filters, click_row,
}
use hotel_ms.AllBookings.Clicks.{
  Change, Page, Event, changes, says_yes, says_no, clears, answers, selects, loads, clicks_row,
  searches, sets_from, sets_to, requested, sends, settle, arrive, step, run,
}

-- The question that is shown, if one is, is about a cancellation that was asked for.
abbrev Asked : (ℕ → Type 0) → Table → Type 0
Asked S s = (id : ℕ) (st : Status) → s.confirm_cancel ≡ some (id, st) → (st ≡ cancelled) × S id

cleared : (S : ℕ → Type 0) (s : Table) → s.confirm_cancel ≡ none → Asked S s
cleared S s e id st h = absurd (cc)

kept : (S : ℕ → Type 0) (s t : Table) → t.confirm_cancel ≡ s.confirm_cancel → Asked S s → Asked S t
kept S s t e v id st h = v id st (sym e ∙ h)

handled-Asked :
    (S : ℕ → Type 0) (id : ℕ) (st : Status) (s : Table)
    → (st ≡ cancelled → S id)
    → Asked S s
    → Asked S (handle_status_change id st s).0
unfolding handle_status_change start_change
handled-Asked S id pending s h v = v
handled-Asked S id confirmed s h v = v
handled-Asked S id completed s h v = v
handled-Asked S id cancelled s h v = λ k st e.
    let pair : (id, cancelled) ≡ (k, st) = some-injective (id, cancelled) (k, st) e in
    (sym (ap (λ q. q.1) pair), subst S (ap (λ q. q.0) pair) (h refl))

-- The same where the row's controls may be disabled.
guarded-Asked :
    (S : ℕ → Type 0) (b : Bool) (r : Table × Option (ℕ × Status)) (s : Table)
    → Asked S r.0
    → Asked S s
    → Asked S (if b then r else (s, none)).0
guarded-Asked S true r s v w = v
guarded-Asked S false r s v w = w

yes_for-Asked :
    (S : ℕ → Type 0) (o : Option (ℕ × Status)) (s : Table) → Asked S s → Asked S (yes_for o s).0
unfolding start_change
yes_for-Asked S none s v = v
yes_for-Asked S (some (id, st)) s v =
    guarded-Asked S (enabled id s) (start_change id s, some (id, st)) s v v

loaded-Asked :
    (S : ℕ → Type 0) (r : Option (List Booking)) (s : Table)
    → Asked S s
    → Asked S (bookings_loaded r s)
unfolding bookings_loaded
loaded-Asked S none s v = v
loaded-Asked S (some bs) s v = v

settle-Asked :
    (S : ℕ → Type 0) (o : Option Change) (n : ℕ) (ok : Bool) (p : Page)
    → Asked S p.table
    → Asked S (settle o n ok p).table
unfolding finish_change
settle-Asked S none n ok p v = v
settle-Asked S (some c) n true p v = cleared S (settle (some c) n true p).table refl
settle-Asked S (some c) n false p v = cleared S (settle (some c) n false p).table refl

requested-Asked :
    (S : ℕ → Type 0) (e : Event) (s : Table)
    → ((id : ℕ) → e ≡ changes id cancelled → S id)
    → Asked S s
    → Asked S (requested e s).0
unfolding requested confirm_yes confirm_no select_tab clear_filters click_row
requested-Asked S (changes id st) s h v =
    guarded-Asked S (enabled id s) (handle_status_change id st s) s
      (handled-Asked S id st s (λ e. h id (ap (changes id) e)) v) v
requested-Asked S says_yes s h v = yes_for-Asked S s.confirm_cancel s v
requested-Asked S says_no s h v = cleared S (confirm_no s) refl
requested-Asked S clears s h v = v
requested-Asked S (answers n ok) s h v = v
requested-Asked S (selects t) s h v = v
requested-Asked S (loads r) s h v = loaded-Asked S r s v
requested-Asked S (clicks_row id) s h v = v
requested-Asked S (searches t) s h v = v
requested-Asked S (sets_from t) s h v = v
requested-Asked S (sets_to t) s h v = v

sends-Asked :
    (S : ℕ → Type 0) (r : Table × Option (ℕ × Status)) (p : Page)
    → Asked S r.0
    → Asked S (sends r p).table
sends-Asked S (t, none) p v = v
sends-Asked S (t, some c) p v = v

step-Asked :
    (S : ℕ → Type 0) (e : Event) (p : Page)
    → ((id : ℕ) → e ≡ changes id cancelled → S id)
    → Asked S p.table
    → Asked S (step e p).table
unfolding step arrive
step-Asked S (answers n ok) p h v = settle-Asked S (get_elem? p.pending n) n ok p v
step-Asked S (changes id st) p h v =
    sends-Asked S (requested (changes id st) p.table) p
      (requested-Asked S (changes id st) p.table h v)
step-Asked S says_yes p h v =
    sends-Asked S (requested says_yes p.table) p (requested-Asked S says_yes p.table h v)
step-Asked S says_no p h v =
    sends-Asked S (requested says_no p.table) p (requested-Asked S says_no p.table h v)
step-Asked S clears p h v =
    sends-Asked S (requested clears p.table) p (requested-Asked S clears p.table h v)
step-Asked S (selects t) p h v =
    sends-Asked S (requested (selects t) p.table) p (requested-Asked S (selects t) p.table h v)
step-Asked S (loads r) p h v =
    sends-Asked S (requested (loads r) p.table) p (requested-Asked S (loads r) p.table h v)
step-Asked S (clicks_row id) p h v =
    sends-Asked S (requested (clicks_row id) p.table) p
      (requested-Asked S (clicks_row id) p.table h v)
step-Asked S (searches t) p h v =
    sends-Asked S (requested (searches t) p.table) p (requested-Asked S (searches t) p.table h v)
step-Asked S (sets_from t) p h v =
    sends-Asked S (requested (sets_from t) p.table) p (requested-Asked S (sets_from t) p.table h v)
step-Asked S (sets_to t) p h v =
    sends-Asked S (requested (sets_to t) p.table) p (requested-Asked S (sets_to t) p.table h v)

run-Asked :
    (S : ℕ → Type 0) (es : List Event) (p : Page)
    → ((id : ℕ) → In (changes id cancelled) es → S id)
    → Asked S p.table
    → Asked S (run es p).table
run-Asked S [] p h v = v
run-Asked S (e ∷ es) p h v =
    run-Asked S es (step e p) (λ id m. h id (there m))
      (step-Asked S e p (λ id q. h id (subst (λ d. In d (e ∷ es)) q here)) v)

-- What a guarded control sends, it sends where it is enabled.
guarded-sends :
    (b : Bool) (r : Table × Option (ℕ × Status)) (s : Table) (c : ℕ × Status)
    → (if b then r else (s, none)).1 ≡ some c
    → r.1 ≡ some c
guarded-sends true r s c e = e
guarded-sends false r s c e = absurd (cc)

handled-sends :
    (id k : ℕ) (st : Status) (s : Table)
    → (handle_status_change id st s).1 ≡ some (k, cancelled)
    → ⊥
unfolding handle_status_change
handled-sends id k pending s e = absurd (cc)
handled-sends id k confirmed s e = absurd (cc)
handled-sends id k completed s e = absurd (cc)
handled-sends id k cancelled s e = absurd (cc)

yes_for-sends :
    (o : Option (ℕ × Status)) (s : Table) (c : ℕ × Status) → (yes_for o s).1 ≡ some c → o ≡ some c
yes_for-sends none s c e = e
yes_for-sends (some (id, st)) s c e =
    guarded-sends (enabled id s) (start_change id s, some (id, st)) s c e

-- The only event that sends a cancellation.
requested-yes :
    (e : Event) (s : Table) (id : ℕ)
    → (requested e s).1 ≡ some (id, cancelled)
    → (e ≡ says_yes) × (s.confirm_cancel ≡ some (id, cancelled))
unfolding requested confirm_yes
requested-yes (changes k st) s id h = absurd (
    handled-sends k id st s
      (guarded-sends (enabled k s) (handle_status_change k st s) s (id, cancelled) h))
requested-yes says_yes s id h = (refl, yes_for-sends s.confirm_cancel s (id, cancelled) h)
requested-yes says_no s id h = absurd (cc)
requested-yes clears s id h = absurd (cc)
requested-yes (answers n ok) s id h = absurd (cc)
requested-yes (selects t) s id h = absurd (cc)
requested-yes (loads r) s id h = absurd (cc)
requested-yes (clicks_row k) s id h = absurd (cc)
requested-yes (searches t) s id h = absurd (cc)
requested-yes (sets_from t) s id h = absurd (cc)
requested-yes (sets_to t) s id h = absurd (cc)

-- Whatever is clicked and answered, from a page that shows no question: a cancellation is sent only by
-- a click on yes, while the question about that booking is shown, and behind a choice of `cancelled`
-- for that booking.
pub cancel_asks_first :
    (es : List Event) (e : Event) (p : Page) (id : ℕ)
    → p.table.confirm_cancel ≡ none
    → (requested e (run es p).table).1 ≡ some (id, cancelled)
    → (e ≡ says_yes)
      × ((run es p).table.confirm_cancel ≡ some (id, cancelled))
      × In (changes id cancelled) es
cancel_asks_first es e p id h sent =
    let S : ℕ → Type 0 = λ k. In (changes k cancelled) es in
    let (clicked, shown) = requested-yes e (run es p).table id sent in
    let asked = run-Asked S es p (λ k m. m) (cleared S p.table h) in
    (clicked, shown, (asked id cancelled shown).1)
