-- ===== src/GuestIntelligence/Spinners.antt =====
-- GuestIntelligence.jsx: each of the four signs of loading stands for a request that is under way.
use hotel_ms.Common.{
  ℕ, zero, suc, ◌≡◌, refl, sym, ap, ◌∙◌, subst, if◌then◌else◌, Bool, true, false, not, ◌||◌, List,
  [], ◌∷◌, ◌++◌, Option, none, some, Text, truthy, trim, any, get_elem?, Bool-cases, inl, inr,
  arith,
}
use hotel_ms.GuestIntelligence.{
  Page, Params, Guest, Request, Waiting, Server, Event, PanelTab, overview_asked, guest_list,
  profile_of, timeline_of, notes_of, note_added, notes_again, note_deleted, blacklisted,
  vip_toggled, segment_updated, quick_blacklisted, quick_vip_toggled, close_timer, profile_tab,
  timeline_tab, notes_tab, filter_set, retry_clicked, close_clicked, add_note_clicked, vip_clicked,
  guest_clicked, tab_clicked, note_typed, note_type_set, ban_clicked, segment_set,
  delete_note_clicked, quick_ban_clicked, quick_vip_clicked, next_arrives, ask, load_overview,
  load_guests, mounted, filter_changed, handle_select_guest, with_selected, handle_panel_tab_change,
  handle_add_note, handle_delete_note, handle_toggle_blacklist, handle_toggle_vip,
  handle_update_segment, handle_quick_ban, handle_quick_vip, close_panel, overview_answered,
  guests_answered, profile_answered, timeline_answered, notes_answered, notes_answered_again,
  answered, remove_at, arrive, in_panel, step, run,
}

abbrev pub is_overview : Request → Bool
is_overview overview_asked = true
is_overview _ = false

abbrev pub is_list : Request → Bool
is_list (guest_list f) = true
is_list _ = false

abbrev pub is_profile : Request → Bool
is_profile (profile_of id) = true
is_profile _ = false

abbrev pub is_note : Request → Bool
is_note (note_added id text kind) = true
is_note (notes_again id) = true
is_note _ = false

abbrev pub waits : (Request → Bool) → List Waiting → Bool
waits p ws = any (λ w. p w.request) ws

pub record Covered (ws : List Waiting) (s : Page) : Type 0 where
  pub overview : s.loading_overview ≡ true → waits is_overview ws ≡ true
  pub guests : s.loading_guests ≡ true → waits is_list ws ≡ true
  pub panel : s.loading_panel ≡ true → waits is_profile ws ≡ true
  pub note_add : s.loading_note_add ≡ true → waits is_note ws ≡ true

abbrev pub IsCovered : Page → Type 0
IsCovered s = Covered s.pending s

waits-append :
    (p : Request → Bool) (ws vs : List Waiting) → waits p (ws ++ vs) ≡ (waits p ws || waits p vs)
waits-append p [] vs = refl
waits-append p (w ∷ ws) vs = ground (arith, waits-append p ws vs)

waits-left :
    (p : Request → Bool) (ws vs : List Waiting) → waits p ws ≡ true → waits p (ws ++ vs) ≡ true
waits-left p ws vs h = ground (arith, waits-append p ws vs, h)

waits-last :
    (p : Request → Bool) (ws : List Waiting) (w : Waiting)
    → p w.request ≡ true
    → waits p (ws ++ w ∷ []) ≡ true
waits-last p ws w h = ground (arith, waits-append p ws (w ∷ []), h)

waits-remove :
    (p : Request → Bool) (ws : List Waiting) (n : ℕ) {w : Waiting}
    → get_elem? ws n ≡ some w
    → waits p ws ≡ true
    → waits p (w ∷ remove_at ws n) ≡ true
waits-remove p [] n e h = absurd (cc)
waits-remove p (x ∷ xs) zero e h =
    ground (arith, ap {B = Bool} (λ o. elim o [ none ↦ p x.request | some v ↦ p v.request ]) e, h)
waits-remove p (x ∷ xs) (suc n) {w = w} e h = elim (Bool-cases (p x.request)) [
  | inl k ↦ ground (arith, k)
  | inr k ↦ ground (arith, k, h, waits-remove p xs n {w = w} e (ground (arith, k, h)))
]

kept : (s : Page) (w : Waiting) → IsCovered s → Covered (s.pending ++ w ∷ []) s
kept s w v = record {
  overview = λ h. waits-left is_overview s.pending _ (v.overview h);
  guests = λ h. waits-left is_list s.pending _ (v.guests h);
  panel = λ h. waits-left is_profile s.pending _ (v.panel h);
  note_add = λ h. waits-left is_note s.pending _ (v.note_add h);
}

ask-Covered : (r : Request) (f : Params) (s : Page) → IsCovered s → IsCovered (ask r f s)
ask-Covered r f s v =
    let k = kept s (record { request = r; filters = f }) v in
    record { overview = k.overview; guests = k.guests; panel = k.panel; note_add = k.note_add }

load_overview-Covered : (f : Params) (s : Page) → IsCovered s → IsCovered (load_overview f s)
unfolding load_overview
load_overview-Covered f s v =
    let k = kept s (record { request = overview_asked; filters = f }) v in
    record {
      overview = λ h. waits-last is_overview s.pending _ refl;
      guests = k.guests;
      panel = k.panel;
      note_add = k.note_add;
    }

load_guests-Covered : (f : Params) (s : Page) → IsCovered s → IsCovered (load_guests f s)
unfolding load_guests
load_guests-Covered f s v =
    let k = kept s (record { request = guest_list f; filters = f }) v in
    record {
      overview = k.overview;
      guests = λ h. waits-last is_list s.pending _ refl;
      panel = k.panel;
      note_add = k.note_add;
    }

select-Covered : (id : Option ℕ) (s : Page) → IsCovered s → IsCovered (handle_select_guest id s)
unfolding handle_select_guest
select-Covered id s v =
    let k = kept s (record { request = profile_of id; filters = s.filters }) v in
    record {
      overview = k.overview;
      guests = k.guests;
      panel = λ h. waits-last is_profile s.pending _ refl;
      note_add = k.note_add;
    }

save_note-Covered :
    (id : Option ℕ) (text kind : Text) (s : Page)
    → IsCovered s
    → IsCovered (ask (note_added id text kind) s.filters (record s { loading_note_add = true }))
save_note-Covered id text kind s v =
    let k = kept s (record { request = note_added id text kind; filters = s.filters }) v in
    record {
      overview = k.overview;
      guests = k.guests;
      panel = k.panel;
      note_add = λ h. waits-last is_note s.pending _ refl;
    }

with_selected-Covered :
    (f : Guest → Page → Page) (s : Page)
    → ((g : Guest) → IsCovered (f g s))
    → IsCovered s
    → IsCovered (with_selected f s)
with_selected-Covered f s k v =
    elim s.selected_guest as (λ o. IsCovered (elim o [ none ↦ s | some g ↦ f g s ])) [
      | none ↦ v
      | some g ↦ k g
    ]

-- A change that touches neither the signs nor the requests.
same_signs :
    (s t : Page)
    → IsCovered s
    → t.loading_overview ≡ s.loading_overview
    → t.loading_guests ≡ s.loading_guests
    → t.loading_panel ≡ s.loading_panel
    → t.loading_note_add ≡ s.loading_note_add
    → t.pending ≡ s.pending
    → IsCovered t
same_signs s t v a b c d e =
    subst (λ ws. Covered ws t) (sym e)
      (record {
        overview = λ h. v.overview (sym a ∙ h);
        guests = λ h. v.guests (sym b ∙ h);
        panel = λ h. v.panel (sym c ∙ h);
        note_add = λ h. v.note_add (sym d ∙ h);
      })

if-Covered : (b : Bool) (s t : Page) → IsCovered s → IsCovered t → IsCovered (if b then s else t)
if-Covered true s t v w = v
if-Covered false s t v w = w

-- A request that is over and answers for no sign.
dropped :
    (r : Request) (f : Params) (s : Page)
    → is_overview r ≡ false
    → is_list r ≡ false
    → is_profile r ≡ false
    → is_note r ≡ false
    → Covered (record { request = r; filters = f } ∷ s.pending) s
    → IsCovered s
dropped r f s a b c d v = record {
  overview = λ h. ground (arith, v.overview h, a);
  guests = λ h. ground (arith, v.guests h, b);
  panel = λ h. ground (arith, v.panel h, c);
  note_add = λ h. ground (arith, v.note_add h, d);
}

asked_again :
    (id : Option ℕ) (f : Params) (s : Page) {r : Request} {g : Params}
    → is_overview r ≡ false
    → is_list r ≡ false
    → is_profile r ≡ false
    → Covered (record { request = r; filters = g } ∷ s.pending) s
    → IsCovered (ask (notes_again id) f s)
asked_again id f s a b c v = record {
  overview = λ h. waits-left is_overview s.pending _ (ground (arith, v.overview h, a));
  guests = λ h. waits-left is_list s.pending _ (ground (arith, v.guests h, b));
  panel = λ h. waits-left is_profile s.pending _ (ground (arith, v.panel h, c));
  note_add = λ h. waits-last is_note s.pending _ refl;
}

answered-Covered :
    (sv : Server) (f : Params) (r : Request) (s : Page)
    → Covered (record { request = r; filters = f } ∷ s.pending) s
    → IsCovered (answered sv f r s)
unfolding answered overview_answered guests_answered profile_answered load_guests
answered-Covered sv f overview_asked s v =
    elim sv.overview as (λ o. IsCovered (overview_answered o s)) [
      | none ↦ record {
        overview = λ h. absurd (cc);
        guests = v.guests;
        panel = v.panel;
        note_add = v.note_add;
      }
      | some n ↦ record {
        overview = λ h. absurd (cc);
        guests = v.guests;
        panel = v.panel;
        note_add = v.note_add;
      }
    ]
answered-Covered sv f (guest_list p) s v =
    elim (sv.guest_list p) as (λ o. IsCovered (guests_answered o s)) [
      | none ↦ record {
        overview = v.overview;
        guests = λ h. absurd (cc);
        panel = v.panel;
        note_add = v.note_add;
      }
      | some gs ↦ record {
        overview = v.overview;
        guests = λ h. absurd (cc);
        panel = v.panel;
        note_add = v.note_add;
      }
    ]
answered-Covered sv f (profile_of id) s v =
    elim (sv.profile id) as (λ o. IsCovered (profile_answered o s)) [
      | none ↦ record {
        overview = v.overview;
        guests = v.guests;
        panel = λ h. absurd (cc);
        note_add = v.note_add;
      }
      | some x ↦ record {
        overview = v.overview;
        guests = v.guests;
        panel = λ h. absurd (cc);
        note_add = v.note_add;
      }
    ]
answered-Covered sv f (timeline_of id) s v =
    let w = dropped (timeline_of id) f s refl refl refl refl v in
    elim (sv.timeline id) as (λ o. IsCovered (timeline_answered o s)) [
      | none ↦ w
      | some x ↦ same_signs s _ w refl refl refl refl refl
    ]
answered-Covered sv f (notes_of id) s v =
    let w = dropped (notes_of id) f s refl refl refl refl v in
    elim (sv.notes id) as (λ o. IsCovered (notes_answered o s)) [
      | none ↦ w
      | some x ↦ same_signs s _ w refl refl refl refl refl
    ]
answered-Covered sv f (note_added id text kind) s v =
    if-Covered (sv.accepts (note_added id text kind)) _ _ (asked_again id f s refl refl refl v)
      (record {
        overview = v.overview;
        guests = v.guests;
        panel = v.panel;
        note_add = λ h. absurd (cc);
      })
answered-Covered sv f (notes_again id) s v =
    elim (sv.notes id) as (λ o. IsCovered (notes_answered_again o s)) [
      | none ↦ record {
        overview = v.overview;
        guests = v.guests;
        panel = v.panel;
        note_add = λ h. absurd (cc);
      }
      | some x ↦ record {
        overview = v.overview;
        guests = v.guests;
        panel = v.panel;
        note_add = λ h. absurd (cc);
      }
    ]
answered-Covered sv f (note_deleted id n) s v =
    let w = dropped (note_deleted id n) f s refl refl refl refl v in
    if-Covered (sv.accepts (note_deleted id n)) _ s (same_signs s _ w refl refl refl refl refl) w
answered-Covered sv f (blacklisted id ban reason) s v =
    let w = dropped (blacklisted id ban reason) f s refl refl refl refl v in
    if-Covered (sv.accepts (blacklisted id ban reason)) _ s
      (load_guests-Covered f _ (same_signs s _ w refl refl refl refl refl)) w
answered-Covered sv f (vip_toggled id) s v =
    let w = dropped (vip_toggled id) f s refl refl refl refl v in
    if-Covered (sv.accepts (vip_toggled id)) _ s
      (load_guests-Covered f _ (same_signs s _ w refl refl refl refl refl)) w
answered-Covered sv f (segment_updated id seg) s v =
    let w = dropped (segment_updated id seg) f s refl refl refl refl v in
    if-Covered (sv.accepts (segment_updated id seg)) _ s
      (load_guests-Covered f _ (same_signs s _ w refl refl refl refl refl)) w
answered-Covered sv f (quick_blacklisted id ban reason) s v =
    let w = dropped (quick_blacklisted id ban reason) f s refl refl refl refl v in
    if-Covered (sv.accepts (quick_blacklisted id ban reason)) _ s (load_guests-Covered f s w) w
answered-Covered sv f (quick_vip_toggled id) s v =
    let w = dropped (quick_vip_toggled id) f s refl refl refl refl v in
    if-Covered (sv.accepts (quick_vip_toggled id)) _ s (load_guests-Covered f s w) w
answered-Covered sv f close_timer s v =
    same_signs s _ (dropped close_timer f s refl refl refl refl v) refl refl refl refl refl

arrive-Covered : (sv : Server) (n : ℕ) (s : Page) → IsCovered s → IsCovered (arrive sv n s)
unfolding arrive
arrive-Covered sv n s v = go (get_elem? s.pending n) refl
  where
    go :
        (o : Option Waiting)
        → get_elem? s.pending n ≡ o
        → IsCovered (elim o [
          | none ↦ s
          | some w ↦ answered sv w.filters w.request (record s { pending = remove_at s.pending n })
        ])
    go none e = v
    go (some w) e =
        answered-Covered sv w.filters w.request (record s { pending = remove_at s.pending n })
          (record {
            overview = λ h. waits-remove is_overview s.pending n {w = w} e (v.overview h);
            guests = λ h. waits-remove is_list s.pending n {w = w} e (v.guests h);
            panel = λ h. waits-remove is_profile s.pending n {w = w} e (v.panel h);
            note_add = λ h. waits-remove is_note s.pending n {w = w} e (v.note_add h);
          })

in_panel-Covered :
    (f : Page → Page) (s : Page) → IsCovered s → IsCovered (f s) → IsCovered (in_panel f s)
in_panel-Covered f s v w = if-Covered s.loading_panel s (f s) v w

selected-asks :
    (r : Guest → Request) (s : Page)
    → IsCovered s
    → IsCovered (with_selected (λ g. ask (r g) s.filters) s)
selected-asks r s v =
    with_selected-Covered (λ g. ask (r g) s.filters) s (λ g. ask-Covered (r g) s.filters s v) v

tab-Covered : (t : PanelTab) (s : Page) → IsCovered s → IsCovered (handle_panel_tab_change t s)
unfolding handle_panel_tab_change
tab-Covered profile_tab s v = same_signs s _ v refl refl refl refl refl
tab-Covered timeline_tab s v =
    selected-asks (λ g. timeline_of g.id) (record s { panel_tab = timeline_tab })
      (same_signs s _ v refl refl refl refl refl)
tab-Covered notes_tab s v =
    selected-asks (λ g. notes_of g.id) (record s { panel_tab = notes_tab })
      (same_signs s _ v refl refl refl refl refl)

add_note-Covered : (s : Page) → IsCovered s → IsCovered (handle_add_note s)
unfolding handle_add_note
add_note-Covered s v =
    if-Covered (truthy (trim s.note_input)) _ s
      (with_selected-Covered
        (λ g u.
          ask (note_added g.id (trim u.note_input) u.note_type) u.filters
            (record u { loading_note_add = true }))
        s (λ g. save_note-Covered g.id (trim s.note_input) s.note_type s v) v)
      v

step-Covered : (sv : Server) (e : Event) (s : Page) → IsCovered s → IsCovered (step sv e s)
unfolding step filter_changed handle_delete_note handle_toggle_blacklist handle_toggle_vip
    handle_update_segment handle_quick_ban handle_quick_vip close_panel
step-Covered sv (filter_set f) s v =
    load_guests-Covered f _ (same_signs s _ v refl refl refl refl refl)
step-Covered sv retry_clicked s v =
    load_guests-Covered s.filters _
      (load_overview-Covered s.filters _ (same_signs s _ v refl refl refl refl refl))
step-Covered sv close_clicked s v =
    ask-Covered close_timer s.filters _ (same_signs s _ v refl refl refl refl refl)
step-Covered sv add_note_clicked s v =
    in_panel-Covered (λ u. if u.loading_note_add then u else handle_add_note u) s v
      (if-Covered s.loading_note_add s _ v (add_note-Covered s v))
step-Covered sv vip_clicked s v =
    in_panel-Covered handle_toggle_vip s v (selected-asks (λ g. vip_toggled g.id) s v)
step-Covered sv (guest_clicked id) s v = select-Covered id s v
step-Covered sv (tab_clicked t) s v =
    in_panel-Covered (handle_panel_tab_change t) s v (tab-Covered t s v)
step-Covered sv (note_typed t) s v = same_signs s _ v refl refl refl refl refl
step-Covered sv (note_type_set t) s v = same_signs s _ v refl refl refl refl refl
step-Covered sv (ban_clicked reason) s v = in_panel-Covered (handle_toggle_blacklist reason) s v (
    selected-asks (λ g. blacklisted g.id (not g.is_banned) (if g.is_banned then [] else reason)) s
      v)
step-Covered sv (segment_set seg) s v =
    in_panel-Covered (handle_update_segment seg) s v
      (selected-asks (λ g. segment_updated g.id seg) s v)
step-Covered sv (delete_note_clicked n) s v =
    in_panel-Covered (handle_delete_note n) s v (selected-asks (λ g. note_deleted g.id n) s v)
step-Covered sv (quick_ban_clicked g reason) s v = ask-Covered _ s.filters s v
step-Covered sv (quick_vip_clicked g) s v = ask-Covered _ s.filters s v
step-Covered sv (next_arrives n) s v = arrive-Covered sv n s v

run-Covered : (sv : Server) (es : List Event) (s : Page) → IsCovered s → IsCovered (run sv es s)
run-Covered sv [] s v = v
run-Covered sv (e ∷ es) s v = run-Covered sv es (step sv e s) (step-Covered sv e s v)

covered_idle : (b : Bool) → (b ≡ true → false ≡ true) → b ≡ false
covered_idle true h = sym (h refl)
covered_idle false h = refl

mounted-Covered :
    (s : Page)
    → s.loading_panel ≡ false
    → s.loading_note_add ≡ false
    → s.loading_overview ≡ false
    → s.loading_guests ≡ false
    → IsCovered (mounted s)
unfolding mounted
mounted-Covered s a b c d = load_guests-Covered s.filters _ (
    load_guests-Covered s.filters _ (
      load_overview-Covered s.filters s (record {
        overview = λ h. absurd (cc);
        guests = λ h. absurd (cc);
        panel = λ h. absurd (cc);
        note_add = λ h. absurd (cc);
      })))

-- No sign of loading is left over: whatever is clicked and in whatever order the answers come, with
-- failures among them, once nothing is under way none of the four signs is shown.
pub signs_end :
    (sv : Server) (es : List Event) (s : Page)
    → s.loading_panel ≡ false
    → s.loading_note_add ≡ false
    → s.loading_overview ≡ false
    → s.loading_guests ≡ false
    → let t = run sv es (mounted s) in
      t.pending ≡ []
      → (t.loading_overview ≡ false)
        × (t.loading_guests ≡ false)
        × (t.loading_panel ≡ false)
        × (t.loading_note_add ≡ false)
signs_end sv es s a b c d e =
    let v = run-Covered sv es (mounted s) (mounted-Covered s a b c d) in
    let w : Covered [] (run sv es (mounted s)) =
      subst (λ ws. Covered ws (run sv es (mounted s))) e v in
    (
      covered_idle _ w.overview,
      covered_idle _ w.guests,
      covered_idle _ w.panel,
      covered_idle _ w.note_add,
    )
