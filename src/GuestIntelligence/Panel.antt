-- ===== src/GuestIntelligence/Panel.antt =====
-- GuestIntelligence.jsx: the panel of one guest, with answers and the timer in every order.
use hotel_ms.Common.{
  ℕ, ◌≡◌, refl, sym, ap, ◌∙◌, if◌then◌else◌, Bool, true, false, not, List, [], Option, none, some,
  Text, arith,
}
use hotel_ms.GuestIntelligence.{
  Guest, Note, Page, Params, Waiting, Server, blacklisted, load_guests, filter_changed,
  handle_select_guest, handle_toggle_blacklist, close_panel, answered, arrive, guests_answered,
  profile_answered,
}

-- A page on which nothing is under way, with its guest written out.
at_rest :
    (o : Option Guest) (s : Page)
    → s.pending ≡ []
    → s.selected_guest ≡ o
    → s ≡ record s { pending = []; selected_guest = o }
at_rest o s e f =
    ap (λ (ws : List Waiting). record s { pending = ws }) e
    ∙ ap (λ (x : Option Guest). record s { pending = []; selected_guest = x }) f

unbanned : (g : Guest) → g.is_banned ≡ false → some g ≡ some (record g { is_banned = false })
unbanned g h = ap (λ (b : Bool). some (record g { is_banned = b })) h

-- A guest of the panel is banned or freed: when the server accepts, exactly that has changed of the
-- guest, and the list is asked for again with the filters of the click; when it does not, nothing has.
pub blacklist_settles :
    (sv : Server) (reason : Text) (g : Guest) (s : Page)
    → s.pending ≡ []
    → s.selected_guest ≡ some g
    → let why : Text = if g.is_banned then [] else reason in
      let t = arrive sv 0 (handle_toggle_blacklist reason s) in
      t ≡ (
        if sv.accepts (blacklisted g.id (not g.is_banned) why)
        then load_guests s.filters (record s {
          selected_guest = some (record g { is_banned = not g.is_banned; ban_reason = why });
          pending = [];
        })
        else s)
unfolding arrive answered load_guests handle_toggle_blacklist
blacklist_settles sv reason g s e f =
    let why : Text = if g.is_banned then [] else reason in
    let ok : Bool = sv.accepts (blacklisted g.id (not g.is_banned) why) in
    ap (λ u. arrive sv 0 (handle_toggle_blacklist reason u)) (at_rest (some g) s e f)
    ∙ ap
        (λ (u : Page).
          if ok
          then load_guests s.filters (record s {
            selected_guest = some (record g { is_banned = not g.is_banned; ban_reason = why });
            pending = [];
          })
          else u)
        (sym (at_rest (some g) s e f))

-- The ban of one guest lands on the next: another guest is opened before the server accepts, and its
-- profile comes first.
pub ban_lands_on_next_guest :
    (sv : Server) (reason : Text) (g h : Guest) (ns : List Note) (id : Option ℕ) (s : Page)
    → s.pending ≡ []
    → s.selected_guest ≡ some g
    → g.is_banned ≡ false
    → sv.profile id ≡ some (h, ns)
    → sv.accepts (blacklisted g.id true reason) ≡ true
    → (arrive sv 0
        (arrive sv 1 (handle_select_guest id (handle_toggle_blacklist reason s)))).selected_guest
      ≡ some (record h { is_banned = true; ban_reason = reason })
unfolding arrive answered load_guests handle_toggle_blacklist handle_select_guest profile_answered
ban_lands_on_next_guest sv reason g h ns id s e f b p a =
    ap
      (λ u.
        (arrive sv 0
          (arrive sv 1 (handle_select_guest id (handle_toggle_blacklist reason u)))).selected_guest)
      (at_rest (some (record g { is_banned = false })) s e (f ∙ unbanned g b))
    ∙ ground (arith, p, a)

-- The timer of a panel that was closed empties the panel of the guest that is opened next, if that
-- guest's profile comes within its 300 ms: the panel is open, and neither loading nor showing anybody.
pub timer_empties_next_panel :
    (sv : Server) (h : Guest) (ns : List Note) (id : Option ℕ) (s : Page)
    → s.pending ≡ []
    → sv.profile id ≡ some (h, ns)
    → let t = arrive sv 0 (arrive sv 1 (handle_select_guest id (close_panel s))) in
      (t.panel_open ≡ true) × (t.loading_panel ≡ false) × (t.selected_guest ≡ none)
unfolding arrive answered handle_select_guest profile_answered close_panel
timer_empties_next_panel sv h ns id s e p =
    let late : Page → Page =
      λ u. arrive sv 0 (arrive sv 1 (handle_select_guest id (close_panel u))) in
    let alone : late s ≡ late (record s { pending = [] }) =
      ap late (at_rest s.selected_guest s e refl) in
    (
      ap (λ u. u.panel_open) alone ∙ ground (arith, p),
      ap (λ u. u.loading_panel) alone ∙ ground (arith, p),
      ap (λ u. u.selected_guest) alone ∙ ground (arith, p),
    )

-- The list falls back to a filter that is no longer set: a ban is accepted after the filter has changed
-- and its list has come, and the list that its handler asks for comes last.
pub list_of_old_filter :
    (sv : Server) (reason : Text) (g : Guest) (new : Params) (first last : List Guest) (s : Page)
    → s.pending ≡ []
    → s.selected_guest ≡ some g
    → g.is_banned ≡ false
    → sv.guest_list new ≡ some first
    → sv.guest_list s.filters ≡ some last
    → sv.accepts (blacklisted g.id true reason) ≡ true
    → let t =
        arrive sv 0
          (arrive sv 0 (arrive sv 1 (filter_changed new (handle_toggle_blacklist reason s)))) in
      (t.filters ≡ new) × (t.guests ≡ last)
unfolding arrive answered load_guests handle_toggle_blacklist filter_changed guests_answered
list_of_old_filter sv reason g new first last s e f b p q a =
    let late : Page → Page = λ u.
      arrive sv 0
        (arrive sv 0 (arrive sv 1 (filter_changed new (handle_toggle_blacklist reason u)))) in
    let alone : late s
        ≡ late (record s { pending = []; selected_guest = some (record g { is_banned = false }) }) =
      ap late (at_rest (some (record g { is_banned = false })) s e (f ∙ unbanned g b)) in
    (
      ap (λ u. u.filters) alone ∙ ground (arith, p, q, a),
      ap (λ u. u.guests) alone ∙ ground (arith, p, q, a),
    )
