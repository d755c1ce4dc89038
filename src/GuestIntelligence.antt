-- ===== src/GuestIntelligence.antt =====
-- frontend/react-app/src/pages/admin/guests/GuestIntelligence.jsx: the guests of the administrator,
-- with a panel for one of them, whose profile, notes and flags are changed by requests. A request that
-- is under way waits in `pending` with what its handler remembers, as does the timer that empties the
-- panel 300 ms after it is closed; `arrive` brings the answer of any of them.
pub mod Segments
pub mod Spinners
pub mod Panel
mod Tests
use hotel_ms.Common.{
  ℕ, zero, suc, ◌==◌, if◌then◌else◌, Bool, true, false, not, List, [], ◌∷◌, ◌++◌, Option, none,
  some, Text, truthy, trim, filter, get_elem?,
}

-- A guest, whose fields are missing where nothing is known of them.
pub record Guest : Type 0 where
  pub id : Option ℕ
  pub is_banned : Bool
  pub ban_reason : Text
  pub vip_status : Bool
  pub segment : Text
  pub total_spent : ℕ
  pub total_bookings : ℕ
  pub cancelled_bookings : ℕ
  pub churn_probability : ℕ

-- `{}`
abbrev pub unknown : Guest
unknown = record {
  id = none;
  is_banned = false;
  ban_reason = [];
  vip_status = false;
  segment = [];
  total_spent = 0;
  total_bookings = 0;
  cancelled_bookings = 0;
  churn_probability = 0;
}

pub record Note : Type 0 where
  pub id : ℕ
  pub text : Text

pub record Params : Type 0 where
  pub search : Text
  pub segment : Text
  pub tier : Text

pub data PanelTab : Type 0 where
  profile_tab timeline_tab notes_tab : PanelTab

-- What waits: a request, or the timer of `closePanel`.
pub data Request : Type 0 where
  overview_asked : Request
  guest_list : Params → Request
  profile_of timeline_of notes_of : Option ℕ → Request
  -- the saving of a note, and the reading of the notes behind it
  note_added : Option ℕ → Text → Text → Request
  notes_again : Option ℕ → Request
  note_deleted : Option ℕ → ℕ → Request
  blacklisted : Option ℕ → Bool → Text → Request
  vip_toggled : Option ℕ → Request
  segment_updated : Option ℕ → Text → Request
  quick_blacklisted : Option ℕ → Bool → Text → Request
  quick_vip_toggled : Option ℕ → Request
  close_timer : Request

-- A handler sees the filters of the page at the time of its call.
pub record Waiting : Type 0 where
  pub request : Request
  pub filters : Params

pub record Page : Type 0 where
  -- the number of guests stands for the whole overview
  pub overview : Option ℕ
  pub guests : List Guest
  pub selected_guest : Option Guest
  pub timeline : List ℕ
  pub notes : List Note
  pub panel_tab : PanelTab
  pub filters : Params
  pub note_input : Text
  pub note_type : Text
  pub loading_overview : Bool
  pub loading_guests : Bool
  pub loading_panel : Bool
  pub loading_note_add : Bool
  pub panel_open : Bool
  pub api_error : Bool
  pub pending : List Waiting

abbrev pub ask : Request → Params → Page → Page
ask r f s = record s { pending = s.pending ++ record { request = r; filters = f } ∷ [] }

-- The handlers, up to their requests.
unfoldable pub load_overview : Params → Page → Page
load_overview f s = ask overview_asked f (record s { loading_overview = true })

unfoldable pub load_guests : Params → Page → Page
load_guests f s = ask (guest_list f) f (record s { loading_guests = true })

-- Both effects load the guests when the page opens.
unfoldable pub mounted : Page → Page
unfolding load_overview load_guests
mounted s = load_guests s.filters (load_guests s.filters (load_overview s.filters s))

-- A filter that is changed, and the effect on the filters.
unfoldable pub filter_changed : Params → Page → Page
unfolding load_guests
filter_changed f s = load_guests f (record s { filters = f })

unfoldable pub handle_select_guest : Option ℕ → Page → Page
handle_select_guest id s =
    ask (profile_of id) s.filters
      (record s { loading_panel = true; panel_open = true; panel_tab = profile_tab })

-- The requests that need a guest in the panel.
abbrev pub with_selected : (Guest → Page → Page) → Page → Page
with_selected f s = elim s.selected_guest [ none ↦ s | some g ↦ f g s ]

unfoldable pub handle_panel_tab_change : PanelTab → Page → Page
handle_panel_tab_change profile_tab s = record s { panel_tab = profile_tab }
handle_panel_tab_change timeline_tab s =
    with_selected (λ g. ask (timeline_of g.id) s.filters) (record s { panel_tab = timeline_tab })
handle_panel_tab_change notes_tab s =
    with_selected (λ g. ask (notes_of g.id) s.filters) (record s { panel_tab = notes_tab })

unfoldable pub handle_add_note : Page → Page
handle_add_note s =
    if truthy (trim s.note_input)
    then with_selected
        (λ g u.
          ask (note_added g.id (trim u.note_input) u.note_type) u.filters
            (record u { loading_note_add = true }))
        s
    else s

unfoldable pub handle_delete_note : ℕ → Page → Page
handle_delete_note note_id s = with_selected (λ g. ask (note_deleted g.id note_id) s.filters) s

-- The reason is asked for in a dialog, and only for a ban.
unfoldable pub handle_toggle_blacklist : Text → Page → Page
handle_toggle_blacklist reason s =
    with_selected
      (λ g. ask (blacklisted g.id (not g.is_banned) (if g.is_banned then [] else reason)) s.filters)
      s

unfoldable pub handle_toggle_vip : Page → Page
handle_toggle_vip s = with_selected (λ g. ask (vip_toggled g.id) s.filters) s

unfoldable pub handle_update_segment : Text → Page → Page
handle_update_segment seg s = with_selected (λ g. ask (segment_updated g.id seg) s.filters) s

unfoldable pub handle_quick_ban : Guest → Text → Page → Page
handle_quick_ban g reason s =
    ask (quick_blacklisted g.id (not g.is_banned) (if g.is_banned then [] else reason)) s.filters s

unfoldable pub handle_quick_vip : Guest → Page → Page
handle_quick_vip g s = ask (quick_vip_toggled g.id) s.filters s

unfoldable pub close_panel : Page → Page
close_panel s = ask close_timer s.filters (record s { panel_open = false })

-- What the server sends. `none` stands for a failure.
pub record Server : Type 0 where
  pub overview : Option ℕ
  pub guest_list : Params → Option (List Guest)
  -- a profile and its notes, which are asked for together
  pub profile : Option ℕ → Option (Guest × List Note)
  pub timeline : Option ℕ → Option (List ℕ)
  pub notes : Option ℕ → Option (List Note)
  pub accepts : Request → Bool

-- `setSelectedGuest((prev) => ({ ...prev, ... }))`
abbrev pub update_selected : (Guest → Guest) → Page → Page
update_selected f s = record s {
  selected_guest = some (f (elim s.selected_guest [ none ↦ unknown | some g ↦ g ]));
}

-- What follows each of the requests.
unfoldable pub overview_answered : Option ℕ → Page → Page
overview_answered none s = record s { api_error = true; loading_overview = false }
overview_answered (some n) s = record s {
  overview = some n;
  api_error = false;
  loading_overview = false;
}

unfoldable pub guests_answered : Option (List Guest) → Page → Page
guests_answered none s = record s { api_error = true; loading_guests = false }
guests_answered (some gs) s = record s { guests = gs; loading_guests = false }

unfoldable pub profile_answered : Option (Guest × List Note) → Page → Page
profile_answered none s = record s { loading_panel = false }
profile_answered (some (g, ns)) s = record s {
  selected_guest = some g;
  notes = ns;
  loading_panel = false;
}

abbrev pub timeline_answered : Option (List ℕ) → Page → Page
timeline_answered none s = s
timeline_answered (some t) s = record s { timeline = t }

abbrev pub notes_answered : Option (List Note) → Page → Page
notes_answered none s = s
notes_answered (some ns) s = record s { notes = ns }

abbrev pub notes_answered_again : Option (List Note) → Page → Page
notes_answered_again none s = record s { loading_note_add = false }
notes_answered_again (some ns) s = record s {
  notes = ns;
  note_input = [];
  loading_note_add = false;
}

unfoldable pub answered : Server → Params → Request → Page → Page
unfolding overview_answered guests_answered profile_answered load_guests
answered sv p overview_asked s = overview_answered sv.overview s
answered sv p (guest_list f) s = guests_answered (sv.guest_list f) s
answered sv p (profile_of id) s = profile_answered (sv.profile id) s
answered sv p (timeline_of id) s = timeline_answered (sv.timeline id) s
answered sv p (notes_of id) s = notes_answered (sv.notes id) s
answered sv p (note_added id text kind) s =
    if sv.accepts (note_added id text kind)
    then ask (notes_again id) p s
    else record s { loading_note_add = false }
answered sv p (notes_again id) s = notes_answered_again (sv.notes id) s
answered sv p (note_deleted id n) s =
    if sv.accepts (note_deleted id n)
    then record s { notes = filter (λ x. not (x.id == n)) s.notes }
    else s
answered sv p (blacklisted id ban reason) s =
    if sv.accepts (blacklisted id ban reason)
    then load_guests p (update_selected (λ g. record g { is_banned = ban; ban_reason = reason }) s)
    else s
answered sv p (vip_toggled id) s =
    if sv.accepts (vip_toggled id)
    then load_guests p (update_selected (λ g. record g { vip_status = not g.vip_status }) s)
    else s
answered sv p (segment_updated id seg) s =
    if sv.accepts (segment_updated id seg)
    then load_guests p (update_selected (λ g. record g { segment = seg }) s)
    else s
answered sv p (quick_blacklisted id ban reason) s =
    if sv.accepts (quick_blacklisted id ban reason) then load_guests p s else s
answered sv p (quick_vip_toggled id) s =
    if sv.accepts (quick_vip_toggled id) then load_guests p s else s
answered sv p close_timer s = record s { selected_guest = none }

abbrev pub remove_at : List Waiting → ℕ → List Waiting
remove_at [] n = []
remove_at (r ∷ rs) zero = rs
remove_at (r ∷ rs) (suc n) = r ∷ remove_at rs n

-- The n-th of those that wait goes on.
unfoldable pub arrive : Server → ℕ → Page → Page
unfolding answered
arrive sv n s = elim (get_elem? s.pending n) [
  | none ↦ s
  | some w ↦ answered sv w.filters w.request (record s { pending = remove_at s.pending n })
]

-- What the administrator does, and the answers.
pub data Event : Type 0 where
  filter_set : Params → Event
  retry_clicked close_clicked add_note_clicked vip_clicked : Event
  guest_clicked : Option ℕ → Event
  tab_clicked : PanelTab → Event
  note_typed note_type_set ban_clicked segment_set : Text → Event
  delete_note_clicked : ℕ → Event
  quick_ban_clicked : Guest → Text → Event
  quick_vip_clicked : Guest → Event
  next_arrives : ℕ → Event

-- The panel's content is hidden while a profile is loading.
abbrev pub in_panel : (Page → Page) → Page → Page
in_panel f s = if s.loading_panel then s else f s

unfoldable pub step : Server → Event → Page → Page
unfolding load_overview load_guests filter_changed handle_select_guest handle_panel_tab_change
    handle_add_note handle_delete_note handle_toggle_blacklist handle_toggle_vip
    handle_update_segment handle_quick_ban handle_quick_vip close_panel arrive
step sv (filter_set f) s = filter_changed f s
step sv retry_clicked s =
    load_guests s.filters (load_overview s.filters (record s { api_error = false }))
step sv close_clicked s = close_panel s
step sv add_note_clicked s = in_panel (λ u. if u.loading_note_add then u else handle_add_note u) s
step sv vip_clicked s = in_panel handle_toggle_vip s
step sv (guest_clicked id) s = handle_select_guest id s
step sv (tab_clicked t) s = in_panel (handle_panel_tab_change t) s
step sv (note_typed t) s = record s { note_input = t }
step sv (note_type_set t) s = record s { note_type = t }
step sv (ban_clicked reason) s = in_panel (handle_toggle_blacklist reason) s
step sv (segment_set seg) s = in_panel (handle_update_segment seg) s
step sv (delete_note_clicked n) s = in_panel (handle_delete_note n) s
step sv (quick_ban_clicked g reason) s = handle_quick_ban g reason s
step sv (quick_vip_clicked g) s = handle_quick_vip g s
step sv (next_arrives n) s = arrive sv n s

abbrev pub run : Server → List Event → Page → Page
run sv [] s = s
run sv (e ∷ es) s = run sv es (step sv e s)
