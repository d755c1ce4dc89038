-- ===== src/GuestIntelligence/Tests.antt =====
-- The guests of the administrator on concrete inputs, and the theorems applied to them.
use hotel_ms.Common.{
  ◌≡◌, refl, true, false, List, [], ◌∷◌, none, some, Text, codes, length, In, here,
}
use hotel_ms.GuestIntelligence.{
  Guest, unknown, Page, Params, Server, profile_tab, mounted, handle_select_guest,
  handle_toggle_blacklist, arrive, run, step, next_arrives,
}
use hotel_ms.GuestIntelligence.Panel.{ban_lands_on_next_guest}
use hotel_ms.GuestIntelligence.Spinners.{signs_end}
use hotel_ms.GuestIntelligence.Segments.{
  at, total, sum_of, within, segment_revenue, segment_counts, segment_revenue-segment_counts,
}

abbrev olim : Guest
olim = record unknown { id = some 1; segment = codes "vip"; total_spent = 900 }

abbrev lola : Guest
lola = record unknown { id = some 2; total_spent = 150 }

abbrev no_params : Params
no_params = record { search = []; segment = []; tier = [] }

abbrev vips : Params
vips = record no_params { segment = codes "vip" }

abbrev shown : Page
shown = record {
  overview = none;
  guests = [];
  selected_guest = some olim;
  timeline = [];
  notes = [];
  panel_tab = profile_tab;
  filters = no_params;
  note_input = [];
  note_type = [];
  loading_overview = false;
  loading_guests = false;
  loading_panel = false;
  loading_note_add = false;
  panel_open = true;
  api_error = false;
  pending = [];
}

abbrev guests_of : Text → List Guest
guests_of [] = olim ∷ lola ∷ []
guests_of (c ∷ s) = olim ∷ []

abbrev server : Server
server = record {
  overview = none;
  guest_list = λ f. some (guests_of f.segment);
  profile = λ id. some (lola, []);
  timeline = λ id. none;
  notes = λ id. none;
  accepts = λ r. true;
}

abbrev settled : Page
settled = arrive server 0 (handle_toggle_blacklist (codes "noise") shown)

ban_lands_on_next_guest_example :
    (arrive server 0 (
      arrive server 1 (
        handle_select_guest
          (some 2)
          (handle_toggle_blacklist (codes "noise") shown)))).selected_guest
    ≡ some (record lola { is_banned = true; ban_reason = codes "noise" })
ban_lands_on_next_guest_example =
    ban_lands_on_next_guest server (codes "noise") olim lola [] (some 2) shown refl refl refl refl
      refl

abbrev ended : Page
ended = run server (next_arrives 0 ∷ next_arrives 1 ∷ next_arrives 0 ∷ []) (mounted shown)

nothing_waits : ended.pending ≡ []
unfolding step mounted
nothing_waits = refl

signs_end_example :
    (ended.loading_overview ≡ false)
    × (ended.loading_guests ≡ false)
    × (ended.loading_panel ≡ false)
    × (ended.loading_note_add ≡ false)
signs_end_example =
    signs_end server (next_arrives 0 ∷ next_arrives 1 ∷ next_arrives 0 ∷ []) shown refl refl refl
      refl nothing_waits

abbrev both : List Guest
both = olim ∷ lola ∷ []

segment_revenue-segment_counts_example :
    ((seg : Text)
      → (at seg (segment_revenue both) ≡ sum_of (λ g. g.total_spent) (within seg both))
        × (at seg (segment_counts both) ≡ length (within seg both)))
    × (total (segment_revenue both) ≡ 1050)
    × (total (segment_counts both) ≡ 2)
segment_revenue-segment_counts_example = segment_revenue-segment_counts both

vip_entry : In (record { segment = codes "vip"; value = 900 }) (segment_revenue both)
unfolding segment_revenue
vip_entry = here
