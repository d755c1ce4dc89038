-- ===== src/AllGuests.antt =====
-- frontend/react-app/src/pages/admin/users/AllGuests.jsx: the guests of the administrator with their
-- filters, and the requests that ban, honour and delete them. `localeCompare` and the reading of dates
-- are the browser's, and are parameters. A number of points that is changed may be negative, and only
-- travels to the server, as a text.
pub mod Answers
pub mod Shown
mod Tests
use hotel_ms.Common.{
  ℕ, zero, suc, ◌==◌, leb, if◌then◌else◌, Bool, true, false, not, ◌&&◌, ◌||◌, List, [], ◌∷◌, ◌++◌,
  Option, none, some, Text, codes, truthy, same, contains, to_lower, filter, length, map, get_elem?,
  sort,
}

-- A text that is missing is empty.
pub record Guest : Type 0 where
  pub id : ℕ
  pub full_name : Text
  pub email : Text
  pub is_banned : Bool
  pub vip_status : Bool
  pub loyalty_points : ℕ
  pub loyalty_tier : Text
  pub created_at : Text

-- What the server sends back of a guest.
pub record Patch : Type 0 where
  pub is_banned : Option Bool
  pub vip_status : Option Bool
  pub loyalty_points : Option ℕ
  pub loyalty_tier : Option Text

abbrev pub or_kept {ℓ} : {A : Type ℓ} → Option A → A → A
or_kept none a = a
or_kept (some b) a = b

-- `{ ...g, ...r.data }`
unfoldable pub merged : Patch → Guest → Guest
merged p g = record g {
  is_banned = or_kept p.is_banned g.is_banned;
  vip_status = or_kept p.vip_status g.vip_status;
  loyalty_points = or_kept p.loyalty_points g.loyalty_points;
  loyalty_tier = or_kept p.loyalty_tier g.loyalty_tier;
}

pub data Filter : Type 0 where
  all_guests vip_guests banned_guests : Filter

pub data SortBy : Type 0 where
  joined name points : SortBy

pub data Request : Type 0 where
  loads : Request
  bans : ℕ → Bool → Text → Request
  toggles_vip : ℕ → Request
  adjusts : ℕ → Text → Option Text → Request
  deletes : ℕ → Request

pub record Page : Type 0 where
  pub guests : List Guest
  pub loading : Bool
  pub error : Bool
  pub search : Text
  -- `filter` and `sortBy`
  pub shown : Filter
  pub sort_by : SortBy
  pub acting : Option ℕ
  pub deleting : Option ℕ
  pub ban_target : Option Guest
  pub loyalty_target : Option Guest
  pub detail_id : Option ℕ
  -- how often `alert` was called
  pub alerts : ℕ
  pub pending : List Request

abbrev pub ask : Request → Page → Page
ask r s = record s { pending = s.pending ++ r ∷ [] }

-- The handlers, up to their requests.
unfoldable pub reload : Page → Page
reload s = ask loads (record s { loading = true; error = false })

unfoldable pub handle_ban : ℕ → Bool → Text → Page → Page
handle_ban id ban reason s = ask (bans id ban reason) (record s { acting = some id })

unfoldable pub handle_vip : ℕ → Page → Page
handle_vip id s = ask (toggles_vip id) (record s { acting = some id })

unfoldable pub handle_loyalty : ℕ → Text → Option Text → Page → Page
handle_loyalty id delta tier s = ask (adjusts id delta tier) (record s { acting = some id })

unfoldable pub handle_delete : Bool → ℕ → Page → Page
handle_delete confirmed id s =
    if not confirmed then s else ask (deletes id) (record s { deleting = some id })

-- What the server answers. `none` stands for a failure.
pub record Server : Type 0 where
  pub guest_list : Option (List Guest)
  pub patch : Request → Option Patch
  pub deletes : ℕ → Bool

-- `prev.map((g) => g.id === id ? ... : g)`
abbrev pub at_guest : (Guest → Guest) → ℕ → List Guest → List Guest
at_guest f id gs = map (λ g. if g.id == id then f g else g) gs

abbrev pub failed : Page → Page
failed s = record s { alerts = suc s.alerts }

unfoldable pub patched : ℕ → Option Patch → Page → Page
unfolding merged
patched id none s = record (failed s) { acting = none }
patched id (some p) s = record s { guests = at_guest (merged p) id s.guests; acting = none }

abbrev pub loaded : Option (List Guest) → Page → Page
loaded none s = record s { error = true; loading = false }
loaded (some gs) s = record s { guests = gs; loading = false }

abbrev pub deleted : ℕ → Bool → Page → Page
deleted id true s = record s { guests = filter (λ g. not (g.id == id)) s.guests; deleting = none }
deleted id false s = record (failed s) { deleting = none }

unfoldable pub answered : Server → Request → Page → Page
unfolding patched
answered sv loads s = loaded sv.guest_list s
answered sv (bans id ban reason) s = patched id (sv.patch (bans id ban reason)) s
answered sv (toggles_vip id) s = patched id (sv.patch (toggles_vip id)) s
answered sv (adjusts id delta tier) s = patched id (sv.patch (adjusts id delta tier)) s
answered sv (deletes id) s = deleted id (sv.deletes id) s

abbrev pub remove_at : List Request → ℕ → List Request
remove_at [] n = []
remove_at (r ∷ rs) zero = rs
remove_at (r ∷ rs) (suc n) = r ∷ remove_at rs n

unfoldable pub arrive : Server → ℕ → Page → Page
unfolding answered
arrive sv n s = elim (get_elem? s.pending n) [
  | none ↦ s
  | some r ↦ answered sv r (record s { pending = remove_at s.pending n })
]

-- The buttons of a row, which are off for the guest that is acted upon.
abbrev pub is : Option ℕ → ℕ → Bool
is none id = false
is (some k) id = k == id

unfoldable pub click_vip : ℕ → Page → Page
unfolding handle_vip
click_vip id s = if is s.acting id then s else handle_vip id s

unfoldable pub click_ban : Guest → Page → Page
click_ban g s = if is s.acting g.id then s else record s { ban_target = some g }

unfoldable pub click_delete : Bool → ℕ → Page → Page
unfolding handle_delete
click_delete confirmed id s = if is s.deleting id then s else handle_delete confirmed id s

-- The button of the dialog of a ban, which bans or frees as the guest stood when it was opened.
unfoldable pub submit_ban : Text → Page → Page
unfolding handle_ban
submit_ban reason s = elim s.ban_target [
  | none ↦ s
  | some g ↦ handle_ban g.id (not g.is_banned) reason s
]

unfoldable pub vip_count : Page → ℕ
vip_count s = length (filter (λ g. g.vip_status) s.guests)

unfoldable pub banned_count : Page → ℕ
banned_count s = length (filter (λ g. g.is_banned) s.guests)

unfoldable pub platinum_count : Page → ℕ
platinum_count s = length (filter (λ g. same g.loyalty_tier (codes "platinum")) s.guests)

abbrev pub fits : Filter → Guest → Bool
fits all_guests g = true
fits vip_guests g = g.vip_status
fits banned_guests g = g.is_banned

abbrev pub matches : Page → Guest → Bool
matches s g =
    let q = to_lower s.search in
    (not (truthy q) || (contains q (to_lower g.full_name) || contains q (to_lower g.email)))
    && fits s.shown g

module _ (name_le : Text → Text → Bool) (time : Text → ℕ) where
  abbrev pub sorted : SortBy → List Guest → List Guest
  sorted joined gs = sort (λ a b. leb (time b.created_at) (time a.created_at)) gs
  sorted name gs = sort (λ a b. name_le a.full_name b.full_name) gs
  sorted points gs = sort (λ a b. leb b.loyalty_points a.loyalty_points) gs

  unfoldable pub filtered : Page → List Guest
  filtered s = sorted s.sort_by (filter (matches s) s.guests)
