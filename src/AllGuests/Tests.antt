-- ===== src/AllGuests/Tests.antt =====
-- The list of guests on concrete inputs, and the theorems applied to it.
use hotel_ms.Common.{
  ℕ, ◌≡◌, ◌≢◌, refl, leb, Bool, true, false, [], ◌∷◌, none, some, Text, codes, length, arith,
}
use hotel_ms.AllGuests.{
  Guest, toggles_vip, Page, Server, vip_guests, points, merged, answered, patched, filtered,
  vip_count,
}
use hotel_ms.AllGuests.Answers.{guest_at, outcome, answered_lem}

abbrev olim : Guest
olim = record {
  id = 1;
  full_name = codes "Olim";
  email = codes "o@x.uz";
  is_banned = false;
  vip_status = true;
  loyalty_points = 10;
  loyalty_tier = codes "gold";
  created_at = codes "2026";
}

abbrev lola : Guest
lola = record olim { id = 2; full_name = codes "Lola"; loyalty_points = 70 }

abbrev listed : Page
listed = record {
  guests = olim ∷ lola ∷ [];
  loading = false;
  error = false;
  search = codes "OL";
  shown = vip_guests;
  sort_by = points;
  acting = none;
  deleting = none;
  ban_target = none;
  loyalty_target = none;
  detail_id = none;
  alerts = 0;
  pending = [];
}

abbrev length_le : Text → Text → Bool
length_le s t = leb (length s) (length t)

filtered-points : filtered length_le length listed ≡ lola ∷ olim ∷ []
unfolding filtered
filtered-points = refl

abbrev server : Server
server = record {
  guest_list = none;
  patch = λ r. some (record {
    is_banned = none;
    vip_status = some false;
    loyalty_points = none;
    loyalty_tier = none;
  });
  deletes = λ id. true;
}

vip_count-toggled : vip_count (answered server (toggles_vip 1) listed) ≡ 1
unfolding vip_count answered patched merged
vip_count-toggled = refl

answered_lem_example :
    (guest_at 1 (answered server (toggles_vip 1) listed).guests
      ≡ outcome server (toggles_vip 1) (some olim))
    × ((k : ℕ)
        → k ≢ 1
        → guest_at k (answered server (toggles_vip 1) listed).guests ≡ guest_at k listed.guests)
answered_lem_example = answered_lem server (toggles_vip 1) 1 listed refl

one_is_not_two : ◌≢◌ {A = ℕ} 1 2
one_is_not_two = λ e. absurd (omega (arith, e))
