-- ===== src/Session/Tests.antt =====
-- Runs of the session on concrete inputs, and the theorems applied to them.
use hotel_ms.Common.{◌≡◌, refl, if◌then◌else◌, true, false, [], ◌∷◌, none, some, Text, codes, same}
use hotel_ms.Session.{
  text, Obj, Codec, Storage, after_login, ok, failed, Session, provider, mount, resolve, logs_in,
  logs_out, mounts, resolves, run, user, role, spread, decode_jwt, authorization, is_authenticated,
  logout_user,
}
use hotel_ms.Session.Tokens.{claims_agree, claims_of}
use hotel_ms.Session.Logout.{logout_lasts, logout_leaks_profile}
use hotel_ms.Session.Restore.{reload, reload_restores}
use hotel_ms.Session.Routes.{private, render, private_route, allows, shows, admins, routes}
use hotel_ms.Session.Routes.Guards.{admin_pages_guarded}

abbrev admin_profile : Obj
admin_profile key = if same key (codes "role") then some (text (codes "hotel_admin")) else none

-- A codec that knows one object.
abbrev toy : Codec
toy = record {
  parse = λ t. some admin_profile;
  stringify = λ o. codes "{role}";
  atob = λ t. some t;
}

abbrev token_text : Text
token_text = codes "head.body.sign"

abbrev stored : Storage
stored = record {
  access_token = some token_text;
  refresh_token = none;
  profile_cache = some (codes "{role}");
}

abbrev signed_in : Session
signed_in = record {
  token = some token_text;
  jwt_data = some admin_profile;
  profile = none;
  is_loading = false;
  storage = stored;
  location = codes "/my-bookings";
  pending = [];
}

abbrev waiting : Session
waiting = record signed_in { pending = after_login ∷ [] }

-- A reload of a signed-in administrator's page.
role-reload :
    role (mount toy (provider stored (codes "/admin/dashboard"))) ≡ text (codes "hotel_admin")
unfolding role user spread mount provider decode_jwt
role-reload = refl

claims_agree_example :
    (run toy
      (mounts ∷ resolves 0 (failed none) ∷ logs_out ∷ [])
      (provider stored (codes "/"))).jwt_data
    ≡ claims_of toy
        (run toy
          (mounts ∷ resolves 0 (failed none) ∷ logs_out ∷ [])
          (provider stored (codes "/"))).token
claims_agree_example =
    claims_agree toy stored (codes "/") (mounts ∷ resolves 0 (failed none) ∷ logs_out ∷ [])

reload_restores_example :
    let old = run toy (logs_in token_text ∷ resolves 0 (ok admin_profile) ∷ []) signed_in in
    let new = reload toy old (codes "/") in
    (new.token ≡ some token_text)
    × (new.jwt_data ≡ old.jwt_data)
    × (new.profile ≡ some admin_profile)
    × (user new ≡ user old)
    × (new.is_loading ≡ false)
reload_restores_example =
    reload_restores toy token_text (codes "/") admin_profile signed_in refl refl refl refl

logout_lasts_example :
    let t = run toy (resolves 0 (ok admin_profile) ∷ mounts ∷ []) (logout_user waiting) in
    (is_authenticated t ≡ false) × (user t ≡ none) × (authorization t.storage ≡ none)
logout_lasts_example = logout_lasts toy (resolves 0 (ok admin_profile) ∷ mounts ∷ []) waiting refl

logout_leaks_profile_example :
    let t = resolve toy 0 (ok admin_profile) (logout_user waiting) in
    (t.storage.profile_cache ≡ some (codes "{role}"))
    × (t.profile ≡ some admin_profile)
    × (is_authenticated t ≡ false)
logout_leaks_profile_example =
    logout_leaks_profile toy 0 after_login admin_profile waiting refl (λ e. cc)

shown_to_admin : render (private admins (codes "RoomsList")) signed_in ≡ shows (codes "RoomsList")
unfolding render private_route is_authenticated allows role user spread
shown_to_admin = refl

admin_pages_guarded_example :
    (is_authenticated signed_in ≡ true) × (allows admins (role signed_in) ≡ true)
unfolding routes
admin_pages_guarded_example =
    admin_pages_guarded 28
      (record { path = codes "/admin/rooms"; element = private admins (codes "RoomsList") })
      (codes "RoomsList") signed_in refl refl shown_to_admin
