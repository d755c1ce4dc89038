-- ===== src/Session.antt =====
-- frontend/react-app/src/contexts/AuthContext.jsx and services/api.js: who is signed in, what the
-- browser's storage keeps of it, and the two interceptors of the HTTP client. JSON and base64 are
-- the browser's, and are a parameter. A request that is under way is a `Continuation` in `pending`;
-- `resolve` completes any one of them, so responses may arrive in every order.
pub mod Routes
pub mod Tokens
pub mod Logout
pub mod Restore
mod Tests
use hotel_ms.Common.{
  ℕ, zero, suc, ◌==◌, if◌then◌else◌, Bool, true, false, ◌||◌, List, [], ◌∷◌, ◌++◌, map, Option,
  none, some, Text, codes, truthy, same, starts_with, split, get_elem?,
}

-- The JSON values that the program looks at inside an object.
pub data Json : Type 0 where
  null : Json
  text : Text → Json
  number : ℕ → Json

-- An object: its value at each key, if it has the key.
abbrev pub Obj : Type 0
Obj = Text → Option Json

-- `{ ...a, ...b }`
unfoldable pub spread : Obj → Obj → Obj
spread a b key = elim (b key) [ none ↦ a key | some v ↦ some v ]

-- The browser's codecs. `none` stands for an exception.
pub record Codec : Type 0 where
  pub parse : Text → Option Obj
  pub stringify : Obj → Text
  pub atob : Text → Option Text

-- `localStorage`
pub record Storage : Type 0 where
  pub access_token : Option Text
  pub refresh_token : Option Text
  pub profile_cache : Option Text

pub data Continuation : Type 0 where
  cached_refresh first_load after_login refreshing : Continuation

pub data Response : Type 0 where
  ok : Obj → Response
  failed : Option ℕ → Response

pub record Session : Type 0 where
  pub token : Option Text
  pub jwt_data : Option Obj
  pub profile : Option Obj
  pub is_loading : Bool
  pub storage : Storage
  pub location : Text
  pub pending : List Continuation

-- The provider's state before its effect has run, over what the browser kept.
unfoldable pub provider : Storage → Text → Session
provider storage path = record {
  token = none;
  jwt_data = none;
  profile = none;
  is_loading = true;
  storage = storage;
  location = path;
  pending = [];
}

-- `s.replace(/-/g, '+').replace(/_/g, '/')`
abbrev base64_alphabet : Text → Text
base64_alphabet = map (λ c. if c == 45 then 43 else if c == 95 then 47 else c)

-- A stored text that is missing or empty is false.
abbrev pub present : Option Text → Option Text
present none = none
present (some s) = if truthy s then some s else none

-- The header that the request interceptor attaches.
unfoldable pub authorization : Storage → Option Text
authorization st = elim (present st.access_token) [
  | none ↦ none
  | some token ↦ some (codes "Bearer " ++ token)
]

unfoldable pub is_protected : Text → Bool
is_protected path =
    starts_with (codes "/admin") path
    || (starts_with (codes "/user/") path
        || (starts_with (codes "/staff/") path || same path (codes "/dashboard")))

abbrev pub unauthorized : Option ℕ → Bool
unauthorized none = false
unauthorized (some status) = status == 401

-- The response interceptor's error handler.
unfoldable pub on_error : Option ℕ → Session → Session
unfolding is_protected
on_error status s =
    if unauthorized status
    then (record s {
      storage = record s.storage { access_token = none; refresh_token = none };
      location = if is_protected s.location then codes "/login" else s.location;
    })
    else s

-- The error path of a request runs the interceptor; `fetchProfile` then turns it into null.
unfoldable pub received : Response → Session → Session
unfolding on_error
received (ok p) s = s
received (failed status) s = on_error status s

unfoldable pub fetched : Response → Option Obj
fetched (ok p) = some p
fetched (failed status) = none

module _ (codec : Codec) where
  open codec use {parse, stringify, atob}

  -- The second part of the token, decoded; null if any step throws.
  unfoldable pub decode_jwt : Text → Option Obj
  decode_jwt token = elim (get_elem? (split 46 token) 1) [
    | none ↦ none
    | some payload ↦ elim (atob (base64_alphabet payload)) [ none ↦ none | some s ↦ parse s ]
  ]

  -- `if (p) localStorage.setItem('profile_cache', JSON.stringify(p))`
  abbrev cache : Option Obj → Storage → Storage
  cache none st = st
  cache (some p) st = record st { profile_cache = some (stringify p) }

  -- `try { setProfile(JSON.parse(cached)); } catch {}`
  abbrev restored : Text → Option Obj → Option Obj
  restored cached profile = elim (parse cached) [ none ↦ profile | some p ↦ some p ]

  unfoldable pub mount : Session → Session
  unfolding decode_jwt
  mount s = elim (present s.storage.access_token) [
    | none ↦ record s { is_loading = false }
    | some stored ↦ elim (present s.storage.profile_cache) [
      | none ↦ record s {
        token = some stored;
        jwt_data = decode_jwt stored;
        pending = s.pending ++ first_load ∷ [];
      }
      | some cached ↦ record s {
        token = some stored;
        jwt_data = decode_jwt stored;
        profile = restored cached s.profile;
        is_loading = false;
        pending = s.pending ++ cached_refresh ∷ [];
      }
    ]
  ]

  unfoldable pub login_user : Text → Session → Session
  unfolding decode_jwt
  login_user new_token s = record s {
    storage = record s.storage { access_token = some new_token };
    token = some new_token;
    jwt_data = decode_jwt new_token;
    pending = s.pending ++ after_login ∷ [];
  }

  -- What follows the awaited `fetchProfile()` at each of its four calls.
  unfoldable pub complete : Continuation → Option Obj → Session → Session
  complete cached_refresh none s = s
  complete cached_refresh (some p) s = record s {
    profile = some p;
    storage = cache (some p) s.storage;
  }
  complete first_load p s = record s {
    profile = p;
    storage = cache p s.storage;
    is_loading = false;
  }
  complete after_login p s = record s { profile = p; storage = cache p s.storage }
  complete refreshing p s = record s { profile = p }

unfoldable pub refresh_profile : Session → Session
refresh_profile s = record s { pending = s.pending ++ refreshing ∷ [] }

unfoldable pub logout_user : Session → Session
logout_user s = record s {
  storage = record { access_token = none; refresh_token = none; profile_cache = none };
  token = none;
  jwt_data = none;
  profile = none;
}

-- The merged `user` object of the context.
unfoldable pub user : Session → Option Obj
unfolding spread
user s = elim s.jwt_data [
  | none ↦ none
  | some claims ↦ some (spread claims (elim s.profile [ none ↦ (λ key. none) | some p ↦ p ]))
]

-- `user?.role ?? null`
unfoldable pub role : Session → Json
unfolding user
role s = elim (user s) [
  | none ↦ null
  | some u ↦ elim (u (codes "role")) [ none ↦ null | some v ↦ v ]
]

-- `!!token`
unfoldable pub is_authenticated : Session → Bool
is_authenticated s = elim s.token [ none ↦ false | some t ↦ truthy t ]

-- Taking the n-th pending request out of the list.
abbrev pub remove_at : List Continuation → ℕ → List Continuation
remove_at [] n = []
remove_at (k ∷ ks) zero = ks
remove_at (k ∷ ks) (suc n) = k ∷ remove_at ks n

-- The n-th pending request gets its response.
unfoldable pub resolve : Codec → ℕ → Response → Session → Session
unfolding complete received fetched
resolve codec n r s = elim (get_elem? s.pending n) [
  | none ↦ s
  | some k ↦
      complete codec k (fetched r) (received r (record s { pending = remove_at s.pending n }))
]

-- What can happen to the provider while the page lives.
pub data Event : Type 0 where
  mounts : Event
  logs_in : Text → Event
  logs_out : Event
  refreshes : Event
  resolves : ℕ → Response → Event
  -- any other request of the page fails
  fails : Option ℕ → Event
  navigates : Text → Event

unfoldable pub step : Codec → Event → Session → Session
unfolding mount login_user logout_user refresh_profile resolve on_error
step c mounts s = mount c s
step c (logs_in t) s = login_user c t s
step c logs_out s = logout_user s
step c refreshes s = refresh_profile s
step c (resolves n r) s = resolve c n r s
step c (fails status) s = on_error status s
step c (navigates path) s = record s { location = path }

unfoldable pub run : Codec → List Event → Session → Session
unfolding step
run c [] s = s
run c (e ∷ es) s = run c es (step c e s)
