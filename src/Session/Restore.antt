-- ===== src/Session/Restore.antt =====
-- AuthContext.jsx, the effect on mount: what a reload of the page gives back.
use hotel_ms.Common.{
  ℕ, ◌≡◌, ◌≢◌, refl, true, false, [], ◌∷◌, Option, none, some, Text, truthy, arith,
}
use hotel_ms.Session.{
  Obj, Codec, Storage, Response, ok, failed, Session, provider, mount, resolve, logs_in, resolves,
  fails, run, decode_jwt, login_user, complete, received, fetched, on_error, cached_refresh, user,
}

-- A page that is opened anew over the storage of a session.
abbrev pub reload : Codec → Session → Text → Session
reload c s path = mount c (provider s.storage path)

-- The two steps of a login whose profile arrives, and of one whose profile does not.
login_arrives :
    (c : Codec) (t : Text) (p : Obj) (s : Session)
    → s.pending ≡ []
    → run c (logs_in t ∷ resolves 0 (ok p) ∷ []) s ≡ record s {
      storage = record s.storage { access_token = some t; profile_cache = some (c.stringify p) };
      token = some t;
      jwt_data = decode_jwt c t;
      profile = some p;
      pending = [];
    }
unfolding run resolve login_user complete received fetched
login_arrives c t p s e = ground arith

login_without_profile :
    (c : Codec) (t : Text) (status : Option ℕ) (s : Session)
    → s.pending ≡ []
    → status ≢ some 401
    → run c (logs_in t ∷ resolves 0 (failed status) ∷ []) s ≡ record s {
      storage = record s.storage { access_token = some t };
      token = some t;
      jwt_data = decode_jwt c t;
      profile = none;
      pending = [];
    }
unfolding run resolve login_user complete received fetched
login_without_profile c t status s e h = ground arith

reload-pending :
    (c : Codec) (t u path : Text) (q : Obj) (st : Storage)
    → st.access_token ≡ some t
    → st.profile_cache ≡ some u
    → truthy t ≡ true
    → truthy u ≡ true
    → c.parse u ≡ some q
    → mount c (provider st path) ≡ record (provider st path) {
      token = some t;
      jwt_data = decode_jwt c t;
      profile = some q;
      is_loading = false;
      pending = cached_refresh ∷ [];
    }
unfolding mount provider
reload-pending c t u path q st et eu ht hu hq = ground arith

-- Signing in with a profile that arrives, then reloading: the new page has the token, the claims,
-- the profile and the merged user of the old one, before any request of its own is answered.
pub reload_restores :
    (c : Codec) (t path : Text) (p : Obj) (s : Session)
    → s.pending ≡ []
    → truthy t ≡ true
    → truthy (c.stringify p) ≡ true
    → c.parse (c.stringify p) ≡ some p
    → let old = run c (logs_in t ∷ resolves 0 (ok p) ∷ []) s in
      let new = reload c old path in
      (new.token ≡ some t)
      × (new.jwt_data ≡ old.jwt_data)
      × (new.profile ≡ some p)
      × (user new ≡ user old)
      × (new.is_loading ≡ false)
unfolding provider user
reload_restores c t path p s e ht hp hc =
    let st : Storage = record s.storage {
      access_token = some t;
      profile_cache = some (c.stringify p);
    } in
    rw (login_arrives c t p s e) (
      rw (reload-pending c t (c.stringify p) path p st refl refl ht hp hc)
        (refl, refl, refl, refl, refl))

-- The loading screen ends: after the mount, either nothing is loading, or the answer to the one
-- request that it made, of whatever kind, ends it.
pub loading_ends :
    (c : Codec) (st : Storage) (path : Text) (r : Response)
    → (resolve c 0 r (mount c (provider st path))).is_loading ≡ false
unfolding resolve mount provider complete received
loading_ends c st path (ok p) = ground arith
loading_ends c st path (failed status) = ground arith

stale_login :
    (c : Codec) (t : Text) (status : Option ℕ) (s : Session)
    → s.pending ≡ []
    → status ≢ some 401
    → run c (fails (some 401) ∷ logs_in t ∷ resolves 0 (failed status) ∷ []) s
      ≡ record (on_error (some 401) s) {
        storage = record s.storage { access_token = some t; refresh_token = none };
        token = some t;
        jwt_data = decode_jwt c t;
        profile = none;
        pending = [];
      }
unfolding run on_error
stale_login c t status s e h = login_without_profile c t status (on_error (some 401) s) e h

-- A reload shows the profile of somebody else: where one user's profile is cached, a 401 leaves it
-- there; if the next login's own profile request fails, the page opened afterwards over the new
-- token has the old profile.
pub stale_profile :
    (c : Codec) (t path : Text) (p : Obj) (status : Option ℕ) (s : Session)
    → s.pending ≡ []
    → s.storage.profile_cache ≡ some (c.stringify p)
    → truthy t ≡ true
    → status ≢ some 401
    → truthy (c.stringify p) ≡ true
    → c.parse (c.stringify p) ≡ some p
    → let old = run c (fails (some 401) ∷ logs_in t ∷ resolves 0 (failed status) ∷ []) s in
      (old.profile ≡ none)
      × ((reload c old path).token ≡ some t)
      × ((reload c old path).profile ≡ some p)
unfolding provider
stale_profile c t path p status s e hc ht hs hp hq =
    let st : Storage = record s.storage { access_token = some t; refresh_token = none } in
    rw (stale_login c t status s e hs)
      (rw (reload-pending c t (c.stringify p) path p st refl hc ht hp hq) (refl, refl, refl))
