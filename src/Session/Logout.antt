-- ===== src/Session/Logout.antt =====
-- AuthContext.jsx `logoutUser` and services/api.js: what is left after signing out.
use hotel_ms.Common.{
  ℕ, ◌≡◌, ◌≢◌, refl, Bool, true, false, List, [], ◌∷◌, Option, none, some, arith, get_elem?, all,
  &&-eq-true,
}
use hotel_ms.Session.{
  Obj, Codec, Continuation, cached_refresh, first_load, after_login, refreshing, Response, ok,
  failed, Session, mount, logout_user, resolve, complete, received, fetched, on_error, Event,
  mounts, logs_in, logs_out, refreshes, resolves, fails, navigates, step, run, authorization,
  is_authenticated, user,
}
use hotel_ms.Session.Tokens.{resolve_cases}

-- Every event but a login.
abbrev pub no_login : Event → Bool
no_login (logs_in t) = false
no_login e = true

-- Nobody is signed in, in the page and in the storage.
pub record IsSignedOut (s : Session) : Type 0 where
  pub no_token : s.token ≡ none
  pub no_claims : s.jwt_data ≡ none
  pub no_stored : s.storage.access_token ≡ none

received-IsSignedOut : (r : Response) (s : Session) → IsSignedOut s → IsSignedOut (received r s)
unfolding received
received-IsSignedOut (ok p) s h = h
received-IsSignedOut (failed status) s h = ground arith

complete-IsSignedOut :
    (c : Codec) (k : Continuation) (p : Option Obj) (s : Session)
    → IsSignedOut s
    → IsSignedOut (complete c k p s)
unfolding complete
complete-IsSignedOut c cached_refresh none s h = h
complete-IsSignedOut c cached_refresh (some p) s h = ground arith
complete-IsSignedOut c first_load p s h = ground arith
complete-IsSignedOut c after_login p s h = ground arith
complete-IsSignedOut c refreshing p s h = ground arith

mount-IsSignedOut : (c : Codec) (s : Session) → IsSignedOut s → IsSignedOut (mount c s)
unfolding mount
mount-IsSignedOut c s h = ground arith

step-IsSignedOut :
    (c : Codec) (e : Event) (s : Session)
    → no_login e ≡ true
    → IsSignedOut s
    → IsSignedOut (step c e s)
unfolding step
step-IsSignedOut c mounts s q h = mount-IsSignedOut c s h
step-IsSignedOut c (logs_in t) s q h = absurd (cc)
step-IsSignedOut c logs_out s q h = ground arith
step-IsSignedOut c refreshes s q h = ground arith
step-IsSignedOut c (resolves n r) s q h =
    resolve_cases IsSignedOut c n r s h
      λ k _. complete-IsSignedOut c k (fetched r) _ (received-IsSignedOut r _ (ground arith))
step-IsSignedOut c (fails status) s q h = ground arith
step-IsSignedOut c (navigates path) s q h = ground arith

run-IsSignedOut :
    (c : Codec) (es : List Event) (s : Session)
    → all no_login es ≡ true
    → IsSignedOut s
    → IsSignedOut (run c es s)
unfolding run
run-IsSignedOut c [] s q h = h
run-IsSignedOut c (e ∷ es) s q h =
    let (q₀, q₁) = &&-eq-true (no_login e) (all no_login es) q in
    run-IsSignedOut c es (step c e s) q₁ (step-IsSignedOut c e s q₀ h)

-- From a logout until the next login, whatever else happens (late responses, failed requests, a
-- remount): nobody is authenticated, there is no user object, and no request carries a token.
pub logout_lasts :
    (c : Codec) (es : List Event) (s : Session)
    → all no_login es ≡ true
    → let t = run c es (logout_user s) in
      (is_authenticated t ≡ false) × (user t ≡ none) × (authorization t.storage ≡ none)
unfolding is_authenticated user authorization
logout_lasts c es s q =
    let out =
      run-IsSignedOut c es (logout_user s) q
        (unfold logout_user in record { no_token = refl; no_claims = refl; no_stored = refl }) in
    (
      rw (out.no_token, is_authenticated),
      rw (out.no_claims, user),
      rw (out.no_stored, authorization),
    )

-- The storage holds no access token.
abbrev Tokenless : Session → Type 0
Tokenless s = s.storage.access_token ≡ none

complete-Tokenless :
    (c : Codec) (k : Continuation) (p : Option Obj) (s : Session)
    → Tokenless s
    → Tokenless (complete c k p s)
unfolding complete
complete-Tokenless c cached_refresh none s h = h
complete-Tokenless c cached_refresh (some p) s h = h
complete-Tokenless c first_load p s h = ground arith
complete-Tokenless c after_login p s h = ground arith
complete-Tokenless c refreshing p s h = h

received-Tokenless : (r : Response) (s : Session) → Tokenless s → Tokenless (received r s)
unfolding received
received-Tokenless (ok p) s h = h
received-Tokenless (failed status) s h = ground arith

step-Tokenless :
    (c : Codec) (e : Event) (s : Session) → no_login e ≡ true → Tokenless s → Tokenless (step c e s)
unfolding step mount
step-Tokenless c mounts s q h = ground arith
step-Tokenless c (logs_in t) s q h = absurd (cc)
step-Tokenless c logs_out s q h = refl
step-Tokenless c refreshes s q h = h
step-Tokenless c (resolves n r) s q h =
    resolve_cases Tokenless c n r s h
      λ k _. complete-Tokenless c k (fetched r) _ (received-Tokenless r _ h)
step-Tokenless c (fails status) s q h = ground arith
step-Tokenless c (navigates path) s q h = h

run-Tokenless :
    (c : Codec) (es : List Event) (s : Session)
    → all no_login es ≡ true
    → Tokenless s
    → Tokenless (run c es s)
unfolding run
run-Tokenless c [] s q h = h
run-Tokenless c (e ∷ es) s q h =
    let (q₀, q₁) = &&-eq-true (no_login e) (all no_login es) q in
    run-Tokenless c es (step c e s) q₁ (step-Tokenless c e s q₀ h)

-- After any request fails with status 401, no request carries a token before the next login.
pub unauthorized_lasts :
    (c : Codec) (es : List Event) (s : Session)
    → all no_login es ≡ true
    → authorization (run c es (on_error (some 401) s)).storage ≡ none
unfolding authorization
unauthorized_lasts c es s q =
    rw (run-Tokenless c es (on_error (some 401) s) q (unfold on_error in refl), authorization)

-- A profile request that is under way at the logout writes the profile back into the storage when
-- it succeeds (unless it is one of `refreshProfile`), although nobody is signed in any more.
pub logout_leaks_profile :
    (c : Codec) (n : ℕ) (k : Continuation) (p : Obj) (s : Session)
    → get_elem? s.pending n ≡ some k
    → k ≢ refreshing
    → let t = resolve c n (ok p) (logout_user s) in
      (t.storage.profile_cache ≡ some (c.stringify p))
      × (t.profile ≡ some p)
      × (is_authenticated t ≡ false)
unfolding resolve logout_user is_authenticated
logout_leaks_profile c n cached_refresh p s e h = rw (e, resolve) (refl, refl, refl)
logout_leaks_profile c n first_load p s e h = rw (e, resolve) (refl, refl, refl)
logout_leaks_profile c n after_login p s e h = rw (e, resolve) (refl, refl, refl)
logout_leaks_profile c n refreshing p s e h = absurd (h refl)
