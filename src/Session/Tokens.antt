-- ===== src/Session/Tokens.antt =====
-- AuthContext.jsx: the decoded claims and the token that they come from.
use hotel_ms.Common.{
  ◌≡◌, refl, List, [], ◌∷◌, Option, none, some, Text, arith, Option-cases, ℕ, get_elem?, inl, inr,
}
use hotel_ms.Session.{
  Obj, Codec, Storage, Continuation, cached_refresh, first_load, after_login, refreshing, Response,
  ok, failed, Session, provider, mount, remove_at, decode_jwt, resolve, complete, received, fetched,
  Event, mounts, logs_in, logs_out, refreshes, resolves, fails, navigates, step, run,
}

abbrev pub claims_of : Codec → Option Text → Option Obj
claims_of c none = none
claims_of c (some t) = decode_jwt c t

abbrev pub ClaimsAgree : Codec → Session → Type 0
ClaimsAgree c s = s.jwt_data ≡ claims_of c s.token

-- A response either finds no request, or completes one behind the interceptor.
pub resolve_cases {ℓ} :
    (P : Session → Type ℓ) (c : Codec) (n : ℕ) (r : Response) (s : Session)
    → P s
    → ((k : Continuation)
        → get_elem? s.pending n ≡ some k
        → P (complete c k (fetched r) (received r (record s { pending = remove_at s.pending n }))))
    → P (resolve c n r s)
unfolding resolve
resolve_cases P c n r s idle done = elim (Option-cases (get_elem? s.pending n)) [
  | inl e ↦ rw (e, resolve) idle
  | inr (k, e) ↦ rw (e, resolve) (done k e)
]

complete-ClaimsAgree :
    (c : Codec) (k : Continuation) (p : Option Obj) (s : Session)
    → ClaimsAgree c s
    → ClaimsAgree c (complete c k p s)
unfolding complete
complete-ClaimsAgree c cached_refresh none s h = h
complete-ClaimsAgree c cached_refresh (some p) s h = h
complete-ClaimsAgree c first_load p s h = h
complete-ClaimsAgree c after_login p s h = h
complete-ClaimsAgree c refreshing p s h = h

received-ClaimsAgree :
    (c : Codec) (r : Response) (s : Session) → ClaimsAgree c s → ClaimsAgree c (received r s)
unfolding received
received-ClaimsAgree c (ok p) s h = h
received-ClaimsAgree c (failed status) s h = ground arith

mount-ClaimsAgree : (c : Codec) (s : Session) → ClaimsAgree c s → ClaimsAgree c (mount c s)
unfolding mount
mount-ClaimsAgree c s h = ground arith

step-ClaimsAgree :
    (c : Codec) (e : Event) (s : Session) → ClaimsAgree c s → ClaimsAgree c (step c e s)
unfolding step
step-ClaimsAgree c mounts s h = mount-ClaimsAgree c s h
step-ClaimsAgree c (logs_in t) s h = refl
step-ClaimsAgree c logs_out s h = refl
step-ClaimsAgree c refreshes s h = h
step-ClaimsAgree c (resolves n r) s h =
    resolve_cases (ClaimsAgree c) c n r s h
      λ k _. complete-ClaimsAgree c k (fetched r) _ (received-ClaimsAgree c r _ h)
step-ClaimsAgree c (fails status) s h = ground arith
step-ClaimsAgree c (navigates path) s h = h

run-ClaimsAgree :
    (c : Codec) (es : List Event) (s : Session) → ClaimsAgree c s → ClaimsAgree c (run c es s)
unfolding run
run-ClaimsAgree c [] s h = h
run-ClaimsAgree c (e ∷ es) s h = run-ClaimsAgree c es (step c e s) (step-ClaimsAgree c e s h)

-- Whatever happens after the provider is created, the decoded claims are those of the token that
-- it holds, and there are none when it holds no token.
pub claims_agree :
    (c : Codec) (st : Storage) (path : Text) (es : List Event)
    → let s = run c es (provider st path) in s.jwt_data ≡ claims_of c s.token
unfolding provider
claims_agree c st path es = run-ClaimsAgree c es (provider st path) refl
