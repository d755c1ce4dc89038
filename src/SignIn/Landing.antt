-- ===== src/SignIn/Landing.antt =====
-- Login.jsx and the table of routes: where a login leads.
use hotel_ms.Common.{
  ◌≡◌, refl, sym, ap, ◌∙◌, subst, ◌⊎◌, inl, inr, if◌then◌else◌, true, false, List, [], ◌∷◌, Option,
  none, some, Text, codes, truthy, same, same→eq, includes, find, length, get_elem?,
  get_elem?-append, Bool-cases, arith,
}
use hotel_ms.Session.{
  Json, null, text, Obj, Codec, Session, Response, ok, Continuation, after_login, login_user,
  resolve, complete, fetched, received, remove_at, decode_jwt, spread, user, role, is_authenticated,
}
use hotel_ms.Session.Routes.{
  Element, redirect, Screen, goes, shows, spinner, render, private_route, allows, everyone, admins,
  team, routes,
}
use hotel_ms.SignIn.{
  Page, accepted, handle_login, signed_in, with_payload, payload, landing, landing_of,
}

-- The route of a path without parameters, and a path that is followed through one redirection.
abbrev pub element_at : Text → Element
element_at path = elim (find (λ r. same r.path path) routes) [
  | none ↦ redirect (codes "/")
  | some r ↦ r.element
]

abbrev pub visit : Text → Session → Screen
visit path s = elim (render (element_at path) s) [
  | spinner ↦ spinner
  | shows name ↦ shows name
  | goes p ↦ render (element_at p) s
]

-- The page that a role starts on.
abbrev pub home_page : Text → Text
home_page r =
    if includes r admins
    then codes "AdminDashboard"
    else if same r (codes "staff")
    then codes "AssignedBookings"
    else codes "UserDashboard"

-- The session behind a login, its profile received.
pub signed_in-complete :
    (codec : Codec) (token : Text) (r : Response) (s : Session)
    → signed_in codec token r s ≡ (
        let v = login_user codec token s in
        complete codec after_login
          (fetched r)
          (received r (record v { pending = remove_at v.pending (length s.pending) })))
unfolding signed_in resolve login_user
signed_in-complete codec token r s =
    let v = login_user codec token s in
    let last : get_elem? v.pending (length s.pending) ≡ some after_login =
      ap (get_elem? v.pending) (omega arith) ∙ get_elem?-append s.pending (after_login ∷ []) 0 in
    ap
      (λ (o : Option Continuation). elim o [
        | none ↦ v
        | some k ↦
            complete codec k (fetched r)
              (received r (record v { pending = remove_at v.pending (length s.pending) }))
      ])
      last

guard-shows :
    (roles : List Text) (name : Text) (s : Session)
    → s.is_loading ≡ false
    → is_authenticated s ≡ true
    → allows roles (role s) ≡ true
    → private_route (some roles) name s ≡ shows name
unfolding private_route
guard-shows roles name s a b c = ground (arith, a, b, c)

includes_cases :
    (r t : Text) (ts : List Text) → includes r (t ∷ ts) ≡ true → (r ≡ t) ⊎ (includes r ts ≡ true)
includes_cases r t ts h = elim (Bool-cases (same t r)) [
  | inl e ↦ inl (sym (same→eq t r e))
  | inr e ↦ inr (ground (arith, e, h))
]

includes-nil : (r : Text) → includes r [] ≡ true → ⊥
includes-nil r h = absurd (cc)

-- One case for each role.
by_cases :
    (T : Text → Type 0) (r : Text)
    → includes r everyone ≡ true
    → T (codes "guest")
    → T (codes "staff")
    → T (codes "hotel_admin")
    → T (codes "super_admin")
    → T r
by_cases T r h a b c d = elim (includes_cases r (codes "guest") team h) [
  | inl e ↦ subst T (sym e) a
  | inr k ↦ elim (includes_cases r (codes "staff") admins k) [
    | inl e ↦ subst T (sym e) b
    | inr l ↦ elim (includes_cases r (codes "hotel_admin") (codes "super_admin" ∷ []) l) [
      | inl e ↦ subst T (sym e) c
      | inr m ↦ elim (includes_cases r (codes "super_admin") [] m) [
        | inl e ↦ subst T (sym e) d
        | inr n ↦ absurd (includes-nil r n)
      ]
    ]
  ]
]

-- The page that a path's guard lets this role see.
lands :
    (path : Text) (roles : List Text) (name r : Text) (s : Session)
    → render (element_at path) s ≡ private_route (some roles) name s
    → s.is_loading ≡ false
    → is_authenticated s ≡ true
    → role s ≡ text r
    → includes r roles ≡ true
    → visit path s ≡ shows name
unfolding allows
lands path roles name r s e a b c h =
    ap
      (λ (x : Screen). elim x [
        | spinner ↦ spinner
        | shows n ↦ shows n
        | goes p ↦ render (element_at p) s
      ])
      (e ∙ guard-shows roles name s a b (ap (allows roles) c ∙ h))

by_role :
    (r : Text) (s : Session)
    → includes r everyone ≡ true
    → s.is_loading ≡ false
    → is_authenticated s ≡ true
    → role s ≡ text r
    → visit (landing_of (some (text r))) s ≡ shows (home_page r)
unfolding landing_of routes render allows
by_role r s h a b c =
    by_cases (λ t. role s ≡ text t → visit (landing_of (some (text t))) s ≡ shows (home_page t)) r h
      (λ k. guard-shows everyone (codes "UserDashboard") s a b (ap (allows everyone) k ∙ refl))
      (λ k.
        lands (codes "/staff/bookings") team (codes "AssignedBookings") (codes "staff") s refl a b k
          refl)
      (λ k.
        lands (codes "/admin/dashboard") admins (codes "AdminDashboard") (codes "hotel_admin") s
          refl a b k refl)
      (λ k.
        lands (codes "/admin/dashboard") admins (codes "AdminDashboard") (codes "super_admin") s
          refl a b k refl)
      c

-- The session behind an accepted login.
signed_in-reads :
    (codec : Codec) (token r : Text) (p q : Obj) (s : Session)
    → truthy token ≡ true
    → decode_jwt codec token ≡ some p
    → spread p q (codes "role") ≡ some (text r)
    → let u = signed_in codec token (ok q) s in
      (u.is_loading ≡ s.is_loading) × (is_authenticated u ≡ true) × (role u ≡ text r)
unfolding complete fetched received login_user is_authenticated role user
signed_in-reads codec token r p q s h d f =
    let fields = signed_in-complete codec token (ok q) s in
    let behind : Option Obj → Session =
      λ j. record s { token = some token; jwt_data = j; profile = some q } in
    (
      ap (λ v. v.is_loading) fields,
      ap is_authenticated fields ∙ h,
      ap role fields
          ∙ ap (λ j. role (behind j)) d
          ∙ ap (λ (o : Option Json). elim o [ none ↦ null | some v ↦ v ]) f,
    )

-- A login leads to a page that its user may see: where both readings of the token give the claims `p`
-- with one of the four roles, and the profile does not change the role, the page goes to an address
-- of the table that shows the home page of the role.
pub login_opens_home :
    (codec : Codec) (token r : Text) (p q : Obj) (s : Page)
    → truthy token ≡ true
    → payload codec token ≡ some p
    → decode_jwt codec token ≡ some p
    → p (codes "role") ≡ some (text r)
    → spread p q (codes "role") ≡ some (text r)
    → includes r everyone ≡ true
    → s.session.is_loading ≡ false
    → let t = handle_login codec (accepted token) (ok q) s in
      (t.navigates ≡ some (landing p)) × (visit (landing p) t.session ≡ shows (home_page r))
unfolding handle_login with_payload
login_opens_home codec token r p q s h a d e f k l =
    let u : Session = signed_in codec token (ok q) s.session in
    let (b, c, g) = signed_in-reads codec token r p q s.session h d f in
    let page : handle_login codec (accepted token) (ok q) s ≡ with_payload (some p) u s =
      ap (λ o. with_payload o u s) a in
    (
      ap (λ t. t.navigates) page,
      ap (λ t. visit (landing p) t.session) page
          ∙ ap (λ o. visit (landing_of o) u) e
          ∙ by_role r u k (b ∙ l) c g,
    )
