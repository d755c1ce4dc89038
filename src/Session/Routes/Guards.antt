-- ===== src/Session/Routes/Guards.antt =====
-- App.jsx: the guards of the table's routes.
use hotel_ms.Common.{
  ℕ, ◌≡◌, refl, inl, inr, Bool, true, false, not, ◌&&◌, ◌||◌, List, [], ◌∷◌, Option, none, some,
  Text, codes, same, starts_with, includes, all, get_elem?, all-get_elem?, Bool-cases, arith,
  same_iff, subst, &&-eq-true,
}
use hotel_ms.Session.{
  Json, null, text, number, Session, role, is_authenticated, on_error, is_protected, unauthorized,
}
use hotel_ms.Session.Routes.{
  Element, page, private, redirect, Route, shows, allows, render, admins, team, routes,
}

-- The roles that a route asks for, if it has a guard.
abbrev pub guard_of : Element → Option (List Text)
guard_of (page name) = none
guard_of (private roles name) = some roles
guard_of (redirect path) = none

abbrev is_page : Element → Bool
is_page (page name) = true
is_page (private roles name) = false
is_page (redirect path) = false

-- A page behind a guard is shown only to a signed-in user whose role is in the list.
pub private-shows :
    (roles : List Text) (name shown : Text) (s : Session)
    → render (private roles name) s ≡ shows shown
    → (shown ≡ name) × (is_authenticated s ≡ true) × (allows roles (role s) ≡ true)
unfolding render
private-shows roles name shown s h = ground arith

abbrev guards_within : List Text → Element → Bool
guards_within roles (page name) = false
guards_within roles (private rs name) = all (λ t. includes t roles) rs
guards_within roles (redirect path) = true

-- The test that a route under the prefix redirects, or has a guard with none but these roles.
abbrev guarded_under : Text → List Text → Route → Bool
guarded_under prefix roles r = not (starts_with prefix r.path) || guards_within roles r.element

admin_table : all (guarded_under (codes "/admin") admins) routes ≡ true
unfolding routes
admin_table = refl

staff_table : all (guarded_under (codes "/staff") team) routes ≡ true
unfolding routes
staff_table = refl

includes_mono :
    (t : Text) (rs roles : List Text)
    → all (λ r. includes r roles) rs ≡ true
    → includes t rs ≡ true
    → includes t roles ≡ true
includes_mono t [] roles h m = absurd (cc)
includes_mono t (r ∷ rs) roles h m = elim (Bool-cases (same r t)) [
  | inl e ↦ subst (λ u. includes u roles ≡ true) ((same_iff r t).0 e) (&&-eq-true _ _ h).0
  | inr e ↦ includes_mono t rs roles (&&-eq-true _ _ h).1 (rw e at m)
]

allows_mono :
    (j : Json) (rs roles : List Text)
    → all (λ r. includes r roles) rs ≡ true
    → allows rs j ≡ true
    → allows roles j ≡ true
unfolding allows
allows_mono null rs roles h m = absurd (cc)
allows_mono (number n) rs roles h m = absurd (cc)
allows_mono (text t) rs roles h m = includes_mono t rs roles h m

guards_within-shows :
    (roles : List Text) (e : Element) (name : Text) (s : Session)
    → guards_within roles e ≡ true
    → render e s ≡ shows name
    → (is_authenticated s ≡ true) × (allows roles (role s) ≡ true)
guards_within-shows roles (page n) name s g h = absurd (cc)
guards_within-shows roles (private rs n) name s g h =
    let (_, auth, ok) = private-shows rs n name s h in (auth, allows_mono (role s) rs roles g ok)
guards_within-shows roles (redirect path) name s g h = absurd (unfold render in cc)

guarded_under-shows :
    (prefix : Text) (roles : List Text) (i : ℕ) (r : Route) (name : Text) (s : Session)
    → all (guarded_under prefix roles) routes ≡ true
    → get_elem? routes i ≡ some r
    → starts_with prefix r.path ≡ true
    → render r.element s ≡ shows name
    → (is_authenticated s ≡ true) × (allows roles (role s) ≡ true)
guarded_under-shows prefix roles i r name s table e under h =
    guards_within-shows roles r.element name s
      (rw under at (all-get_elem? (guarded_under prefix roles) routes i table e)) h

-- No route whose path begins with /admin shows a page to anybody but a signed-in user whose role
-- is hotel_admin or super_admin.
pub admin_pages_guarded :
    (i : ℕ) (r : Route) (name : Text) (s : Session)
    → get_elem? routes i ≡ some r
    → starts_with (codes "/admin") r.path ≡ true
    → render r.element s ≡ shows name
    → (is_authenticated s ≡ true) × (allows admins (role s) ≡ true)
admin_pages_guarded i r name s = guarded_under-shows (codes "/admin") admins i r name s admin_table

-- No route whose path begins with /staff shows a page to anybody but a signed-in user whose role
-- is staff, hotel_admin or super_admin.
pub staff_pages_guarded :
    (i : ℕ) (r : Route) (name : Text) (s : Session)
    → get_elem? routes i ≡ some r
    → starts_with (codes "/staff") r.path ≡ true
    → render r.element s ≡ shows name
    → (is_authenticated s ≡ true) × (allows team (role s) ≡ true)
staff_pages_guarded i r name s = guarded_under-shows (codes "/staff") team i r name s staff_table

abbrev guest_guard : Element → Bool
guest_guard (page name) = false
guest_guard (private rs name) = includes (codes "guest") rs
guest_guard (redirect path) = false

-- The routes that are open to every role, less the one path that the interceptor knows.
abbrev guest_page : Route → Bool
guest_page r = guest_guard r.element && not (same r.path (codes "/dashboard"))

guest_table : all (λ r. not (guest_page r && is_protected r.path)) routes ≡ true
unfolding routes is_protected
guest_table = refl

guest_page_unprotected :
    (i : ℕ) (r : Route)
    → get_elem? routes i ≡ some r
    → guest_page r ≡ true
    → is_protected r.path ≡ false
guest_page_unprotected i r e g = ground (
  arith,
  all-get_elem? (λ (r : Route). not (guest_page r && is_protected r.path)) routes i guest_table e,
)

-- What the interceptor changes is nothing that a route looks at.
render-on_error :
    (e : Element) (status : Option ℕ) (s : Session) → render e (on_error status s) ≡ render e s
unfolding render on_error is_authenticated role
render-on_error (page name) status s = refl
render-on_error (private roles name) status s = elim (Bool-cases (unauthorized status)) [
  | inl e ↦ rw e
  | inr e ↦ rw e
]
render-on_error (redirect path) status s = refl

-- On every guest page but /dashboard, a request that fails with status 401 does not lead to the
-- login page: the path and what is shown stay as they were, although the token has left the storage.
pub guest_page_survives_401 :
    (i : ℕ) (r : Route) (s : Session)
    → get_elem? routes i ≡ some r
    → guest_page r ≡ true
    → s.location ≡ r.path
    → ((on_error (some 401) s).location ≡ r.path)
      × (render r.element (on_error (some 401) s) ≡ render r.element s)
      × ((on_error (some 401) s).storage.access_token ≡ none)
unfolding on_error
guest_page_survives_401 i r s e g at_page =
    let free : is_protected s.location ≡ false = rw at_page (guest_page_unprotected i r e g) in
    (rw free at_page, render-on_error r.element (some 401) s, refl)
