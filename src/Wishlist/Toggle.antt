-- ===== src/Wishlist/Toggle.antt =====
-- WishlistContext.jsx `toggle`: what a toggle does to each room, and what a failed one leaves.
use hotel_ms.Common.{
  ℕ, ◌≡◌, ◌≢◌, refl, ap, ◌∙◌, ◌==◌, ==_iff, if◌then◌else◌, Bool, true, false, not, ◌&&◌, ◌||◌, List,
  [], ◌∷◌, ◌++◌, some, get_elem?, arith, Bool-cases, inl, inr,
}
use hotel_ms.Wishlist.{
  has, add, delete, Request, Wishlist, is_saved, toggle, revert, settle, remove_at,
}

has-append : (y x : ℕ) (ids : List ℕ) → has y (ids ++ x ∷ []) ≡ (has y ids || x == y)
has-append y x [] = ground arith
has-append y x (z ∷ ids) = ground (arith, has-append y x ids)

has-add : (y x : ℕ) (ids : List ℕ) → has y (add x ids) ≡ (x == y || has y ids)
has-add y x ids = elim (Bool-cases (has x ids)) [
  | inl e ↦
      rw e (elim (Bool-cases (x == y)) [ inl h ↦ rw h (rw (← (==_iff x y).0 h) e) | inr h ↦ rw h ])
  | inr e ↦ rw e (ground (arith, has-append y x ids))
]

has-delete : (y x : ℕ) (ids : List ℕ) → has y (delete x ids) ≡ (if x == y then false else has y ids)
has-delete y x [] = ground arith
has-delete y x (z ∷ ids) = ground (arith, has-delete y x ids)

-- One room's place in the set after the handler's update and after its catch block.
is_saved-toggle :
    (y x : ℕ) (s : Wishlist)
    → s.is_authenticated ≡ true
    → is_saved y (toggle x s) ≡ (if x == y then not (is_saved x s) else is_saved y s)
unfolding toggle
is_saved-toggle y x s h = elim (Bool-cases (has x s.saved_ids)) [
  | inl e ↦ rw (h, e) (has-delete y x s.saved_ids)
  | inr e ↦ rw (h, e) (ground (arith, has-add y x s.saved_ids))
]

is_saved-revert :
    (y : ℕ) (r : Request) (s : Wishlist)
    → is_saved y (revert r s) ≡ (if r.room == y then r.was_saved else is_saved y s)
unfolding revert
is_saved-revert y r s = elim (Bool-cases r.was_saved) [
  | inl e ↦ rw e (ground (arith, has-add y r.room s.saved_ids))
  | inr e ↦ rw e (has-delete y r.room s.saved_ids)
]

pending-toggle :
    (x : ℕ) (s : Wishlist)
    → s.is_authenticated ≡ true
    → (toggle x s).pending ≡ s.pending ++ record { room = x; was_saved = is_saved x s } ∷ []
unfolding toggle
pending-toggle x s h = rw h

is_saved-settle :
    (y n : ℕ) (b : Bool) (r : Request) (s : Wishlist)
    → get_elem? s.pending n ≡ some r
    → is_saved y (settle n b s)
      ≡ (if b then is_saved y s else if r.room == y then r.was_saved else is_saved y s)
unfolding settle
is_saved-settle y n true r s e = rw (e, settle)
is_saved-settle y n false r s e =
    rw (e, settle) (is_saved-revert y r (record s { pending = remove_at s.pending n }))

pending-settle :
    (n : ℕ) (b : Bool) (r : Request) (s : Wishlist)
    → get_elem? s.pending n ≡ some r
    → (settle n b s).pending ≡ remove_at s.pending n
unfolding settle
pending-settle n true r s e = rw (e, settle)
pending-settle n false r s e = rw (e, settle)

-- Where a user is signed in and no other request is under way, and the answer comes before the next
-- toggle: with success exactly the toggled room has changed sides, with an error no room has.
pub toggle_settles :
    (x y : ℕ) (b : Bool) (s : Wishlist)
    → s.is_authenticated ≡ true
    → s.pending ≡ []
    → is_saved y (settle 0 b (toggle x s))
      ≡ (if b && x == y then not (is_saved y s) else is_saved y s)
toggle_settles x y b s h e =
    let r : Request = record { room = x; was_saved = is_saved x s } in
    let sent : get_elem? (toggle x s).pending 0 ≡ some r = rw (pending-toggle x s h, e) refl in
    rw (is_saved-settle y 0 b r (toggle x s) sent) (ground (arith, is_saved-toggle y x s h))

auth-toggle : (x : ℕ) (s : Wishlist) → (toggle x s).is_authenticated ≡ s.is_authenticated
unfolding toggle
auth-toggle x s = ground arith

-- Two rooms are toggled, and both requests are under way.
abbrev pub both : ℕ → ℕ → Wishlist → Wishlist
both x w s = toggle w (toggle x s)

-- The answers to two toggles of different rooms, in either order, where a user is signed in and no
-- other request is under way: each room has changed sides
-- exactly if its own request succeeded, and no other room has.
pub settle-both :
    (x w y : ℕ) (bx bw : Bool) (s : Wishlist)
    → s.is_authenticated ≡ true
    → s.pending ≡ []
    → x ≢ w
    → let wanted =
        if bx && x == y
        then not (is_saved y s)
        else if bw && w == y
        then not (is_saved y s)
        else is_saved y s in
      (is_saved y (settle 0 bw (settle 0 bx (both x w s))) ≡ wanted)
      × (is_saved y (settle 0 bx (settle 1 bw (both x w s))) ≡ wanted)
settle-both x w y bx bw s h e ne =
    let rx : Request = record { room = x; was_saved = is_saved x s } in
    let t : Wishlist = toggle x s in
    let u : Wishlist = both x w s in
    let ry : Request = record { room = w; was_saved = is_saved w t } in
    let ht : t.is_authenticated ≡ true = auth-toggle x s ∙ h in
    let sent : u.pending ≡ rx ∷ ry ∷ [] =
      pending-toggle w t ht ∙ rw (pending-toggle x s h, e) refl in
    let first : get_elem? u.pending 0 ≡ some rx = ap (λ ps. get_elem? ps 0) sent in
    let second : get_elem? u.pending 1 ≡ some ry = ap (λ ps. get_elem? ps 1) sent in
    let then_w : get_elem? (settle 0 bx u).pending 0 ≡ some ry =
      rw (pending-settle 0 bx rx u first, sent) refl in
    let then_x : get_elem? (settle 1 bw u).pending 0 ≡ some rx =
      rw (pending-settle 1 bw ry u second, sent) refl in
    let same_room = (λ (v : ℕ). (λ (q : v ≡ y). ap (λ k. is_saved k s) q)) in
    (
      is_saved-settle y 0 bw ry (settle 0 bx u) then_w
          ∙ ground (
            arith,
            is_saved-settle y 0 bx rx u first,
            is_saved-toggle y w t ht,
            is_saved-toggle y x s h,
            is_saved-toggle w x s h,
            same_room,
          ),
      is_saved-settle y 0 bx rx (settle 1 bw u) then_x
          ∙ ground (
            arith,
            is_saved-settle y 1 bw ry u second,
            is_saved-toggle y w t ht,
            is_saved-toggle y x s h,
            is_saved-toggle w x s h,
            same_room,
          ),
    )

-- One room is toggled twice before the first answer comes, and both requests fail: the room ends on
-- the other side, although the server has changed nothing.
pub two_failures_diverge :
    (x : ℕ) (s : Wishlist)
    → s.is_authenticated ≡ true
    → s.pending ≡ []
    → is_saved x (settle 0 false (settle 0 false (both x x s))) ≡ not (is_saved x s)
two_failures_diverge x s h e =
    let r₁ : Request = record { room = x; was_saved = is_saved x s } in
    let t : Wishlist = toggle x s in
    let u : Wishlist = both x x s in
    let r₂ : Request = record { room = x; was_saved = is_saved x t } in
    let ht : t.is_authenticated ≡ true = auth-toggle x s ∙ h in
    let sent : u.pending ≡ r₁ ∷ r₂ ∷ [] =
      pending-toggle x t ht ∙ rw (pending-toggle x s h, e) refl in
    let first : get_elem? u.pending 0 ≡ some r₁ = ap (λ ps. get_elem? ps 0) sent in
    let second : get_elem? (settle 0 false u).pending 0 ≡ some r₂ =
      rw (pending-settle 0 false r₁ u first, sent) refl in
    is_saved-settle x 0 false r₂ (settle 0 false u) second ∙ ground (arith, is_saved-toggle x x s h)
