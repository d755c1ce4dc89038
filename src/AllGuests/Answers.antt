-- ===== src/AllGuests/Answers.antt =====
-- AllGuests.jsx: what an answer changes.
use hotel_ms.Common.{
  ℕ, ◌≡◌, ◌≢◌, refl, sym, ap, ◌∙◌, subst, ◌==◌, if◌then◌else◌, if-false, Bool, true, false, not,
  List, [], ◌∷◌, Option, none, some, filter, find, Bool-cases, inl, inr, arith,
}
use mathlib.Core.Option.{some-injective}
use hotel_ms.AllGuests.{
  Guest, Patch, merged, Request, loads, bans, toggles_vip, adjusts, deletes, Page, Server, at_guest,
  patched, deleted, answered, handle_vip, click_vip, arrive,
}

-- The first guest with a number.
abbrev pub guest_at : ℕ → List Guest → Option Guest
guest_at id gs = find (λ g. g.id == id) gs

abbrev pub mapped : (Guest → Guest) → Option Guest → Option Guest
mapped f none = none
mapped f (some g) = some (f g)

merged-id : (p : Patch) (g : Guest) → (merged p g).id ≡ g.id
unfolding merged
merged-id p g = refl

at_guest-same :
    (p : Patch) (id : ℕ) (gs : List Guest)
    → guest_at id (at_guest (merged p) id gs) ≡ mapped (merged p) (guest_at id gs)
unfolding merged
at_guest-same p id [] = refl
at_guest-same p id (g ∷ gs) = elim (Bool-cases (g.id == id)) [
  | inl e ↦ ground (arith, e)
  | inr e ↦ ground (arith, e, at_guest-same p id gs)
]

at_guest-other :
    (p : Patch) (id k : ℕ) (gs : List Guest)
    → k ≢ id
    → guest_at k (at_guest (merged p) id gs) ≡ guest_at k gs
unfolding merged
at_guest-other p id k [] h = refl
at_guest-other p id k (g ∷ gs) h = elim (Bool-cases (g.id == id)) [
  | inl e ↦ ground (arith, e, h, at_guest-other p id k gs h)
  | inr e ↦ ground (arith, e, at_guest-other p id k gs h)
]

deleted-same : (id : ℕ) (gs : List Guest) → guest_at id (filter (λ g. not (g.id == id)) gs) ≡ none
deleted-same id [] = refl
deleted-same id (g ∷ gs) = ground (arith, deleted-same id gs)

deleted-other :
    (id k : ℕ) (gs : List Guest)
    → k ≢ id
    → guest_at k (filter (λ g. not (g.id == id)) gs) ≡ guest_at k gs
deleted-other id k [] h = refl
deleted-other id k (g ∷ gs) h = ground (arith, deleted-other id k gs h)

abbrev pub target : Request → Option ℕ
target loads = none
target (bans id ban reason) = some id
target (toggles_vip id) = some id
target (adjusts id delta tier) = some id
target (deletes id) = some id

-- What should become of the guest that a request is about.
abbrev pub patch_with : Option Patch → Option Guest → Option Guest
patch_with none o = o
patch_with (some p) o = mapped (merged p) o

abbrev pub outcome : Server → Request → Option Guest → Option Guest
outcome sv loads o = o
outcome sv (bans id ban reason) o = patch_with (sv.patch (bans id ban reason)) o
outcome sv (toggles_vip id) o = patch_with (sv.patch (toggles_vip id)) o
outcome sv (adjusts id delta tier) o = patch_with (sv.patch (adjusts id delta tier)) o
outcome sv (deletes id) o = if sv.deletes id then none else o

patched-same :
    (id : ℕ) (p : Option Patch) (s : Page)
    → guest_at id (patched id p s).guests ≡ patch_with p (guest_at id s.guests)
unfolding patched
patched-same id none s = refl
patched-same id (some p) s = at_guest-same p id s.guests

patched-other :
    (id k : ℕ) (p : Option Patch) (s : Page)
    → k ≢ id
    → guest_at k (patched id p s).guests ≡ guest_at k s.guests
unfolding patched
patched-other id k none s h = refl
patched-other id k (some p) s h = at_guest-other p id k s.guests h

answered-same :
    (sv : Server) (r : Request) (id : ℕ) (s : Page)
    → target r ≡ some id
    → guest_at id (answered sv r s).guests ≡ outcome sv r (guest_at id s.guests)
unfolding answered
answered-same sv loads id s e = absurd (cc)
answered-same sv (bans j ban reason) id s e =
    subst
      (λ i.
        guest_at i (answered sv (bans j ban reason) s).guests
        ≡ outcome sv (bans j ban reason) (guest_at i s.guests))
      (some-injective j id e) (patched-same j (sv.patch (bans j ban reason)) s)
answered-same sv (toggles_vip j) id s e =
    subst
      (λ i.
        guest_at i (answered sv (toggles_vip j) s).guests
        ≡ outcome sv (toggles_vip j) (guest_at i s.guests))
      (some-injective j id e) (patched-same j (sv.patch (toggles_vip j)) s)
answered-same sv (adjusts j delta tier) id s e =
    subst
      (λ i.
        guest_at i (answered sv (adjusts j delta tier) s).guests
        ≡ outcome sv (adjusts j delta tier) (guest_at i s.guests))
      (some-injective j id e) (patched-same j (sv.patch (adjusts j delta tier)) s)
answered-same sv (deletes j) id s e =
    subst
      (λ i.
        guest_at i (answered sv (deletes j) s).guests
        ≡ outcome sv (deletes j) (guest_at i s.guests))
      (some-injective j id e) (gone j (sv.deletes j))
  where
    gone :
        (j : ℕ) (b : Bool)
        → guest_at j (deleted j b s).guests ≡ (if b then none else guest_at j s.guests)
    gone j true = deleted-same j s.guests
    gone j false = refl

answered-other :
    (sv : Server) (r : Request) (id k : ℕ) (s : Page)
    → target r ≡ some id
    → k ≢ id
    → guest_at k (answered sv r s).guests ≡ guest_at k s.guests
unfolding answered
answered-other sv loads id k s e h = absurd (cc)
answered-other sv (bans j ban reason) id k s e h =
    patched-other j k (sv.patch (bans j ban reason)) s (λ x. h (x ∙ some-injective j id e))
answered-other sv (toggles_vip j) id k s e h =
    patched-other j k (sv.patch (toggles_vip j)) s (λ x. h (x ∙ some-injective j id e))
answered-other sv (adjusts j delta tier) id k s e h =
    patched-other j k (sv.patch (adjusts j delta tier)) s (λ x. h (x ∙ some-injective j id e))
answered-other sv (deletes j) id k s e h = kept (sv.deletes j)
  where
    kept : (b : Bool) → guest_at k (deleted j b s).guests ≡ guest_at k s.guests
    kept true = deleted-other j k s.guests (λ x. h (x ∙ some-injective j id e))
    kept false = refl

-- The answer to a request about one guest settles it for that guest, as the server says, by its new
-- fields, by its absence, or by no change if it failed; and every other guest stays as it is.
pub answered_lem :
    (sv : Server) (r : Request) (id : ℕ) (s : Page)
    → target r ≡ some id
    → (guest_at id (answered sv r s).guests ≡ outcome sv r (guest_at id s.guests))
      × ((k : ℕ) → k ≢ id → guest_at k (answered sv r s).guests ≡ guest_at k s.guests)
answered_lem sv r id s e = (answered-same sv r id s e, λ k h. answered-other sv r id k s e h)

-- The guest of the first answer, which the second does not touch.
commute_at :
    (sv : Server) (r q : Request) (k b : ℕ) (s : Page)
    → target r ≡ some k
    → target q ≡ some b
    → k ≢ b
    → guest_at k (answered sv q (answered sv r s)).guests
      ≡ guest_at k (answered sv r (answered sv q s)).guests
commute_at sv r q k b s e f h =
    answered-other sv q b k (answered sv r s) f h
    ∙ answered-same sv r k s e
    ∙ sym (ap (outcome sv r) (answered-other sv q b k s f h))
    ∙ sym (answered-same sv r k (answered sv q s) e)

-- The order of two answers about different guests does not matter.
pub answers_commute :
    (sv : Server) (r q : Request) (a b k : ℕ) (s : Page)
    → target r ≡ some a
    → target q ≡ some b
    → a ≢ b
    → guest_at k (answered sv q (answered sv r s)).guests
      ≡ guest_at k (answered sv r (answered sv q s)).guests
answers_commute sv r q a b k s e f h = elim (Bool-cases (k == a)) [
  | inl x ↦
      let is_a : a ≡ k = ground (arith, x) in
      commute_at sv r q k b s (e ∙ ap some is_a) f (λ y. h (is_a ∙ y))
  | inr x ↦ elim (Bool-cases (k == b)) [
    | inl y ↦
        let is_b : b ≡ k = ground (arith, y) in
        sym (commute_at sv q r k a s (f ∙ ap some is_b) e (λ z. h (sym (is_b ∙ z))))
    | inr y ↦
        let not_a : k ≢ a = λ z. absurd (ground (arith, x, z)) in
        let not_b : k ≢ b = λ z. absurd (ground (arith, y, z)) in
        answered-other sv q b k (answered sv r s) f not_b
        ∙ answered-other sv r a k s e not_a
        ∙ sym (answered-other sv q b k s f not_b)
        ∙ sym (answered-other sv r a k (answered sv q s) e not_a)
  ]
]

-- The button of a guest is on again while its request is under way: the answer about another guest
-- switches it on, and a second click asks the server to change the flag back.
pub vip_asked_twice :
    (sv : Server) (a b : ℕ) (s : Page)
    → s.pending ≡ []
    → s.acting ≡ none
    → (a == b) ≡ false
    → (click_vip a (arrive sv 1 (click_vip b (click_vip a s)))).pending
      ≡ toggles_vip a ∷ toggles_vip a ∷ []
unfolding click_vip arrive answered patched handle_vip
vip_asked_twice sv a b s e f h =
    let rest : List Request → Option ℕ → Page = λ rs o. record s { pending = rs; acting = o } in
    let clicks : Page → List Request = λ u. (click_vip a (arrive sv 1 u)).pending in
    let idle : s ≡ rest [] none =
      ap (λ rs. record s { pending = rs }) e ∙ ap (λ o. record s { pending = []; acting = o }) f in
    ap (λ u. clicks (click_vip b (click_vip a u))) idle
    ∙ ap clicks (
        if-false (a == b) (rest (toggles_vip a ∷ []) (some a))
          (rest (toggles_vip a ∷ toggles_vip b ∷ []) (some b)) h)
    ∙ again (sv.patch (toggles_vip b))
  where
    again :
        (p : Option Patch)
        → (click_vip a
            (patched b p (record s { pending = toggles_vip a ∷ []; acting = some b }))).pending
          ≡ toggles_vip a ∷ toggles_vip a ∷ []
    again none = refl
    again (some p) = refl
