-- ===== src/Live/Toasts.antt =====
-- NotificationContext.jsx: how long a short message stays.
use hotel_ms.Common.{
  ℕ, ◌≡◌, ◌≢◌, ap, ◌∙◌, ◌==◌, ==_refl, if-false, false, not, List, [], ◌∷◌, ◌++◌, Option, none,
  some, codes, same, In, In-filter, filter-In, arith,
}
use hotel_ms.Live.{Message, Toast, Notices, notify, dismiss, expire}

-- A toast that is dismissed is gone, and those with other numbers stay.
pub dismiss_lem :
    (id : ℕ) (s : Notices) (t : Toast)
    → In t s.toasts
    → ((t.id ≡ id → ⊥) → In t (dismiss id s).toasts) × (In t (dismiss id s).toasts → t.id ≢ id)
unfolding dismiss
dismiss_lem id s t m = (
  λ h. In-filter (λ u. not (u.id == id)) m (ground (arith, h)),
  λ k e. absurd (ground (arith, e, (filter-In (λ u. not (u.id == id)) s.toasts k).1)),
)

notify-adds :
    (now id : ℕ) (m : Message) (s : Notices)
    → m.data_id ≡ some id
    → same m.event (codes "connected") ≡ false
    → notify now m s ≡ record {
      toasts = s.toasts ++ record { id = id; event = m.event } ∷ [];
      timers = s.timers ++ id ∷ [];
    }
unfolding notify
notify-adds now id m s e h =
    if-false (same m.event (codes "connected")) _ _ h
    ∙ ap
        (λ (o : Option ℕ).
          let k : ℕ = elim o [ none ↦ now | some i ↦ i ] in
          record {
            toasts = s.toasts ++ record { id = k; event = m.event } ∷ [];
            timers = s.timers ++ k ∷ [];
          })
        e

-- Two messages about the same thing have one number, so the timer of the first takes both toasts away:
-- the second is gone when its own 4.5 seconds have only begun.
pub twin_toasts_end_together :
    (now later id : ℕ) (m n : Message) (s : Notices)
    → s.timers ≡ []
    → s.toasts ≡ []
    → m.data_id ≡ some id
    → n.data_id ≡ some id
    → same m.event (codes "connected") ≡ false
    → same n.event (codes "connected") ≡ false
    → let t = expire (notify later n (notify now m s)) in (t.toasts ≡ []) × (t.timers ≡ id ∷ [])
unfolding expire notify dismiss
twin_toasts_end_together now later id m n s a b c d e f =
    let only : Toast → List Toast → List ℕ → Notices =
      λ x xs ks. record { toasts = x ∷ xs; timers = ks } in
    let first : Toast = record { id = id; event = m.event } in
    let second : Toast = record { id = id; event = n.event } in
    let empty : s ≡ record { toasts = []; timers = [] } =
      ap (λ (ts : List Toast). record { toasts = ts; timers = s.timers }) b
      ∙ ap (λ (ks : List ℕ). record { toasts = []; timers = ks }) a in
    let both : notify later n (notify now m s) ≡ only first (second ∷ []) (id ∷ id ∷ []) =
      ap (λ u. notify later n (notify now m u)) empty
      ∙ ap (notify later n) (notify-adds now id m (record { toasts = []; timers = [] }) c e)
      ∙ notify-adds later id n (only first [] (id ∷ [])) d f in
    let off : not (id == id) ≡ false = ap not (==_refl id) in
    (
      ap (λ u. (expire u).toasts) both
          ∙ if-false (not (id == id)) _ _ off
          ∙ if-false (not (id == id)) _ _ off,
      ap (λ u. (expire u).timers) both,
    )
