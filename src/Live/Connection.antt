-- ===== src/Live/Connection.antt =====
-- SocketContext.jsx: at most one connection, or one timer for the next.
use hotel_ms.Common.{
  ℕ, ◌+◌, ◌≡◌, refl, sym, ap, ◌∙◌, subst, ◌==◌, ==_refl, if◌then◌else◌, if-true, if-false, true,
  false, not, List, [], ◌∷◌, ◌++◌, Option, none, some, codes, same, In, here, there,
}
use hotel_ms.Live.{
  Handle, Message, Live, is_active, without, without_ref, connect, mount, cleanup, closed, fired,
  received, Step, mounts, unmounts, closes, fires, receives, Reaches, stays, goes_on,
}

-- The three states of the provider: nobody is signed in, connected, waiting for the next try.
pub data IsSound (s : Live) : Type 0 where
  idle : s.current ≡ none → s.sockets ≡ [] → s.timers ≡ [] → IsSound s
  connected :
      (h : Handle)
      → s.current ≡ some h.effect
      → s.sockets ≡ h ∷ []
      → s.timers ≡ []
      → s.ws_ref ≡ some h.id
      → IsSound s
  waiting :
      (h : Handle)
      → s.current ≡ some h.effect
      → s.sockets ≡ []
      → s.timers ≡ h ∷ []
      → s.reconnect_ref ≡ some h.id
      → IsSound s

active_here : (s : Live) (run : ℕ) → s.current ≡ some run → is_active run s ≡ true
active_here s run e =
    ap (λ (o : Option ℕ). elim o [ none ↦ false | some c ↦ c == run ]) e ∙ ==_refl run

-- `connect` in a provider whose effect runs and which has neither a socket nor a timer.
connect-IsSound :
    (run : ℕ) (s : Live)
    → s.current ≡ some run
    → s.sockets ≡ []
    → s.timers ≡ []
    → IsSound (connect run s)
unfolding connect
connect-IsSound run s e f g =
    subst IsSound (sym (if-true (is_active run s) _ s (active_here s run e))) (
      connected (record { id = s.fresh; effect = run }) e
        (ap (λ hs. hs ++ record { id = s.fresh; effect = run } ∷ []) f) g refl)

without-only : (h : Handle) → without h.id (h ∷ []) ≡ []
without-only h = if-false (not (h.id == h.id)) _ _ (ap not (==_refl h.id))

In-one {ℓ} : {A : Type ℓ} {a b : A} → In a (b ∷ []) → a ≡ b
In-one here = refl
In-one (there m) = elim m [ ]

In-only : {a b : Handle} (hs : List Handle) → hs ≡ b ∷ [] → In a hs → a ≡ b
In-only hs e m = In-one (subst (In _) e m)

In-none : {a : Handle} (hs : List Handle) → hs ≡ [] → In a hs → ⊥
In-none hs e m = elim (subst (In _) e m) [ ]

without_ref-nil : (r : Option ℕ) (hs : List Handle) → hs ≡ [] → without_ref r hs ≡ []
without_ref-nil r hs e = ap (without_ref r) e ∙ go r
  where
    go : (o : Option ℕ) → without_ref o [] ≡ []
    go none = refl
    go (some id) = refl

without_ref-only :
    (r : Option ℕ) (hs : List Handle) (h : Handle)
    → r ≡ some h.id
    → hs ≡ h ∷ []
    → without_ref r hs ≡ []
without_ref-only r hs h e f = ap (λ o. without_ref o hs) e ∙ ap (without h.id) f ∙ without-only h

mount-IsSound : (s : Live) → s.current ≡ none → IsSound s → IsSound (mount s)
unfolding mount
mount-IsSound s e (idle c f g) =
    connect-IsSound s.fresh (record s { current = some s.fresh; fresh = s.fresh + 1 }) refl f g
mount-IsSound s e (connected h c f g r) = absurd (cc)
mount-IsSound s e (waiting h c f g r) = absurd (cc)

cleanup-IsSound : (s : Live) → IsSound s → IsSound (cleanup s)
unfolding cleanup
cleanup-IsSound s (idle c f g) =
    idle refl (without_ref-nil s.ws_ref s.sockets f) (without_ref-nil s.reconnect_ref s.timers g)
cleanup-IsSound s (connected h c f g r) =
    idle refl (without_ref-only s.ws_ref s.sockets h r f)
      (without_ref-nil s.reconnect_ref s.timers g)
cleanup-IsSound s (waiting h c f g r) =
    idle refl (without_ref-nil s.ws_ref s.sockets f)
      (without_ref-only s.reconnect_ref s.timers h r g)

closed-IsSound : (s : Live) (h : Handle) → In h s.sockets → IsSound s → IsSound (closed h s)
unfolding closed
closed-IsSound s h m (idle c f g) = absurd (In-none s.sockets f m)
closed-IsSound s h m (waiting k c f g r) = absurd (In-none s.sockets f m)
closed-IsSound s h m (connected k c f g r) =
    let same : h ≡ k = In-only s.sockets f m in
    let run : s.current ≡ some h.effect = c ∙ ap (λ x. some x.effect) (sym same) in
    let next : Handle = record { id = s.fresh; effect = h.effect } in
    subst IsSound (sym (if-true (is_active h.effect s) _ _ (active_here s h.effect run))) (
      waiting next run (ap (without h.id) f ∙ ap (λ x. without x.id (k ∷ [])) same ∙ without-only k)
        (ap (λ hs. hs ++ next ∷ []) g) refl)

fired-IsSound : (s : Live) (h : Handle) → In h s.timers → IsSound s → IsSound (fired h s)
unfolding fired
fired-IsSound s h m (idle c f g) = absurd (In-none s.timers g m)
fired-IsSound s h m (connected k c f g r) = absurd (In-none s.timers g m)
fired-IsSound s h m (waiting k c f g r) =
    let same : h ≡ k = In-only s.timers g m in
    connect-IsSound h.effect (record s { timers = without h.id s.timers })
      (c ∙ ap (λ x. some x.effect) (sym same)) f
      (ap (without h.id) g ∙ ap (λ x. without x.id (k ∷ [])) same ∙ without-only k)

received-IsSound : (s : Live) (msg : Message) → IsSound s → IsSound (received msg s)
unfolding received
received-IsSound s msg v =
    elim (same msg.event (codes "pong"))
      as (λ b. IsSound (if b then s else record s { last_message = some msg })) [
        | true ↦ v
        | false ↦ with_message v
      ]
  where
    with_message : IsSound s → IsSound (record s { last_message = some msg })
    with_message (idle c f g) = idle c f g
    with_message (connected h c f g r) = connected h c f g r
    with_message (waiting h c f g r) = waiting h c f g r

step-IsSound : {s t : Live} → Step s t → IsSound s → IsSound t
step-IsSound {s = s} (mounts e) v = mount-IsSound s e v
step-IsSound {s = s} (unmounts e) v = cleanup-IsSound s v
step-IsSound {s = s} (closes {h = h} m) v = closed-IsSound s h m v
step-IsSound {s = s} (fires {h = h} m) v = fired-IsSound s h m v
step-IsSound {s = s} (receives m msg) v = received-IsSound s msg v

-- However often the user changes, sockets end and timers run out, the provider is in one of three
-- states: without a user it has no socket and no timer left, and with one it has either one socket or
-- one timer for the next, which its cleanup will find.
pub reached-IsSound : {s t : Live} → IsSound s → Reaches s t → IsSound t
reached-IsSound v stays = v
reached-IsSound v (goes_on r e) = step-IsSound e (reached-IsSound v r)
