-- ===== src/Helper/Conversation.antt =====
-- AIHelper.jsx: each question has its answer.
use hotel_ms.Common.{
  ◌≡◌, refl, sym, ap, ◌∙◌, subst, if◌then◌else◌, if-true, if-false, Bool, true, false, not, ◌&&◌,
  ◌||◌, List, [], ◌∷◌, ◌++◌, Option, none, some, Text, truthy, trim, Bool-cases, inl, inr, arith,
}
use hotel_ms.Helper.{
  user, Message, Request, Helper, last_six, send, reply, answered, opened, handle_submit,
  show_chips, Event, step, run, bubble_clicked, opened_outside, closed, submitted, bubble_ticks,
  answers, typed, chip_clicked, welcome_message,
}

-- A chat at rest: behind the greeting, if there is one, each question is followed by the server's one
-- answer to it, and by nothing else.
pub data Settled (server : Request → Option Text) : List Message → Type 0 where
  nothing : Settled server []
  greeted : Settled server (welcome_message ∷ [])
  answered_one :
      {ms : List Message} (r : Request)
      → r.history ≡ last_six ms
      → Settled server ms
      → Settled server
          ((ms ++ record { role = user; content = r.message } ∷ []) ++ reply (server r) ∷ [])

-- The chat is settled, or its last message is the question that is under way.
pub data IsSound (server : Request → Option Text) (s : Helper) : Type 0 where
  quiet : s.loading ≡ false → s.pending ≡ none → Settled server s.messages → IsSound server s
  asking :
      (r : Request) (ms : List Message)
      → s.loading ≡ true
      → s.pending ≡ some r
      → s.messages ≡ ms ++ record { role = user; content = r.message } ∷ []
      → r.history ≡ last_six ms
      → Settled server ms
      → IsSound server s

send-IsSound :
    (server : Request → Option Text) (t : Text) (s : Helper)
    → s.loading ≡ false
    → IsSound server s
    → IsSound server (send t s)
unfolding send
send-IsSound server t s e (asking r ms l p m h v) = absurd (cc)
send-IsSound server t s e (quiet l p v) =
    elim (truthy (trim t))
      as (λ b. IsSound server (
        if b
        then (record s {
          messages = s.messages ++ record { role = user; content = trim t } ∷ [];
          input = [];
          loading = true;
          pending = some (record { message = trim t; history = last_six s.messages });
        })
        else s)) [
          | true ↦
              asking (record { message = trim t; history = last_six s.messages }) s.messages refl
                refl refl refl v
          | false ↦ quiet l p v
        ]

answered-IsSound :
    (server : Request → Option Text) (s : Helper)
    → IsSound server s
    → IsSound server (answered server s)
unfolding answered
answered-IsSound server s (quiet l p v) =
    subst
      (λ (o : Option Request). IsSound server (elim o [
        | none ↦ s
        | some r ↦ record s {
          messages = s.messages ++ reply (server r) ∷ [];
          loading = false;
          pending = none;
        }
      ]))
      (sym p) (quiet l p v)
answered-IsSound server s (asking r ms l p m h v) =
    subst
      (λ (o : Option Request). IsSound server (elim o [
        | none ↦ s
        | some r ↦ record s {
          messages = s.messages ++ reply (server r) ∷ [];
          loading = false;
          pending = none;
        }
      ]))
      (sym p)
      (quiet refl refl (
        subst (Settled server) (sym (ap (λ xs. xs ++ reply (server r) ∷ []) m))
          (answered_one r h v)))

not_empty : (ms : List Message) (x : Message) → ms ++ x ∷ [] ≡ [] → ⊥
not_empty [] x e = absurd (cc)
not_empty (m ∷ ms) x e = absurd (cc)

opened-IsSound :
    (server : Request → Option Text) (now : Bool) (s : Helper)
    → IsSound server s
    → IsSound server (opened now s)
unfolding opened
opened-IsSound server now s v = go s.messages refl
  where
    shown : (b : Bool) → IsSound server s → IsSound server (record s { is_open = b })
    shown b (quiet l p w) = quiet l p w
    shown b (asking r xs l p m h w) = asking r xs l p m h w

    welcomed : (b : Bool) → Settled server (if b then welcome_message ∷ [] else [])
    welcomed true = greeted
    welcomed false = nothing

    first :
        IsSound server s
        → s.messages ≡ []
        → IsSound server
            (record s { is_open = now; messages = if now then welcome_message ∷ [] else [] })
    first (quiet l p w) e = quiet l p (welcomed now)
    first (asking r xs l p m h w) e = absurd (not_empty xs _ (sym m ∙ e))

    go :
        (ms : List Message)
        → s.messages ≡ ms
        → IsSound server (elim ms [
          | [] ↦ record s { is_open = now; messages = if now then welcome_message ∷ [] else [] }
          | m ∷ rest ↦ record s { is_open = now }
        ])
    go [] e = first v e
    go (m ∷ rest) e = shown now v

typed-IsSound :
    (server : Request → Option Text) (t : Text) (s : Helper)
    → IsSound server s
    → IsSound server (record s { input = t })
typed-IsSound server t s (quiet l p w) = quiet l p w
typed-IsSound server t s (asking r xs l p m h w) = asking r xs l p m h w

guarded :
    (server : Request → Option Text) (off : Bool) (s t : Helper)
    → IsSound server s
    → (off ≡ false → IsSound server t)
    → IsSound server (if off then s else t)
guarded server true s t v w = v
guarded server false s t v w = w refl

step-IsSound :
    (server : Request → Option Text) (e : Event) (s : Helper)
    → IsSound server s
    → IsSound server (step server e s)
unfolding step handle_submit
step-IsSound server bubble_clicked s v = opened-IsSound server (not s.is_open) s v
step-IsSound server opened_outside s v = opened-IsSound server true s v
step-IsSound server closed s v = opened-IsSound server false s v
step-IsSound server submitted s v =
    guarded server (not s.is_open || s.loading) s (handle_submit s) v
      (λ h. send-IsSound server s.input s (ground (arith, h)) v)
step-IsSound server bubble_ticks s (quiet l p w) = quiet l p w
step-IsSound server bubble_ticks s (asking r xs l p m h w) = asking r xs l p m h w
step-IsSound server answers s v = answered-IsSound server s v
step-IsSound server (typed t) s v =
    guarded server (not s.is_open || s.loading) s (record s { input = t }) v
      (λ h. typed-IsSound server t s v)
step-IsSound server (chip_clicked t) s v = elim (Bool-cases (s.is_open && show_chips s)) [
  | inl h ↦
      subst (IsSound server) (sym (if-true _ (send t s) s h))
        (send-IsSound server t s (ground (arith, h)) v)
  | inr h ↦ subst (IsSound server) (sym (if-false _ (send t s) s h)) v
]

-- Whatever is asked, clicked and answered, with failures among the answers, behind the greeting each
-- question has one message behind it, the server's answer to it or the apology for a failure, or it is
-- the last message and its request is under way; the request has the question and the six messages
-- before it.
pub chat-IsSound :
    (server : Request → Option Text) (es : List Event) (s : Helper)
    → IsSound server s
    → IsSound server (run server es s)
chat-IsSound server [] s v = v
chat-IsSound server (e ∷ es) s v =
    chat-IsSound server es (step server e s) (step-IsSound server e s v)
