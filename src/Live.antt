-- ===== src/Live.antt =====
-- frontend/react-app/src/contexts/SocketContext.jsx and contexts/NotificationContext.jsx:
-- the connection to the server, which is opened again three seconds behind its end, and the short
-- messages that it brings. Sockets and timers are told apart by
-- numbers, and so are the runs of the effect, whose closures share one `active`.
pub mod Connection
pub mod Toasts
mod Tests
use hotel_ms.Common.{
  ℕ, zero, suc, ◌+◌, ◌≡◌, ◌==◌, if◌then◌else◌, Bool, true, false, not, List, [], ◌∷◌, ◌++◌, Option,
  none, some, Text, codes, same, filter, In,
}

-- A socket whose `onclose` is still to come, or a timer that is armed: its number, and the run of the
-- effect whose `connect` it has.
pub record Handle : Type 0 where
  pub id : ℕ
  pub effect : ℕ

pub record Message : Type 0 where
  pub event : Text
  -- the number in its data, if there is one
  pub data_id : Option ℕ

pub record Live : Type 0 where
  -- the run of the effect whose `active` is true
  pub current : Option ℕ
  pub sockets : List Handle
  pub timers : List Handle
  pub ws_ref : Option ℕ
  pub reconnect_ref : Option ℕ
  pub last_message : Option Message
  -- the next number
  pub fresh : ℕ

abbrev pub is_active : ℕ → Live → Bool
is_active run s = elim s.current [ none ↦ false | some c ↦ c == run ]

abbrev pub without : ℕ → List Handle → List Handle
without id hs = filter (λ h. not (h.id == id)) hs

abbrev pub without_ref : Option ℕ → List Handle → List Handle
without_ref none hs = hs
without_ref (some id) hs = without id hs

unfoldable pub connect : ℕ → Live → Live
connect run s =
    if is_active run s
    then (record s {
      sockets = s.sockets ++ record { id = s.fresh; effect = run } ∷ [];
      ws_ref = some s.fresh;
      fresh = s.fresh + 1;
    })
    else s

-- The effect of a user with a token, and its cleanup.
unfoldable pub mount : Live → Live
unfolding connect
mount s = connect s.fresh (record s { current = some s.fresh; fresh = s.fresh + 1 })

unfoldable pub cleanup : Live → Live
cleanup s = record s {
  current = none;
  timers = without_ref s.reconnect_ref s.timers;
  sockets = without_ref s.ws_ref s.sockets;
}

-- `ws.onclose`
unfoldable pub closed : Handle → Live → Live
closed h s =
    let t : Live = record s { sockets = without h.id s.sockets } in
    if is_active h.effect s
    then (record t {
      timers = s.timers ++ record { id = s.fresh; effect = h.effect } ∷ [];
      reconnect_ref = some s.fresh;
      fresh = s.fresh + 1;
    })
    else t

-- The end of a timer.
unfoldable pub fired : Handle → Live → Live
unfolding connect
fired h s = connect h.effect (record s { timers = without h.id s.timers })

-- `ws.onmessage`, of a text that parses.
unfoldable pub received : Message → Live → Live
received m s = if same m.event (codes "pong") then s else record s { last_message = some m }

-- What can happen next. The effect runs again only behind its cleanup.
pub data Step : Live → Live → Type 0 where
  mounts : {s : Live} → s.current ≡ none → Step s (mount s)
  unmounts : {s : Live} {run : ℕ} → s.current ≡ some run → Step s (cleanup s)
  closes : {s : Live} {h : Handle} → In h s.sockets → Step s (closed h s)
  fires : {s : Live} {h : Handle} → In h s.timers → Step s (fired h s)
  receives : {s : Live} {h : Handle} → In h s.sockets → (m : Message) → Step s (received m s)

pub data Reaches : Live → Live → Type 0 where
  stays : {s : Live} → Reaches s s
  goes_on : {s t u : Live} → Reaches s t → Step t u → Reaches s u

abbrev pub nobody : Live
nobody = record {
  current = none;
  sockets = [];
  timers = [];
  ws_ref = none;
  reconnect_ref = none;
  last_message = none;
  fresh = 0;
}

-- NotificationContext.jsx.
pub record Toast : Type 0 where
  pub id : ℕ
  pub event : Text

pub record Notices : Type 0 where
  pub toasts : List Toast
  -- the toasts whose timers are armed, the oldest first
  pub timers : List ℕ

-- `{ id: Date.now(), event, ...data }`
abbrev pub id_of : ℕ → Message → ℕ
id_of now m = elim m.data_id [ none ↦ now | some id ↦ id ]

-- The effect on the last message.
unfoldable pub notify : ℕ → Message → Notices → Notices
notify now m s = if same m.event (codes "connected") then s else record {
  toasts = s.toasts ++ record { id = id_of now m; event = m.event } ∷ [];
  timers = s.timers ++ id_of now m ∷ [];
}

unfoldable pub dismiss : ℕ → Notices → Notices
dismiss id s = record s { toasts = filter (λ t. not (t.id == id)) s.toasts }

-- The end of the oldest timer, 4.5 seconds behind its toast.
unfoldable pub expire : Notices → Notices
unfolding dismiss
expire s = elim s.timers [ [] ↦ s | id ∷ ids ↦ dismiss id (record s { timers = ids }) ]
