-- ===== src/Helper.antt =====
-- frontend/react-app/src/components/public/AIHelper.jsx: the chat with the concierge. Its input, its
-- button and its chips are off while an answer is awaited.
pub mod Conversation
mod Tests
use hotel_ms.Common.{
  ℕ, zero, suc, ◌-◌, ◌%◌, ◌+◌, leb, if◌then◌else◌, Bool, true, false, not, ◌&&◌, ◌||◌, List, [],
  ◌∷◌, ◌++◌, Option, none, some, Text, codes, truthy, trim, length, drop,
}

pub data Role : Type 0 where
  user assistant : Role

pub record Message : Type 0 where
  pub role : Role
  pub content : Text

-- The greeting, whose text is of no matter here.
abbrev pub welcome_message : Message
welcome_message = record { role = assistant; content = codes "Hi there!" }

abbrev pub trouble : Message
trouble = record {
  role = assistant;
  content = codes "Sorry, I'm having trouble connecting right now. Please try again in a moment.";
}

-- `POST /public/ai/chat`
pub record Request : Type 0 where
  pub message : Text
  pub history : List Message

pub record Helper : Type 0 where
  -- `open`
  pub is_open : Bool
  pub messages : List Message
  pub input : Text
  pub loading : Bool
  pub bubble_idx : ℕ
  pub pending : Option Request

-- `messages.slice(-6)`
abbrev pub last_six : List Message → List Message
last_six ms = drop (length ms - 6) ms

-- `send` up to its request.
unfoldable pub send : Text → Helper → Helper
send text s =
    let trimmed = trim text in
    if truthy trimmed
    then (record s {
      messages = s.messages ++ record { role = user; content = trimmed } ∷ [];
      input = [];
      loading = true;
      pending = some (record { message = trimmed; history = last_six s.messages });
    })
    else s

abbrev pub reply : Option Text → Message
reply none = trouble
reply (some t) = record { role = assistant; content = t }

-- What follows the request. `none` stands for a failure.
unfoldable pub answered : (Request → Option Text) → Helper → Helper
answered server s = elim s.pending [
  | none ↦ s
  | some r ↦ record s {
    messages = s.messages ++ reply (server r) ∷ [];
    loading = false;
    pending = none;
  }
]

-- The effect on `open`.
unfoldable pub opened : Bool → Helper → Helper
opened now s = elim s.messages [
  | [] ↦ record s { is_open = now; messages = if now then welcome_message ∷ [] else [] }
  | m ∷ ms ↦ record s { is_open = now }
]

unfoldable pub handle_submit : Helper → Helper
unfolding send
handle_submit s = send s.input s

abbrev pub show_chips : Helper → Bool
show_chips s = leb (length s.messages) 1 && not s.loading

pub data Event : Type 0 where
  bubble_clicked opened_outside closed submitted bubble_ticks answers : Event
  typed chip_clicked : Text → Event

unfoldable pub step : (Request → Option Text) → Event → Helper → Helper
unfolding opened handle_submit send answered
step server bubble_clicked s = opened (not s.is_open) s
step server opened_outside s = opened true s
step server closed s = opened false s
step server submitted s = if not s.is_open || s.loading then s else handle_submit s
step server bubble_ticks s = record s { bubble_idx = (s.bubble_idx + 1) % 3 }
step server answers s = answered server s
step server (typed t) s = if not s.is_open || s.loading then s else record s { input = t }
step server (chip_clicked t) s = if s.is_open && show_chips s then send t s else s

abbrev pub run : (Request → Option Text) → List Event → Helper → Helper
run server [] s = s
run server (e ∷ es) s = run server es (step server e s)
