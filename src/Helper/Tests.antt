-- ===== src/Helper/Tests.antt =====
-- The chat on concrete inputs, and the theorem applied to it.
use hotel_ms.Common.{◌≡◌, refl, false, [], ◌∷◌, Option, none, Text, codes}
use hotel_ms.Helper.{
  Request, Helper, welcome_message, trouble, user, run, step, opened, send, answered,
  bubble_clicked, chip_clicked, answers, typed, submitted,
}
use hotel_ms.Helper.Conversation.{IsSound, quiet, nothing, chat-IsSound}

abbrev fresh : Helper
fresh = record {
  is_open = false;
  messages = [];
  input = [];
  loading = false;
  bubble_idx = 0;
  pending = none;
}

abbrev deaf : Request → Option Text
deaf r = none

run-trouble :
    (run deaf
      (bubble_clicked ∷ chip_clicked (codes " Pets ") ∷ typed (codes "lost") ∷ answers ∷ [])
      fresh).messages
    ≡ welcome_message ∷ record { role = user; content = codes "Pets" } ∷ trouble ∷ []
unfolding step opened send answered
run-trouble = refl

chat-IsSound_example : IsSound deaf (
    run deaf
      (bubble_clicked
        ∷ chip_clicked (codes "Pets")
        ∷ answers
        ∷ typed (codes "Pool?")
        ∷ submitted
        ∷ [])
      fresh)
chat-IsSound_example =
    chat-IsSound deaf
      (bubble_clicked
        ∷ chip_clicked (codes "Pets")
        ∷ answers
        ∷ typed (codes "Pool?")
        ∷ submitted
        ∷ [])
      fresh (quiet refl refl nothing)
