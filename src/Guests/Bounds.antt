-- ===== src/Guests/Bounds.antt =====
-- GuestsPicker.jsx: the counters stay within their limits, and what Done hands on.
use hotel_ms.Common.{◌+◌, ◌≤◌, ◌<◌, ◌≡◌, refl, false, List, [], ◌∷◌, arith}
use hotel_ms.Guests.{
  Party, Picker, Row, adults_row, children_row, rooms_row, minus, plus, receive_props, Event,
  decrease, increase, toggle_pets, toggle, outside, done, parent, step, run, label,
}

pub record IsParty (p : Party) : Type 0 where
  pub adults_min : 1 ≤ p.adults
  pub adults_max : p.adults ≤ 30
  pub children_max : p.children ≤ 10
  pub rooms_min : 1 ≤ p.rooms
  pub rooms_max : p.rooms ≤ 30

pub record IsValid (s : Picker) : Type 0 where
  pub draft_ok : IsParty s.draft
  pub props_ok : IsParty s.props

-- The parties that the parent sends keep the limits.
abbrev pub Sends : List Event → Type 0
Sends [] = Unit {0}
Sends (parent p ∷ es) = IsParty p × Sends es
Sends (e ∷ es) = Sends es

minus-IsParty : (r : Row) (p : Party) → IsParty p → IsParty (minus r p)
unfolding minus
minus-IsParty adults_row p h = ground arith
minus-IsParty children_row p h = ground arith
minus-IsParty rooms_row p h = ground arith

plus-IsParty : (r : Row) (p : Party) → IsParty p → IsParty (plus r p)
unfolding plus
plus-IsParty adults_row p h = ground arith
plus-IsParty children_row p h = ground arith
plus-IsParty rooms_row p h = ground arith

receive_props-IsValid :
    (p : Party) (s : Picker) → IsParty p → IsValid s → IsValid (receive_props p s)
unfolding receive_props
receive_props-IsValid p s h v = ground arith

step-IsValid :
    (e : Event) (es : List Event) (s : Picker) → Sends (e ∷ es) → IsValid s → IsValid (step e s)
unfolding step
step-IsValid (decrease r) es s h v = record {
  draft_ok = minus-IsParty r s.draft v.draft_ok;
  props_ok = v.props_ok;
}
step-IsValid (increase r) es s h v = record {
  draft_ok = plus-IsParty r s.draft v.draft_ok;
  props_ok = v.props_ok;
}
step-IsValid toggle_pets es s h v = ground arith
step-IsValid toggle es s h v = record { draft_ok = v.draft_ok; props_ok = v.props_ok }
step-IsValid outside es s h v = record { draft_ok = v.draft_ok; props_ok = v.props_ok }
step-IsValid done es s h v =
    let w = receive_props-IsValid s.draft s v.draft_ok v in
    record { draft_ok = w.draft_ok; props_ok = w.props_ok }
step-IsValid (parent p) es s h v = receive_props-IsValid p s h.0 v

rest-Sends : (e : Event) (es : List Event) → Sends (e ∷ es) → Sends es
rest-Sends (parent p) es h = h.1
rest-Sends _ es h = h

-- Whatever is clicked, the copy and the party of the parent stay within the limits of the counters,
-- if the parties that the parent sends are.
pub counters_in_range : (es : List Event) (s : Picker) → Sends es → IsValid s → IsValid (run es s)
unfolding run
counters_in_range [] s h v = v
counters_in_range (e ∷ es) s h v =
    counters_in_range es (step e s) (rest-Sends e es h) (step-IsValid e es s h v)

-- After Done the parent's party is the copy, which has not changed, and the popup is closed.
pub done_hands_over :
    (s : Picker)
    → ((step done s).props ≡ s.draft)
      × ((step done s).draft ≡ s.draft)
      × ((step done s).is_open ≡ false)
unfolding step
done_hands_over s = (refl, ground arith, refl)

-- A count that was raised and not confirmed by Done is what the closed component shows, although
-- the parent's party is the old one.
pub outside_keeps_draft :
    (s : Picker)
    → s.draft ≡ s.props
    → s.props.rooms < 30
    → let t = run (increase rooms_row ∷ outside ∷ []) s in
      (t.is_open ≡ false)
      × (t.props ≡ s.props)
      × (label t ≡ (s.props.adults, s.props.children, s.props.rooms + 1))
unfolding run label
outside_keeps_draft s e h = (refl, refl, ground arith)
