-- ===== src/Live/Tests.antt =====
-- The connection and the toasts on concrete inputs, and the theorems applied to them.
use hotel_ms.Common.{◌≡◌, refl, [], ◌∷◌, some, codes, here}
use hotel_ms.Live.{
  Handle, Message, Live, mount, closed, fired, Reaches, stays, goes_on, mounts, closes, fires,
  nobody, connect,
}
use hotel_ms.Live.Connection.{IsSound, idle, reached-IsSound}

abbrev socket : Handle
socket = record { id = 1; effect = 0 }

abbrev timer : Handle
timer = record { id = 2; effect = 0 }

abbrev retried : Live
retried = fired timer (closed socket (mount nobody))

reached : Reaches nobody retried
unfolding mount connect closed
reached = goes_on (goes_on (goes_on stays (mounts refl)) (closes here)) (fires here)

retried-sockets : retried.sockets ≡ record { id = 3; effect = 0 } ∷ []
unfolding mount connect closed fired
retried-sockets = refl

reached-IsSound_example : IsSound retried
reached-IsSound_example = reached-IsSound (idle refl refl refl) reached

abbrev booked : Message
booked = record { event = codes "booking_created"; data_id = some 7 }

abbrev paid : Message
paid = record { event = codes "payment_received"; data_id = some 7 }
