-- ===== src/Hotels/Slider.antt =====
-- Hotels.jsx `PriceRangeSlider`: the two handles.
use hotel_ms.Common.{◌+◌, ◌≤◌, ◌<◌, List, [], ◌∷◌, arith}
use hotel_ms.Hotels.{
  Filters, slide_low, slide_high, clear_filters, Event, lows, highs, toggle_type, toggle_cap,
  toggle_amenity, sorts, clears, step, run,
}

-- The handles are apart, and within the range of the slider.
pub record IsRange (f : Filters) : Type 0 where
  pub apart : f.low + 50 < f.high
  pub within : f.high ≤ 2400

-- The inputs of the browser stay within their own limits.
abbrev pub Slides : List Event → Type 0
Slides [] = Unit {0}
Slides (lows v ∷ es) = (v ≤ 2400) × Slides es
Slides (highs v ∷ es) = (v ≤ 2400) × Slides es
Slides (e ∷ es) = Slides es

step-IsRange :
    (e : Event) (es : List Event) (f : Filters) → Slides (e ∷ es) → IsRange f → IsRange (step e f)
unfolding step slide_low slide_high clear_filters
step-IsRange (lows v) es f h r = ground arith
step-IsRange (highs v) es f h r = ground arith
step-IsRange (toggle_type c) es f h r = record { apart = r.apart; within = r.within }
step-IsRange (toggle_cap c) es f h r = record { apart = r.apart; within = r.within }
step-IsRange (toggle_amenity a) es f h r = record { apart = r.apart; within = r.within }
step-IsRange (sorts s) es f h r = record { apart = r.apart; within = r.within }
step-IsRange clears es f h r = record { apart = omega arith; within = omega arith }

rest-Slides : (e : Event) (es : List Event) → Slides (e ∷ es) → Slides es
rest-Slides (lows v) es h = h.1
rest-Slides (highs v) es h = h.1
rest-Slides _ es h = h

-- Whatever is done in the panel, with values of the sliders up to 2400: the two prices stay more
-- than 50 apart and within the slider, if they are at first.
pub run-IsRange : (es : List Event) (f : Filters) → Slides es → IsRange f → IsRange (run es f)
unfolding run
run-IsRange [] f h r = r
run-IsRange (e ∷ es) f h r =
    run-IsRange es (step e f) (rest-Slides e es h) (step-IsRange e es f h r)
