-- ===== src/Calendar/Zones.antt =====
-- Instants and days in a time zone: what survives the way through `toISOString`.
use hotel_ms.Common.{ℕ, ◌+◌, ◌-◌, ◌*◌, ◌/◌, ◌≤◌, ◌<◌, ◌≡◌, ap, some, arith}
use hotel_ms.Calendar.{
  civil, Zone, east, west, local, instant, midnight, start_of_day, iso_text, parse_local,
}
use hotel_ms.Calendar.Days.{day_number-civil}

-- An offset of less than a day.
abbrev pub IsZone : Zone → Type 0
IsZone (east off) = off < 1440
IsZone (west off) = off < 1440

-- How many days the UTC day of a zone's midnight lies behind.
abbrev pub lag : Zone → ℕ
lag (east off) = (off + 1439) / 1440
lag (west off) = 0

pub lag-le : (z : Zone) → IsZone z → lag z ≤ 1
lag-le (east off) v = omega arith
lag-le (west off) v = omega arith

pub local-midnight : (z : Zone) (n : ℕ) → IsZone z → 0 < n → local z (midnight z n) ≡ n * 1440
unfolding local midnight instant
local-midnight (east off) n v h = omega arith
local-midnight (west off) n v h = omega arith

pub start_of_day-midnight :
    (z : Zone) (n : ℕ) → IsZone z → 0 < n → start_of_day z (midnight z n) ≡ midnight z n
unfolding start_of_day
start_of_day-midnight z n v h = rw (local-midnight z n v h) (ap (midnight z) (omega arith))

-- Midnights are ordered as their days.
pub midnight-lt : (z : Zone) (a b : ℕ) → IsZone z → 0 < a → a < b → midnight z a < midnight z b
unfolding midnight instant
midnight-lt (east off) a b v h l = omega arith
midnight-lt (west off) a b v h l = omega arith

pub midnight-le : (z : Zone) (a b : ℕ) → IsZone z → 0 < a → a ≤ b → midnight z a ≤ midnight z b
unfolding midnight instant
midnight-le (east off) a b v h l = omega arith
midnight-le (west off) a b v h l = omega arith

-- The text of a zone's midnight names the day before, if the zone is ahead of UTC.
pub iso_text-midnight :
    (z : Zone) (n : ℕ) → IsZone z → 0 < n → iso_text (midnight z n) ≡ some (civil (n - lag z))
unfolding iso_text midnight instant
iso_text-midnight (east off) n v h = ap (λ k. some (civil k)) (omega arith)
iso_text-midnight (west off) n v h = ap (λ k. some (civil k)) (omega arith)

pub parse_local-civil : (z : Zone) (n : ℕ) → 0 < n → parse_local z (civil n) ≡ midnight z n
unfolding parse_local
parse_local-civil z n h = ap (midnight z) (day_number-civil n h).1
