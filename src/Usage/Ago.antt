-- ===== src/Usage/Ago.antt =====
-- Times as a distance from now, portal/lib/pure/time.ts, in exact fractions: the source divides
-- doubles. `Intl.RelativeTimeFormat` is a parameter.
use canonizr_hda.Prelude.{
  ℕ, ◌+◌, ◌-◌, ◌*◌, ◌/◌, ltb, leb, if◌then◌else◌, Text, text, Bool, true, false,
}

pub data TimeUnit : Type 0 where
  second minute hour day week month year : TimeUnit

-- The milliseconds of a unit, times 100,000: a month is 4.34524 weeks.
unfoldable pub unit_ms : TimeUnit → ℕ
unit_ms second = 1000 * 100000
unit_ms minute = 60 * 1000 * 100000
unit_ms hour = 60 * 60 * 1000 * 100000
unit_ms day = 24 * 60 * 60 * 1000 * 100000
unit_ms week = 7 * 24 * 60 * 60 * 1000 * 100000
unit_ms month = 7 * 24 * 60 * 60 * 1000 * 434524
unit_ms year = 12 * (7 * 24 * 60 * 60 * 1000 * 434524)

-- The unit of the first division that is longer than the duration.
unfoldable pub fitting_unit : ℕ → TimeUnit
fitting_unit ms =
    if ltb (ms * 100000) (unit_ms minute)
    then second
    else if ltb (ms * 100000) (unit_ms hour)
    then minute
    else if ltb (ms * 100000) (unit_ms day)
    then hour
    else if ltb (ms * 100000) (unit_ms week)
    then day
    else if ltb (ms * 100000) (unit_ms month)
    then week
    else if ltb (ms * 100000) (unit_ms year)
    then month
    else year

-- `Math.round` of a quotient, which rounds a half up: towards now for a time in the past.
unfoldable pub rounded : Bool → ℕ → ℕ → ℕ
rounded past a b = if past then (2 * a + (b - 1)) / (2 * b) else (2 * a + b) / (2 * b)

-- The distance of a time from `now`, given whether it lies in the past.
module _ (format : Bool → ℕ → TimeUnit → Text) where
  unfoldable pub ago : Bool → ℕ → Text
  ago past ms =
      if ltb ms 30000
      then text "just now"
      else format past (rounded past (ms * 100000) (unit_ms (fitting_unit ms))) (fitting_unit ms)

  unfoldable pub time_ago : ℕ → ℕ → Text
  time_ago time now = if leb time now then ago true (now - time) else ago false (time - now)
