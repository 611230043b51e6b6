-- ===== src/World/Time.antt =====
-- JavaScript dates in UTC: the civil date of a time in milliseconds, and `toISOString`.
use canonizr_hda.Prelude.{
  ℕ, ◌+◌, ◌-◌, ◌*◌, ◌/◌, ◌%◌, ltb, ◌==◌, if◌then◌else◌, Text, text, decimal, pad_start, ◌++◌, Bool,
  not, ◌&&◌, ◌||◌, ◌≡◌, refl,
}

-- `month` is 0 for January, as `getUTCMonth` has it.
pub record Date : Type 0 where
  pub year : ℕ
  pub month : ℕ
  pub day : ℕ

abbrev pub day_ms : ℕ
day_ms = 86400000

-- Within a 400-year era that starts on 1 March: the year from the day, and the month and the day from
-- the day of the year.
unfoldable pub year_of_era : ℕ → ℕ
year_of_era d = (d - d / 1460 + d / 36524 - d / 146096) / 365

unfoldable pub date_in_year : ℕ → ℕ → Date
date_in_year y doy =
    let mp : ℕ = (5 * doy + 2) / 153 in
    let day : ℕ = doy - (153 * mp + 2) / 5 + 1 in
    if ltb mp 10
    then record { year = y; month = mp + 2; day = day }
    else record { year = y + 1; month = mp - 10; day = day }

-- `getUTCFullYear`, `getUTCMonth` and `getUTCDate` of a time since 1970.
unfoldable pub utc_date : ℕ → Date
unfolding year_of_era date_in_year
utc_date ms =
    let z : ℕ = ms / day_ms + 719468 in
    let doe : ℕ = z % 146097 in
    let yoe : ℕ = year_of_era doe in
    date_in_year (yoe + z / 146097 * 400) (doe - (365 * yoe + yoe / 4 - yoe / 100))

abbrev is_leap : ℕ → Bool
is_leap y = (y % 4 == 0) && (not (y % 100 == 0) || (y % 400 == 0))

-- `new Date(Date.UTC(y, m + 1, 0)).getUTCDate()`: the last day of a month.
unfoldable pub last_day : ℕ → ℕ → ℕ
last_day y m =
    if m == 1
    then (if is_leap y then 29 else 28)
    else if (m == 3) || (m == 5) || (m == 8) || (m == 10)
    then 30
    else 31

-- `toISOString().slice(0, 10)`.
unfoldable pub iso_date : Date → Text
unfolding decimal text
iso_date d =
    pad_start 4 48 (decimal d.year)
    ++ text "-"
    ++ pad_start 2 48 (decimal (d.month + 1))
    ++ text "-"
    ++ pad_start 2 48 (decimal d.day)

-- `toISOString()`.
unfoldable pub iso_string : ℕ → Text
unfolding iso_date utc_date decimal text
iso_string ms =
    let t : ℕ = ms % day_ms in
    iso_date (utc_date ms)
    ++ text "T"
    ++ pad_start 2 48 (decimal (t / 3600000))
    ++ text ":"
    ++ pad_start 2 48 (decimal (t / 60000 % 60))
    ++ text ":"
    ++ pad_start 2 48 (decimal (t / 1000 % 60))
    ++ text "."
    ++ pad_start 3 48 (decimal (t % 1000))
    ++ text "Z"

epoch : iso_string 0 ≡ text "1970-01-01T00:00:00.000Z"
unfolding iso_string
epoch = refl

leap_day : iso_string 1709210096789 ≡ text "2024-02-29T12:34:56.789Z"
unfolding iso_string
leap_day = refl
