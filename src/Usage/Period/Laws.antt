-- ===== src/Usage/Period/Laws.antt =====
-- The period that is found is the one that today lies in.
use canonizr_hda.Prelude.{
  ℕ, ◌+◌, ◌*◌, ◌≤◌, ◌<◌, ◌==◌, if◌then◌else◌, text, text_lt, text_lt-append_right, decimal,
  pad_start, ◌≡◌, ◌⊎◌, true, ◌++◌, arith, false, Bool-cases, ltb, min, ◌-◌, inl, ltb→lt, ◌∙◌, sym,
  inr, text_lt_irrefl, text_lt_asymm,
}
use canonizr_hda.Prelude.Decimal.{pad_start-decimal_lt}
use canonizr_hda.World.Time.{Date, last_day, iso_date}
use canonizr_hda.Usage.Period.{clamp, period_start, period_before}

abbrev pub month_index : Date → ℕ
month_index d = d.year * 12 + d.month

-- A date of the calendar, after year 0.
pub record IsDate (d : Date) : Type 0 where
  pub in_year : d.month < 12
  pub from_first : 1 ≤ d.day
  pub to_last : d.day ≤ last_day d.year d.month
  pub after_zero : 1 ≤ d.year

abbrev pub DateLt : Date → Date → Type 0
DateLt a b = (month_index a < month_index b) ⊎ ((month_index a ≡ month_index b) × (a.day < b.day))

-- The anchor day of the month after.
pub next_start : ℕ → Date → Date
next_start anchor d =
    if d.month == 11 then clamp anchor (d.year + 1) 0 else clamp anchor d.year (d.month + 1)

last_day_bounds : (y m : ℕ) → (28 ≤ last_day y m) × (last_day y m ≤ 31)
unfolding last_day
last_day_bounds y m = ground arith

-- Within a month the printed dates are in the order of the days.
iso_date_lt :
    (y m a b : ℕ)
    → a < b
    → b < 100
    → text_lt
        (iso_date (record { year = y; month = m; day = a }))
        (iso_date (record { year = y; month = m; day = b }))
      ≡ true
unfolding iso_date
iso_date_lt y m a b h k =
    text_lt-append_right
      (pad_start 4 48 (decimal y) ++ text "-" ++ pad_start 2 48 (decimal (m + 1)) ++ text "-")
      (pad_start 2 48 (decimal a)) (pad_start 2 48 (decimal b)) (pad_start-decimal_lt 1 a b h k)

not_less : (a b : ℕ) → ltb a b ≡ false → (a ≡ b) ⊎ (b < a)
not_less a b h = ground arith

-- The dates of one month, compared as texts, are in the order of their days.
iso_date-ltb :
    (y m a b : ℕ)
    → a < 100
    → b < 100
    → text_lt
        (iso_date (record { year = y; month = m; day = a }))
        (iso_date (record { year = y; month = m; day = b }))
      ≡ ltb a b
iso_date-ltb y m a b h k = elim (Bool-cases (ltb a b)) [
  | inl less ↦ iso_date_lt y m a b (ltb→lt a b less) k ∙ sym less
  | inr more ↦ elim (not_less a b more) [
    | inl same ↦
        rw (same, text_lt_irrefl (iso_date (record { year = y; month = m; day = b })))
          (ground arith)
    | inr less ↦
        text_lt_asymm (iso_date (record { year = y; month = m; day = b }))
          (iso_date (record { year = y; month = m; day = a })) (iso_date_lt y m b a less h)
        ∙ sym more
  ]
]

abbrev pub DateLe : Date → Date → Type 0
DateLe a b = (month_index a < month_index b) ⊎ ((month_index a ≡ month_index b) × (a.day ≤ b.day))

-- The period starts on the anchor day of its month, or on the last day of a shorter month; today is
-- not before the start, and is before the start of the next period.
pub period_start_lem :
    (anchor : ℕ) (today : Date)
    → 1 ≤ anchor
    → IsDate today
    → let start = period_start anchor today in
      (start.day ≡ min anchor (last_day start.year start.month))
      × DateLe start today
      × DateLt today (next_start anchor start)
unfolding period_start period_before clamp next_start
period_start_lem anchor today h d =
    let last = last_day_bounds today.year today.month in
    let compared =
      iso_date-ltb today.year today.month today.day (min anchor (last_day today.year today.month))
        (omega arith) (omega arith) in
    rw compared (
      ground (
        arith,
        last_day_bounds today.year (today.month - 1),
        last_day_bounds (today.year - 1) 11,
        last_day_bounds (today.year + 1) 0,
        last_day_bounds today.year (today.month + 1),
      ))
