-- ===== src/Tests/Usage.antt =====
-- Usage, bills and periods at concrete inputs.
use canonizr_hda.Prelude.{
  ℕ, ◌+◌, ◌*◌, ◌%◌, ◌≤◌, min, length, text, text_eq, text_lt, decimal, ◌≡◌, refl, ◌↔◌, ◌⊎◌, true,
  none, some, List, [], ◌∷◌, arith,
}
use canonizr_hda.Prelude.Int.{pos}
use canonizr_hda.World.Time.{Date, last_day, iso_date}
use canonizr_hda.Usage.Format.{to_billable_kb, to_billable_kb_least}
use canonizr_hda.Usage.Calc.{calculate_billing}
use canonizr_hda.Usage.Calc.Laws.{calculate_billing_split}
use canonizr_hda.Usage.Period.{period_start, current_period_start}
use canonizr_hda.Usage.Period.Laws.{DateLe, DateLt, next_start, IsDate, period_start_lem}
use canonizr_hda.Auth.RateLimit.{RateLimitConfig}
use canonizr_hda.Auth.RateLimit.Laws.{allowed, allowed_lem}
use canonizr_hda.Auth.RateLimit.{get}
use canonizr_hda.Keys.Names.{
  check_trimmed, trim_start, trim_end, is_space, validate_key_name, key_name_max_length, trim,
  matches_pattern,
}
use canonizr_hda.Keys.Names.Laws.{IsNewName, validate_key_name_iff}

to_billable_kb_least_example :
    (to_billable_kb 250001 % 100 ≡ 0)
    × (100 ≤ to_billable_kb 250001)
    × ((250001 ≤ 300 * 1000) ↔ (to_billable_kb 250001 ≤ 300))
to_billable_kb_least_example = to_billable_kb_least 250001 300 refl (omega arith)

-- A quota of 250 KB is shown as 300.
quota_shown : to_billable_kb (250 * 1000) ≡ 300
unfolding to_billable_kb
quota_shown = refl

march_31 : current_period_start 31 (record { year = 2024; month = 2; day = 30 }) ≡ text "2024-02-29"
unfolding current_period_start period_start canonizr_hda.Usage.Period.clamp
    canonizr_hda.Usage.Period.period_before iso_date last_day text_lt text decimal
march_31 = refl

abbrev today : Date
today = record { year = 2024; month = 2; day = 30 }

today-IsDate : IsDate today
unfolding last_day
today-IsDate = record {
  in_year = omega arith;
  from_first = omega arith;
  to_last = omega arith;
  after_zero = omega arith;
}

period_start_lem_example :
    ((period_start 31 today).day
      ≡ min 31 (last_day (period_start 31 today).year (period_start 31 today).month))
    × DateLe (period_start 31 today) today
    × DateLt today (next_start 31 (period_start 31 today))
period_start_lem_example = period_start_lem 31 today (omega arith) today-IsDate

abbrev three_in_a_minute : RateLimitConfig
three_in_a_minute = record { max = 3; window_ms = 60000 }

abbrev later : List ℕ
later = 6 ∷ 7 ∷ 8 ∷ 9 ∷ []

allowed_lem_example :
    (allowed three_in_a_minute (text "ip:1") (5 ∷ later) []).0 ≡ min (length (5 ∷ later)) 3
unfolding get
allowed_lem_example = allowed_lem three_in_a_minute (text "ip:1") 5 later [] refl (omega arith)

calculate_billing_split_example :
    let c = calculate_billing (record { total_units = 70; free_units = some (pos 50) }) in
    (paid : ℕ) × (remaining : ℕ) × (70 + remaining ≡ 50 + paid)
    × ((remaining ≡ 0) ⊎ (paid ≡ 0))
    × (c.processed_kb ≡ 70 * 100)
    × (c.free_total_kb ≡ some (pos (50 * 100)))
    × (c.free_remaining_kb ≡ some (remaining * 100))
    × (c.estimated_cost ≡ paid * 3)
calculate_billing_split_example = calculate_billing_split 70 50

validate_key_name_iff_example :
    (validate_key_name (text " My Key ") (text "my key" ∷ []) ≡ none) ↔ (
      (length (trim (text " My Key ")) ≤ key_name_max_length)
      × (matches_pattern (trim (text " My Key ")) ≡ true)
      × IsNewName (trim (text " My Key ")) (text "my key" ∷ []))
validate_key_name_iff_example = validate_key_name_iff (text " My Key ") (text "my key" ∷ [])

taken :
    validate_key_name (text " My Key ") (text "my key" ∷ [])
    ≡ some (text "A key with this name already exists.")
unfolding validate_key_name check_trimmed trim trim_start trim_end is_space matches_pattern text
    text_eq
taken = refl
