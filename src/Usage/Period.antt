-- ===== src/Usage/Period.antt =====
-- The billing period of portal/lib/pure/billing-period.ts. Anchor days are those that `getUTCDate`
-- gives, so at least 1.
use canonizr_hda.Prelude.{ℕ, ◌-◌, min, ◌==◌, if◌then◌else◌, Text, text, text_lt, not, ◌++◌}
use canonizr_hda.World.Time.{Date, last_day, iso_date}
pub mod Laws

-- `clamp(y, m)`: the anchor day of a month, or its last day.
unfoldable pub clamp : ℕ → ℕ → ℕ → Date
clamp anchor y m = record { year = y; month = m; day = min anchor (last_day y m) }

unfoldable pub period_before : ℕ → Date → Date
period_before anchor today =
    if today.month == 0
    then clamp anchor (today.year - 1) 11
    else clamp anchor today.year (today.month - 1)

-- `currentPeriodStart` as a date, and as the text that it returns.
unfoldable pub period_start : ℕ → Date → Date
period_start anchor today =
    let this_month = clamp anchor today.year today.month in
    if not (text_lt (iso_date today) (iso_date this_month))
    then this_month
    else period_before anchor today

unfoldable pub current_period_start : ℕ → Date → Text
current_period_start anchor today = iso_date (period_start anchor today)

-- `quotaUsageKey`.
unfoldable pub quota_usage_key : Text → Text → Text
quota_usage_key sub_id period_start = text "sub:" ++ (sub_id ++ (text ":bytes:" ++ period_start))
