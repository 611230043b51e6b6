-- ===== src/Usage/Calc.antt =====
-- The estimate of portal/lib/pure/billing-calc.ts. Units are whole, the rate is in thousandths of a
-- dollar, and arithmetic is exact: the rounding of doubles is not modelled.
use canonizr_hda.Prelude.{ℕ, zero, suc, ◌+◌, ◌-◌, ◌*◌, ◌/◌, min, get_or, Option, none, some, map}
use canonizr_hda.Prelude.Int.{ℤ, pos, negsuc}
use mathlib.Core.Option
pub mod Laws

abbrev pub kb_per_unit : ℕ
kb_per_unit = 100

-- RATE_PER_UNIT, 0.003 dollars.
abbrev pub rate_per_unit : ℕ
rate_per_unit = 3

pub record BillingInput : Type 0 where
  pub total_units : ℕ
  pub free_units : Option ℤ

pub record BillingCalc : Type 0 where
  pub processed_kb : ℕ
  pub free_remaining_kb : Option ℕ
  pub free_total_kb : Option ℤ
  pub estimated_cost : ℕ
  pub free_usage_percent : ℕ

-- `n * KB_PER_UNIT`.
abbrev pub times_unit : ℤ → ℤ
times_unit (pos n) = pos (n * kb_per_unit)
times_unit (negsuc n) = negsuc ((n + 1) * kb_per_unit - 1)

-- `Math.max(0, free - total)` and `Math.max(0, total - free)`.
abbrev pub left_of : ℤ → ℕ → ℕ
left_of (pos n) total = n - total
left_of (negsuc n) total = 0

abbrev pub beyond : ℤ → ℕ → ℕ
beyond (pos n) total = total - n
beyond (negsuc n) total = total + (n + 1)

-- `Math.round((total / free) * 100)`, with halves rounded up.
abbrev pub percent : ℕ → ℕ → ℕ
percent total free = (200 * total + free) / (2 * free)

abbrev pub usage_percent : Option ℤ → ℕ → ℕ
usage_percent none total = 0
usage_percent (some (pos zero)) total = 0
usage_percent (some (pos (suc n))) total = min 100 (percent total (suc n))
usage_percent (some (negsuc n)) total = 0

unfoldable pub calculate_billing : BillingInput → BillingCalc
calculate_billing input = record {
  processed_kb = input.total_units * kb_per_unit;
  free_remaining_kb =
      Option.map (λ free. left_of free input.total_units * kb_per_unit) input.free_units;
  free_total_kb = Option.map times_unit input.free_units;
  estimated_cost = beyond (get_or input.free_units (pos 0)) input.total_units * rate_per_unit;
  free_usage_percent = usage_percent input.free_units input.total_units;
}
