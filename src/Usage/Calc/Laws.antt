-- ===== src/Usage/Calc/Laws.antt =====
-- How the estimate divides the usage into the allowance and what is paid for.
use canonizr_hda.Prelude.{ℕ, zero, suc, ◌+◌, ◌-◌, ◌*◌, ◌≤◌, ◌<◌, ◌≡◌, refl, ◌⊎◌, some, arith}
use canonizr_hda.Prelude.Int.{pos}
use native.Mathlib.Nat.{le-div_iff_mul-le, div-mul-le_self, le_trans}
use canonizr_hda.Usage.Calc.{percent, calculate_billing}

-- With an allowance, in units of 100 KB: the usage and what remains of the allowance are together the
-- allowance and the units that are paid for, where nothing is paid for while something remains; and
-- the cost is that of the units that are paid for, at three thousandths of a dollar.
pub calculate_billing_split :
    (total free : ℕ)
    → let c = calculate_billing (record { total_units = total; free_units = some (pos free) }) in
      (paid : ℕ) × (remaining : ℕ) × (total + remaining ≡ free + paid)
      × ((remaining ≡ 0) ⊎ (paid ≡ 0))
      × (c.processed_kb ≡ total * 100)
      × (c.free_total_kb ≡ some (pos (free * 100)))
      × (c.free_remaining_kb ≡ some (remaining * 100))
      × (c.estimated_cost ≡ paid * 3)
unfolding calculate_billing
calculate_billing_split total free =
    (total - free, free - total, omega arith, ground arith, refl, refl, refl, refl)

percent_mono :
    (total more free : ℕ) → 0 < free → total ≤ more → percent total free ≤ percent more free
percent_mono total more free p h =
    (le-div_iff_mul-le (omega arith)).1
      (le_trans (div-mul-le_self (200 * total + free) (2 * free)) (omega arith))

percent_full : (more free : ℕ) → 0 < free → free ≤ more → 100 ≤ percent more free
percent_full more free p h = (le-div_iff_mul-le (omega arith)).1 (omega arith)

-- The share of the allowance that is shown is at most 100, grows with the usage, and is 100 once the
-- allowance is used up.
pub free_usage_percent_bounds :
    (total more free : ℕ)
    → 0 < free
    → total ≤ more
    → let shown = λ (units : ℕ).
      (calculate_billing
        (record { total_units = units; free_units = some (pos free) })).free_usage_percent in
      (shown more ≤ 100) × (shown total ≤ shown more) × ((more < free) ⊎ (shown more ≡ 100))
unfolding calculate_billing
free_usage_percent_bounds total more zero p h = absurd (omega arith)
free_usage_percent_bounds total more (suc free) p h =
    let grows = percent_mono total more (suc free) p h in
    let full = percent_full more (suc free) p in (omega arith, omega arith, ground (arith, full))
