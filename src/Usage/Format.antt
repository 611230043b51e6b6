-- ===== src/Usage/Format.antt =====
-- Billable kilobytes, `toBillableKB` of portal/lib/pure/format.ts. The printers of that file go through
-- `toFixed` on doubles and are not modelled.
use canonizr_hda.Prelude.{ℕ, ◌+◌, ◌-◌, ◌*◌, ◌/◌, ◌%◌, ◌≤◌, ◌<◌, max, ◌≡◌, ◌↔◌, arith}

-- `Math.ceil(a / b)`.
abbrev pub ceil_div : ℕ → ℕ → ℕ
ceil_div a b = (a + (b - 1)) / b

unfoldable pub to_billable_kb : ℕ → ℕ
to_billable_kb bytes = max 100 (ceil_div bytes 100000 * 100)

-- The billable size is a multiple of 100 KB and at least 100 KB, and of the positive multiples of
-- 100 KB those that hold the bytes are exactly the ones from it on.
pub to_billable_kb_least :
    (bytes kb : ℕ)
    → kb % 100 ≡ 0
    → 0 < kb
    → (to_billable_kb bytes % 100 ≡ 0)
      × (100 ≤ to_billable_kb bytes)
      × ((bytes ≤ kb * 1000) ↔ (to_billable_kb bytes ≤ kb))
unfolding to_billable_kb
to_billable_kb_least bytes kb m p = (omega arith, omega arith, (λ h. omega arith, λ h. omega arith))

-- A number of KB as it is billed.
pub to_billable_kb-kb :
    (kb : ℕ)
    → 0 < kb
    → (to_billable_kb (kb * 1000) % 100 ≡ 0)
      × (kb ≤ to_billable_kb (kb * 1000))
      × (to_billable_kb (kb * 1000) < kb + 100)
unfolding to_billable_kb
to_billable_kb-kb kb p = (omega arith, omega arith, omega arith)
