-- ===== src/Jobs/Synthetic/Laws.antt =====
-- What is drawn is in range.
use canonizr_hda.Prelude.{ℕ, ◌*◌, ◌<◌, arith}
use canonizr_hda.Jobs.Synthetic.{word, draw_below, mix, mulberry32}
use native.Mathlib.Nat.{mul_comm, mul-lt-mul_of_pos_right, div-lt_iff_lt-mul}

mulberry32_lt : (seed : ℕ) → (mulberry32 seed).0 < word
unfolding mulberry32 mix
mulberry32_lt seed = omega arith

-- The index that is drawn for an array that is not empty is one of it.
pub draw_below_lt : (seed n : ℕ) → 0 < n → draw_below (mulberry32 seed).0 n < n
unfolding draw_below
draw_below_lt seed n h =
    let pos : 0 < word = omega arith in
    let less : (mulberry32 seed).0 * n < word * n =
      mul-lt-mul_of_pos_right (mulberry32_lt seed) h in
    (div-lt_iff_lt-mul pos).1 (rw (mul_comm n word) less)
