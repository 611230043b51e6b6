-- ===== src/Prelude/Double.antt =====
-- Quotients of whole numbers as JavaScript's doubles, and how `toFixed` prints them. A double that is
-- not negative is a numerator over a power of two.
use canonizr_hda.Prelude.Tests.{ltb, ltb→lt, leb, leb→le, if◌then◌else◌, Bool-cases}
use canonizr_hda.Prelude.Strings.{Text, text, decimal}
use canonizr_hda.Prelude.Decimal.{fixed}
use Prim.Native.Nat.{ℕ, zero, suc, ◌+◌, ◌*◌, ◌/◌, ◌%◌, ◌<◌, ◌≤◌, ◌^◌}
use mathlib.Core.Path.{◌≡◌, refl, ap}
use mathlib.Core.Bool.{true, false}
use mathlib.Core.Logic.{inl, inr}
use mathlib.Core.List.{◌++◌}
use native.Mathlib.Omega.{arith}
use native.Mathlib.Nat.{le-div_iff_mul-le, div-lt_iff_lt-mul, pow-suc, mul-le-mul_left}

pub record Double : Type 0 where
  pub num : ℕ
  pub den : ℕ

-- The least power of two, from `p` on, that gives the quotient 53 bits.
unfoldable pub scale : ℕ → ℕ → ℕ → ℕ → ℕ
scale zero a b p = p
scale (suc fuel) a b p = elim (leb (b * 2 ^ 52) (a * p)) [
  | true ↦ p
  | false ↦ scale fuel a b (2 * p)
]

-- `n / d` rounded to a whole number, ties to the even one.
unfoldable pub round_even : ℕ → ℕ → ℕ
round_even n d =
    if ltb (2 * (n % d)) d
    then n / d
    else if ltb d (2 * (n % d))
    then n / d + 1
    else n / d + (n / d) % 2

-- `a / b`, for numbers below 2 ^ 53 and a divisor that is not 0.
unfoldable pub quotient : ℕ → ℕ → Double
quotient zero b = record { num = 0; den = 1 }
quotient (suc a) b =
    let p = scale 120 (suc a) b 1 in record { num = round_even (suc a * p) b; den = p }

-- The whole number `n` that `toFixed(f)` prints over `10 ^ f`, here with `u` for `10 ^ f`: the nearest
-- one, the larger of two.
unfoldable pub nearest : ℕ → Double → ℕ
nearest u x = (2 * (x.num * u) + x.den) / (2 * x.den)

unfoldable pub to_fixed : ℕ → Double → Text
to_fixed zero x = decimal (nearest 1 x)
to_fixed (suc f) x =
    let n = nearest (10 ^ suc f) x in
    decimal (n / 10 ^ suc f) ++ (text "." ++ fixed (suc f) (n % 10 ^ suc f))

round_even_bounds :
    (n : ℕ) → (200 * round_even n 100 ≤ 2 * n + 100) × (2 * n ≤ 200 * round_even n 100 + 100)
unfolding round_even
round_even_bounds n = ground arith

scale_enough : (fuel a b p : ℕ) → b * 2 ^ 52 ≤ a * p * 2 ^ fuel → b * 2 ^ 52 ≤ a * scale fuel a b p
unfolding scale
scale_enough zero a b p h = omega arith
scale_enough (suc fuel) a b p h = elim (Bool-cases (leb (b * 2 ^ 52) (a * p))) [
  | inl e ↦ rw (scale, e) (leb→le _ _ e)
  | inr e ↦
      let twice : 2 ^ suc fuel ≡ 2 ^ fuel * 2 = pow-suc 2 fuel in
      let same : a * (2 * p) * 2 ^ fuel ≡ a * p * 2 ^ suc fuel = rw twice (omega arith) in
      rw (scale, e) (scale_enough fuel a b (2 * p) (omega arith))
]

nearest_round :
    (c m p : ℕ)
    → 100 < p
    → 200 * m ≤ 2 * (c * p) + 100
    → 2 * (c * p) ≤ 200 * m + 100
    → (2 * (m * 100) + p) / (2 * p) ≡ c
nearest_round c m p big above below =
    let pos : 0 < 2 * p = omega arith in
    let twice : c * (2 * p) ≡ 2 * (c * p) = omega arith in
    let next : suc c * (2 * p) ≡ 2 * (c * p) + 2 * p = omega arith in
    let low : c ≤ (2 * (m * 100) + p) / (2 * p) = (le-div_iff_mul-le pos).1 (omega arith) in
    let high : (2 * (m * 100) + p) / (2 * p) < suc c = (div-lt_iff_lt-mul pos).1 (omega arith) in
    omega arith

scale_big : (c p : ℕ) → c < 2 ^ 45 → 100 * 2 ^ 52 ≤ c * p → 100 < p
scale_big c p h k = elim (Bool-cases (ltb 100 p)) [
  | inl e ↦ ltb→lt 100 p e
  | inr e ↦
      let small : p ≤ 100 = ground arith in
      let less : c * p ≤ c * 100 = mul-le-mul_left c small in absurd (omega arith)
]

-- Amounts below 2 ^ 45 hundredths are printed exactly with two decimals.
pub to_fixed-quotient :
    (c : ℕ)
    → c < 2 ^ 45
    → to_fixed 2 (quotient c 100) ≡ decimal (c / 100) ++ (text "." ++ fixed 2 (c % 100))
unfolding to_fixed nearest quotient
to_fixed-quotient zero h = refl
to_fixed-quotient (suc a) h =
    let p : ℕ = scale 120 (suc a) 100 1 in
    let big = scale_big (suc a) p h (scale_enough 120 (suc a) 100 1 (omega arith)) in
    let bounds = round_even_bounds (suc a * p) in
    let e : nearest 100 (quotient (suc a) 100) ≡ suc a =
      nearest_round (suc a) (round_even (suc a * p) 100) p big bounds.0 bounds.1 in
    ap (λ n. decimal (n / 100) ++ (text "." ++ fixed 2 (n % 100))) e
