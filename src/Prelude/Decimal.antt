-- ===== src/Prelude/Decimal.antt =====
-- The decimal print of a number, padded to a fixed width, keeps the numeric order.
use canonizr_hda.Prelude.Tests.{ltb, ltb→lt, Bool-cases}
use canonizr_hda.Prelude.Lists.{length, length-append, replicate}
use canonizr_hda.Prelude.Strings.{
  Text, text_lt, text_lt-append_left, text_lt-append_right, decimal_from, decimal, pad_start,
  to_number_from, to_number,
}
use Prim.Native.Nat.{ℕ, zero, suc, ◌+◌, ◌-◌, ◌*◌, ◌/◌, ◌%◌, ◌<◌, ◌≤◌, ◌^◌}
use mathlib.Core.Path.{◌≡◌, refl, ap, sym, ◌∙◌}
use mathlib.Core.Bool.{true}
use mathlib.Core.Logic.{inl, inr}
use mathlib.Core.List.{[], ◌∷◌, ◌++◌, append_assoc}
use native.Mathlib.Omega.{arith}
use native.Mathlib.Nat.{pow-suc}

-- The last `w` decimal digits of a number.
unfoldable pub fixed : ℕ → ℕ → Text
fixed zero x = []
fixed (suc w) x = fixed w (x / 10) ++ (48 + x % 10) ∷ []

pub length-fixed : (w x : ℕ) → length (fixed w x) ≡ w
unfolding fixed
length-fixed zero x = refl
length-fixed (suc w) x =
    omega (arith, length-append (fixed w (x / 10)) ((48 + x % 10) ∷ []), length-fixed w (x / 10))

replicate-append : (n : ℕ) (c : ℕ) → replicate n c ++ c ∷ [] ≡ c ∷ replicate n c
replicate-append zero c = refl
replicate-append (suc n) c = ap (λ s. c ∷ s) (replicate-append n c)

fixed-zero : (w : ℕ) → fixed w 0 ≡ replicate w 48
unfolding fixed
fixed-zero zero = refl
fixed-zero (suc w) = rw (fixed-zero w) (replicate-append w 48)

below_pow : (w x : ℕ) → x < 10 ^ suc w → x / 10 < 10 ^ w
below_pow w x h = let e : 10 ^ suc w ≡ 10 ^ w * 10 = pow-suc 10 w in omega arith

pad_start-append :
    (n c d : ℕ) (s : Text) → pad_start (suc n) c (s ++ d ∷ []) ≡ pad_start n c s ++ d ∷ []
pad_start-append n c d s =
    let e : suc n - length (s ++ d ∷ []) ≡ n - length s = omega (arith, length-append s (d ∷ [])) in
    rw e (sym (append_assoc (replicate (n - length s) c) s (d ∷ [])))

pad_small :
    (w x : ℕ)
    → x < 10
    → pad_start (suc w) 48 ((48 + x) ∷ []) ≡ fixed w (x / 10) ++ (48 + x % 10) ∷ []
pad_small w x h =
    let d : x / 10 ≡ 0 = omega arith in
    let m : x % 10 ≡ x = omega arith in
    let e : suc w - 1 ≡ w = omega arith in rw (d, m, e, fixed-zero w)

pad_big :
    (v x : ℕ) (s : Text)
    → 10 ≤ x
    → x < 10 ^ suc v
    → ((u : ℕ) → x / 10 < 10 ^ suc u → pad_start (suc u) 48 s ≡ fixed (suc u) (x / 10))
    → pad_start (suc v) 48 (s ++ (48 + x % 10) ∷ []) ≡ fixed v (x / 10) ++ (48 + x % 10) ∷ []
pad_big zero x s h k ih = absurd (omega arith)
pad_big (suc u) x s h k ih =
    pad_start-append (suc u) 48 (48 + x % 10) s
    ∙ ap (λ t. t ++ (48 + x % 10) ∷ []) (ih u (below_pow (suc u) x k))

pad_start-decimal_from :
    (f w x : ℕ) → x < f → x < 10 ^ suc w → pad_start (suc w) 48 (decimal_from f x) ≡ fixed (suc w) x
unfolding decimal_from fixed
pad_start-decimal_from zero w x h k = absurd (omega arith)
pad_start-decimal_from (suc f) w x h k = elim (Bool-cases (ltb x 10)) [
  | inl small ↦ rw small (pad_small w x (ltb→lt x 10 small))
  | inr big ↦
      let ten : 10 ≤ x = ground arith in
      rw big (
        pad_big w x (decimal_from f (x / 10)) ten k
          λ u below. pad_start-decimal_from f u (x / 10) (omega arith) below)
]

-- `String(x).padStart(w, "0")` shows the last `w` digits of a number that has no more.
pub pad_start-decimal :
    (w x : ℕ) → x < 10 ^ suc w → pad_start (suc w) 48 (decimal x) ≡ fixed (suc w) x
unfolding decimal
pad_start-decimal w x h = pad_start-decimal_from (suc x) w x (omega arith) h

last_lt : (a b : ℕ) → a < b → text_lt ((48 + a) ∷ []) ((48 + b) ∷ []) ≡ true
unfolding text_lt
last_lt a b h = ground arith

fixed_lt : (w x y : ℕ) → x < y → y < 10 ^ w → text_lt (fixed w x) (fixed w y) ≡ true
unfolding fixed
fixed_lt zero x y h k = absurd (omega arith)
fixed_lt (suc w) x y h k = elim (Bool-cases (ltb (x / 10) (y / 10))) [
  | inl less ↦
      text_lt-append_left (fixed w (x / 10)) (fixed w (y / 10)) _ _
        (length-fixed w (x / 10) ∙ sym (length-fixed w (y / 10)))
        (fixed_lt w (x / 10) (y / 10) (ltb→lt _ _ less) (below_pow w y k))
  | inr same ↦
      let e : x / 10 ≡ y / 10 = ground arith in
      let d : x % 10 < y % 10 = omega arith in
      rw e (
        text_lt-append_right (fixed w (y / 10)) ((48 + x % 10) ∷ []) ((48 + y % 10) ∷ [])
          (last_lt (x % 10) (y % 10) d))
]

-- Padded to one width, the decimal prints of two numbers are in the order of the numbers.
pub pad_start-decimal_lt :
    (w x y : ℕ)
    → x < y
    → y < 10 ^ suc w
    → text_lt (pad_start (suc w) 48 (decimal x)) (pad_start (suc w) 48 (decimal y)) ≡ true
pad_start-decimal_lt w x y h k =
    rw (pad_start-decimal w x (omega arith), pad_start-decimal w y k) (fixed_lt (suc w) x y h k)

to_number_from-append :
    (acc c : ℕ) (s : Text) → to_number_from acc (s ++ c ∷ []) ≡ to_number_from acc s * 10 + (c - 48)
unfolding to_number_from
to_number_from-append acc c [] = refl
to_number_from-append acc c (d ∷ s) = to_number_from-append (acc * 10 + (d - 48)) c s

to_number_from-decimal_from : (f n : ℕ) → n < f → to_number_from 0 (decimal_from f n) ≡ n
unfolding decimal_from
to_number_from-decimal_from zero n h = absurd (omega arith)
to_number_from-decimal_from (suc f) n h = elim (Bool-cases (ltb n 10)) [
  | inl small ↦ rw small (unfold to_number_from in omega arith)
  | inr big ↦
      let ten : 10 ≤ n = ground arith in
      let ih = to_number_from-decimal_from f (n / 10) (omega arith) in
      rw (big, to_number_from-append 0 (48 + n % 10) (decimal_from f (n / 10)), ih) (omega arith)
]

-- A number is read back from its decimal print.
pub to_number-decimal : (n : ℕ) → to_number (decimal n) ≡ n
unfolding to_number decimal
to_number-decimal n = to_number_from-decimal_from (suc n) n (omega arith)
