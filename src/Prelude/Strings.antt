-- ===== src/Prelude/Strings.antt =====
-- JavaScript strings, as lists of UTF-16 code units: literals, equality, the ordinal order, and the
-- decimal print of a number.
use Prim.Native.Nat.{ℕ, zero, suc, ◌+◌, ◌-◌, ◌*◌, ◌/◌, ◌%◌}
use Prim.Native.Char.{code}
use Prim.Native.String.{String}
use mathlib.Core.Path.{◌≡◌, refl}
use mathlib.Core.Logic.{◌↔◌}
use mathlib.Core.Bool.{Bool, true, false, ◌&&◌, ◌||◌}
use mathlib.Core.List.{List, [], ◌∷◌, ◌++◌}
use native.Mathlib.Omega.{arith}
use canonizr_hda.Prelude.Tests.{ltb, ◌==◌, if◌then◌else◌}
use canonizr_hda.Prelude.Lists.{length, replicate}

abbrev pub Text : Type 0
Text = List ℕ

-- The code units of one code point: a surrogate pair above the basic plane.
abbrev pub unit_of : ℕ → Text → Text
unit_of c rest =
    if ltb c 0x10000
    then c ∷ rest
    else (0xd800 + (c - 0x10000) / 0x400) ∷ (0xdc00 + (c - 0x10000) % 0x400) ∷ rest

-- A string literal.
unfoldable pub text : String → Text
text String.[] = []
text (String.◌∷◌ c s) = unit_of (code c) (text s)

-- `===` on strings.
unfoldable pub text_eq : Text → Text → Bool
text_eq [] [] = true
text_eq [] (y ∷ ys) = false
text_eq (x ∷ xs) [] = false
text_eq (x ∷ xs) (y ∷ ys) = (x == y) && text_eq xs ys

pub text_eq_iff : (s t : Text) → (text_eq s t ≡ true) ↔ (s ≡ t)
unfolding text_eq
text_eq_iff [] [] = ground arith
text_eq_iff [] (y ∷ ys) = ground arith
text_eq_iff (x ∷ xs) [] = ground arith
text_eq_iff (x ∷ xs) (y ∷ ys) = ground (arith, text_eq_iff xs ys)

pub text_eq_refl : (s : Text) → text_eq s s ≡ true
text_eq_refl s = (text_eq_iff s s).1 refl

-- `<` on strings.
unfoldable pub text_lt : Text → Text → Bool
text_lt [] [] = false
text_lt [] (y ∷ ys) = true
text_lt (x ∷ xs) [] = false
text_lt (x ∷ xs) (y ∷ ys) = ltb x y || ((x == y) && text_lt xs ys)

pub text_lt_irrefl : (s : Text) → text_lt s s ≡ false
unfolding text_lt
text_lt_irrefl [] = refl
text_lt_irrefl (x ∷ xs) = ground (arith, text_lt_irrefl xs)

pub text_lt_asymm : (s t : Text) → text_lt s t ≡ true → text_lt t s ≡ false
unfolding text_lt
text_lt_asymm [] [] h = refl
text_lt_asymm [] (y ∷ ys) h = refl
text_lt_asymm (x ∷ xs) [] h = ground arith
text_lt_asymm (x ∷ xs) (y ∷ ys) h = ground (arith, text_lt_asymm xs ys)

pub text_lt-append_left :
    (s t u v : Text) → length s ≡ length t → text_lt s t ≡ true → text_lt (s ++ u) (t ++ v) ≡ true
unfolding text_lt
text_lt-append_left [] [] u v e h = ground arith
text_lt-append_left [] (y ∷ ys) u v e h = ground arith
text_lt-append_left (x ∷ xs) [] u v e h = ground arith
text_lt-append_left (x ∷ xs) (y ∷ ys) u v e h = ground (arith, text_lt-append_left xs ys u v)

pub text_lt-append_right : (s u v : Text) → text_lt u v ≡ true → text_lt (s ++ u) (s ++ v) ≡ true
unfolding text_lt
text_lt-append_right [] u v h = h
text_lt-append_right (x ∷ xs) u v h = ground (arith, text_lt-append_right xs u v)

-- `String(n)` of a natural number. Each round divides by ten, so `n + 1` rounds are enough.
unfoldable pub decimal_from : ℕ → ℕ → Text
decimal_from zero n = []
decimal_from (suc f) n =
    let more = decimal_from f (n / 10) ++ (48 + n % 10) ∷ [] in
    if ltb n 10 then (48 + n) ∷ [] else more

unfoldable pub decimal : ℕ → Text
unfolding decimal_from
decimal n = decimal_from (suc n) n

-- `s.padStart(w, c)` with a single pad unit.
abbrev pub pad_start : ℕ → ℕ → Text → Text
pad_start w c s = replicate (w - length s) c ++ s

-- `Number(s)` of a text of decimal digits.
unfoldable pub to_number_from : ℕ → Text → ℕ
to_number_from acc [] = acc
to_number_from acc (c ∷ s) = to_number_from (acc * 10 + (c - 48)) s

unfoldable pub to_number : Text → ℕ
unfolding to_number_from
to_number s = to_number_from 0 s
