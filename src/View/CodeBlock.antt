-- ===== src/View/CodeBlock.antt =====
-- The samples of code of portal/components/ui/code-block.tsx. What highlight.js makes of a text is a
-- parameter.
use canonizr_hda.Prelude.{
  ℕ, zero, suc, ◌+◌, ◌-◌, ◌*◌, ◌/◌, ◌%◌, ◌^◌, ◌≤◌, ◌<◌, min, max, ltb, leb, ◌==◌, if◌then◌else◌,
  ltb→lt, lt→ltb, leb→le, le→leb, ==_iff, Bool-cases, Option-cases, &&-eq-true, length,
  length-append, replicate, take, head?, filter, any, all, find?, get_or, is_some, filter-append,
  All, sum, sum-append, Text, text, text_eq, text_eq_iff, text_eq_refl, text_lt, text_lt_irrefl,
  text_lt_asymm, text_lt-append_left, text_lt-append_right, decimal, decimal_from, pad_start, ◌≡◌,
  refl, sym, ap, ◌∙◌, subst, fun_ext, ◌≢◌, ◌↔◌, ◌⊎◌, inl, inr, Bool, true, false, not, ◌&&◌, ◌||◌,
  Option, none, some, List, [], ◌∷◌, ◌++◌, map, append-nil, append_assoc, arith, tests, to_number,
  to_number_from,
}
use canonizr_hda.Keys.Names.{to_lower_case}
use canonizr_hda.View.JobTable.{starts_with}
pub mod Laws

pub record CodeSample : Type 0 where
  pub language : Text
  pub code : Text

-- `s.replace(/c/g, t)` for one unit.
unfoldable pub replace_all : ℕ → Text → Text → Text
replace_all c t [] = []
replace_all c t (x ∷ s) = (if x == c then t else x ∷ []) ++ replace_all c t s

unfoldable pub escape_html : Text → Text
escape_html s =
    replace_all b'>' (text "&gt;")
      (replace_all b'<' (text "&lt;") (replace_all b'&' (text "&amp;") s))

-- The first alternative of the expression that matches at the front of `s`. The terms stand for
-- themselves, since their special characters are escaped.
unfoldable pub first_match : List Text → Text → Option Text
first_match [] s = none
first_match (t ∷ ts) s = if starts_with t s then some t else first_match ts s

abbrev pub accent_start : Text
accent_start = text "<span class=\"hljs-accent\">"

abbrev pub accent_end : Text
accent_end = text "</span>"

-- A match ends when `n` more of its units are copied.
unfoldable pub end_if : ℕ → Text → Text
end_if zero rest = accent_end ++ rest
end_if (suc n) rest = rest

-- A match that begins at the unit `c`; an empty one stands before it.
unfoldable pub accent : Text → ℕ → Text → Text
accent [] c rest = accent_start ++ (accent_end ++ c ∷ rest)
accent (x ∷ t) c rest = accent_start ++ (c ∷ end_if (length t) rest)

-- The replacement of every match, from the left; `n` units of the present match are still to be copied.
unfoldable pub mark : List Text → ℕ → Text → Text
mark ts zero [] = if is_some (first_match ts []) then accent_start ++ accent_end else []
mark ts (suc n) [] = []
mark ts zero (c ∷ s) = elim (first_match ts (c ∷ s)) [
  | none ↦ c ∷ mark ts zero s
  | some t ↦ accent t c (mark ts (length t - 1) s)
]
mark ts (suc n) (c ∷ s) = c ∷ end_if n (mark ts n s)

unfoldable pub accent_highlight : Text → List Text → Text
accent_highlight html [] = html
accent_highlight html (t ∷ ts) = mark (map escape_html (t ∷ ts)) zero html

-- The HTML of a sample; `get_language` gives the highlighter of a language that highlight.js knows.
unfoldable pub highlighted : (Text → Option (Text → Text)) → CodeSample → List Text → Text
highlighted get_language active terms = elim (get_language (to_lower_case active.language)) [
  | none ↦ accent_highlight (escape_html active.code) terms
  | some highlight ↦ accent_highlight (highlight active.code) terms
]
