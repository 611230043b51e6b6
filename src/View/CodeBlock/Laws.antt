-- ===== src/View/CodeBlock/Laws.antt =====
-- What a reader of HTML gets from the samples of portal/components/ui/code-block.tsx.
use canonizr_hda.Prelude.{
  ℕ, zero, suc, ◌==◌, if◌then◌else◌, ==_iff, Bool-cases, all, Text, text, ◌≡◌, refl, sym, ap, ◌∙◌,
  inl, inr, Bool, true, false, not, Option, none, some, [], ◌∷◌, ◌++◌, arith,
}
use canonizr_hda.Keys.Names.{to_lower_case}
use canonizr_hda.View.JobTable.{starts_with}
use canonizr_hda.View.CodeBlock.{
  CodeSample, replace_all, escape_html, accent_highlight, highlighted,
}

-- The character that the front of a text stands for, with the number of units behind the first.
unfoldable pub entity : Text → Option (ℕ × ℕ)
entity s =
    if starts_with (text "&amp;") s
    then some (b'&', 4)
    else if starts_with (text "&lt;") s
    then some (b'<', 3)
    else if starts_with (text "&gt;") s
    then some (b'>', 3)
    else none

-- HTML with its character references read, `n` units of the present one left out.
unfoldable pub decode : ℕ → Text → Text
decode n [] = []
decode (suc n) (c ∷ s) = decode n s
decode zero (c ∷ s) = elim (entity (c ∷ s)) [
  | none ↦ c ∷ decode zero s
  | some found ↦ found.0 ∷ decode found.1 s
]

-- What `escape_html` makes of one unit.
abbrev escaped : ℕ → Text
escaped c =
    if c == b'&'
    then text "&amp;"
    else if c == b'<'
    then text "&lt;"
    else if c == b'>'
    then text "&gt;"
    else c ∷ []

escape_html-cons : (c : ℕ) (s : Text) → escape_html (c ∷ s) ≡ escaped c ++ escape_html s
unfolding escape_html replace_all text
escape_html-cons c s = elim (Bool-cases (c == b'&')) [
  | inl h ↦ rw h refl
  | inr h ↦ elim (Bool-cases (c == b'<')) [
    | inl h' ↦ rw (h, h') refl
    | inr h' ↦ elim (Bool-cases (c == b'>')) [
      | inl h'' ↦ rw (h, h', h'') refl
      | inr h'' ↦ rw (h, h', h'') refl
    ]
  ]
]

==-flip : (c k : ℕ) → (c == k) ≡ false → (k == c) ≡ false
==-flip c k h = ground arith

entity-other : (c : ℕ) (s : Text) → (c == b'&') ≡ false → entity (c ∷ s) ≡ none
unfolding entity starts_with text
entity-other c s h = rw (==-flip c b'&' h) refl

decode-other : (c : ℕ) (s : Text) → (c == b'&') ≡ false → decode 0 (c ∷ s) ≡ c ∷ decode 0 s
unfolding decode
decode-other c s h =
    ap
      (λ o. elim o as (λ _. Text) [
        | none ↦ c ∷ decode 0 s
        | some found ↦ found.0 ∷ decode found.1 s
      ])
      (entity-other c s h)

-- A unit that is read as `k` before a text that is read as `s`.
cons_of : (c k : ℕ) (r s : Text) → (c == k) ≡ true → r ≡ s → k ∷ r ≡ c ∷ s
cons_of c k r s h e = ap (λ x. x ∷ r) (sym ((==_iff c k).0 h)) ∙ ap (◌∷◌ c) e

decode-escape_html : (s : Text) → decode 0 (escape_html s) ≡ s
unfolding escape_html decode replace_all entity starts_with text
decode-escape_html [] = refl
decode-escape_html (c ∷ s) =
    let rest = decode-escape_html s in
    ap (decode 0) (escape_html-cons c s) ∙ (elim (Bool-cases (c == b'&')) [
      | inl h ↦ rw h (cons_of c b'&' _ s h rest)
      | inr h ↦ elim (Bool-cases (c == b'<')) [
        | inl h' ↦ rw (h, h') (cons_of c b'<' _ s h' rest)
        | inr h' ↦ elim (Bool-cases (c == b'>')) [
          | inl h'' ↦ rw (h, h', h'') (cons_of c b'>' _ s h'' rest)
          | inr h'' ↦ rw (h, h', h'') (decode-other c (escape_html s) h ∙ ap (◌∷◌ c) rest)
        ]
      ]
    ])

-- No tag begins in the text.
unfoldable pub no_tag : Text → Bool
no_tag s = all (λ c. not (c == b'<')) s

no_tag-escape_html : (s : Text) → no_tag (escape_html s) ≡ true
unfolding no_tag escape_html replace_all text
no_tag-escape_html [] = refl
no_tag-escape_html (c ∷ s) =
    let rest = no_tag-escape_html s in
    ap no_tag (escape_html-cons c s) ∙ (elim (Bool-cases (c == b'&')) [
      | inl h ↦ rw h rest
      | inr h ↦ elim (Bool-cases (c == b'<')) [
        | inl h' ↦ rw (h, h') rest
        | inr h' ↦ elim (Bool-cases (c == b'>')) [
          | inl h'' ↦ rw (h, h', h'') rest
          | inr h'' ↦ rw (h, h', h'') (rw h' rest)
        ]
      ]
    ])

-- Where highlight.js does not know the language of a sample and no terms are accented, no tag begins
-- in the HTML, and a reader of character references gets the code from it.
pub highlighted_lem :
    (get_language : Text → Option (Text → Text)) (active : CodeSample)
    → get_language (to_lower_case active.language) ≡ none
    → (no_tag (highlighted get_language active []) ≡ true)
      × (decode 0 (highlighted get_language active []) ≡ active.code)
unfolding highlighted accent_highlight
highlighted_lem get_language active h =
    rw (h, highlighted) (no_tag-escape_html active.code, decode-escape_html active.code)
