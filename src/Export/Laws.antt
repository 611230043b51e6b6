-- ===== src/Export/Laws.antt =====
-- The CSV text is read back by a reader of RFC 4180, with line feeds for line ends.
use canonizr_hda.Prelude.{
  ℕ, ◌==◌, if◌then◌else◌, ==_iff, Bool-cases, any, All, Text, ◌≡◌, refl, sym, ap, ◌∙◌, inl, inr,
  false, List, [], ◌∷◌, ◌++◌, map, append-nil, append_assoc, arith,
}
use canonizr_hda.Export.{is_special, double_quotes, escape, join, csv_line, to_csv}

-- Where a reader is: before a field, in an unquoted one, in a quoted one, or after a quote in one.
pub data Mode : Type 0 where
  start plain quoted closing : Mode

-- The rows that are read, the first of which starts with the rest of the current field.
abbrev Rows : Type 0
Rows = List (List Text)

unfoldable pub push : ℕ → Rows → Rows
push c [] = []
push c ([] ∷ rs) = [] ∷ rs
push c ((f ∷ r) ∷ rs) = ((c ∷ f) ∷ r) ∷ rs

unfoldable pub new_field : Rows → Rows
new_field [] = []
new_field (r ∷ rs) = ([] ∷ r) ∷ rs

-- What a reader makes of a text.
unfoldable pub read : Mode → Text → Rows
read m [] = ([] ∷ []) ∷ []
read start (c ∷ s) =
    let in_quotes = read quoted s in
    let field = new_field (read start s) in
    let line = read start s in
    let rest = push c (read plain s) in
    if c == 34
    then in_quotes
    else if c == 44
    then field
    else if c == 10
    then ([] ∷ []) ∷ line
    else rest
read plain (c ∷ s) =
    let field = new_field (read start s) in
    let line = read start s in
    let rest = push c (read plain s) in
    if c == 44 then field else if c == 10 then ([] ∷ []) ∷ line else rest
read quoted (c ∷ s) =
    let close = read closing s in
    let rest = push c (read quoted s) in if c == 34 then close else rest
read closing (c ∷ s) =
    let quote = push 34 (read quoted s) in
    let field = new_field (read start s) in
    let line = read start s in
    let rest = push c (read plain s) in
    if c == 34 then quote else if c == 44 then field else if c == 10 then ([] ∷ []) ∷ line else rest

unfoldable push_all : Text → Rows → Rows
push_all [] rs = rs
push_all (c ∷ v) rs = push c (push_all v rs)

-- A field that follows a comma or a line feed, or ends the text.
abbrev IsEnd : Text → Type 0
IsEnd t = ((read start t ≡ read plain t) × (read closing t ≡ read plain t))

read-plain :
    (v t : Text) → any is_special v ≡ false → read plain (v ++ t) ≡ push_all v (read plain t)
unfolding read push_all
read-plain [] t h = refl
read-plain (c ∷ v) t h = ground (arith, read-plain v t)

read-quoted : (v t : Text) → read quoted (double_quotes v ++ (34 ∷ t)) ≡ push_all v (read closing t)
unfolding read push_all double_quotes
read-quoted [] t = refl
read-quoted (c ∷ v) t = elim (Bool-cases (c == 34)) [
  | inl quote ↦
      let same : c ≡ 34 = (==_iff c 34).0 quote in
      rw quote
        (ap (push 34) (read-quoted v t) ∙ ap (λ d. push d (push_all v (read closing t))) (sym same))
  | inr other ↦ rw (other, other) (ap (push c) (read-quoted v t))
]

read-start :
    (v t : Text)
    → any is_special v ≡ false
    → IsEnd t
    → read start (v ++ t) ≡ push_all v (read plain t)
unfolding read push_all
read-start [] t h (same, k) = same
read-start (c ∷ v) t h e = ground (arith, read-plain v t)

read-escape : (v t : Text) → IsEnd t → read start (escape v ++ t) ≡ push_all v (read plain t)
unfolding escape read
read-escape v t e = elim (Bool-cases (any is_special v)) [
  | inl special ↦
      rw (special, append_assoc (double_quotes v) (34 ∷ []) t)
        (read-quoted v t ∙ ap (push_all v) e.1)
  | inr simple ↦ rw simple (read-start v t simple e)
]

-- The rows after one that ends here.
unfoldable following : Text → Rows
following [] = []
following (c ∷ s) = read start s

-- The text ends, or a line feed follows.
abbrev IsLineEnd : Text → Type 0
IsLineEnd t = IsEnd t × (read plain t ≡ ([] ∷ []) ∷ following t)

end-IsLineEnd : IsLineEnd []
unfolding read following
end-IsLineEnd = ((refl, refl), refl)

feed-IsLineEnd : (s : Text) → IsLineEnd (10 ∷ s)
unfolding read following
feed-IsLineEnd s = ((refl, refl), refl)

comma-IsEnd : (s : Text) → IsEnd (44 ∷ s) × (read plain (44 ∷ s) ≡ new_field (read start s))
unfolding read
comma-IsEnd s = ((refl, refl), refl)

push_all-first : (v : Text) (r : List Text) (rs : Rows) → push_all v (([] ∷ r) ∷ rs) ≡ (v ∷ r) ∷ rs
unfolding push_all push
push_all-first [] r rs = refl
push_all-first (c ∷ v) r rs = rw (push_all-first v r rs) refl

read-csv_line :
    (x : Text) (xs : List Text) (t : Text)
    → IsLineEnd t
    → read start (csv_line (x ∷ xs) ++ t) ≡ (x ∷ xs) ∷ following t
unfolding csv_line join new_field
read-csv_line x [] t (end, line) = read-escape x t end ∙ rw line (push_all-first x [] (following t))
read-csv_line x (y ∷ ys) t e =
    let u : Text = csv_line (y ∷ ys) ++ t in
    let (end, comma) = comma-IsEnd u in
    let rest = ap new_field (read-csv_line y ys t e) in
    rw (append_assoc (escape x) (44 ∷ csv_line (y ∷ ys)) t) (
      read-escape x (44 ∷ u) end
      ∙ (ap (push_all x) (comma ∙ rest) ∙ push_all-first x (y ∷ ys) (following t)))

-- A row of a table has a cell.
abbrev pub IsRow : List Text → Type 0
IsRow [] = ⊥
IsRow (x ∷ xs) = Unit

read-lines :
    (row : List Text) (rows : List (List Text))
    → All IsRow (row ∷ rows)
    → read start (join 10 (csv_line row ∷ map csv_line rows)) ≡ row ∷ rows
unfolding join following
read-lines [] rows (h, hs) = absurd h
read-lines (x ∷ xs) [] h =
    ap (read start) (sym (append-nil (csv_line (x ∷ xs)))) ∙ read-csv_line x xs [] end-IsLineEnd
read-lines (x ∷ xs) (r ∷ rs) (h, hs) =
    let s : Text = join 10 (csv_line r ∷ map csv_line rs) in
    read-csv_line x xs (10 ∷ s) (feed-IsLineEnd s)
    ∙ ap (λ later. (x ∷ xs) ∷ later) (read-lines r rs hs)

-- If the header and every row have a cell, a reader of CSV gets exactly the header and the rows from
-- the text, whatever commas, quotes and line feeds the cells hold.
pub read-to_csv :
    (headers : List Text) (rows : List (List Text))
    → All IsRow (headers ∷ rows)
    → read start (to_csv headers rows) ≡ headers ∷ rows
unfolding to_csv
read-to_csv headers rows h = read-lines headers rows h
