-- ===== src/Export.antt =====
-- Tables as text, portal/lib/pure/table-export.ts. The download in the browser is not modelled.
use canonizr_hda.Prelude.{
  ℕ, max, ◌==◌, if◌then◌else◌, length, replicate, any, Text, text, Bool, ◌||◌, List, [], ◌∷◌, ◌++◌,
  map,
}
pub mod Laws

abbrev pub is_special : ℕ → Bool
is_special c = (c == 34) || ((c == 44) || (c == 10))

-- `v.replace(/"/g, '""')`
unfoldable pub double_quotes : Text → Text
double_quotes [] = []
double_quotes (c ∷ v) = let rest = double_quotes v in if c == 34 then 34 ∷ 34 ∷ rest else c ∷ rest

unfoldable pub escape : Text → Text
escape v = if any is_special v then 34 ∷ (double_quotes v ++ (34 ∷ [])) else v

-- `xs.join(sep)`, for a separator of one unit and for any.
unfoldable pub join : ℕ → List Text → Text
join sep [] = []
join sep (x ∷ []) = x
join sep (x ∷ y ∷ ys) = x ++ (sep ∷ join sep (y ∷ ys))

unfoldable pub join_by : Text → List Text → Text
join_by sep [] = []
join_by sep (x ∷ []) = x
join_by sep (x ∷ y ∷ ys) = x ++ (sep ++ join_by sep (y ∷ ys))

unfoldable pub csv_line : List Text → Text
csv_line row = join 44 (map escape row)

unfoldable pub to_csv : List Text → List (List Text) → Text
to_csv headers rows = join 10 (csv_line headers ∷ map csv_line rows)

unfoldable pub pipe : List Text → Text
pipe cells = text "| " ++ (join_by (text " | ") cells ++ text " |")

unfoldable pub to_markdown : List Text → List (List Text) → Text
to_markdown headers rows =
    join 10
      (pipe headers ∷ pipe (map (λ h. replicate (max 3 (length h)) 45) headers) ∷ map pipe rows)
