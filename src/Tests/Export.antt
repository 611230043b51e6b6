-- ===== src/Tests/Export.antt =====
-- A table as CSV at a concrete input.
use canonizr_hda.Prelude.{Text, text, ◌≡◌, List, [], ◌∷◌}
use canonizr_hda.Export.{to_csv}
use canonizr_hda.Export.Laws.{start, read, read-to_csv}

abbrev quoted_cells : List (List Text)
quoted_cells = (text "say \"hi\", twice" ∷ [] ∷ []) ∷ (text "b" ∷ text "c" ∷ []) ∷ []

read-to_csv_example :
    read start (to_csv (text "Name" ∷ text "Size" ∷ []) quoted_cells)
    ≡ (text "Name" ∷ text "Size" ∷ []) ∷ quoted_cells
read-to_csv_example = read-to_csv (text "Name" ∷ text "Size" ∷ []) quoted_cells (tt, (tt, (tt, tt)))
