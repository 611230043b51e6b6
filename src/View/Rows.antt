-- ===== src/View/Rows.antt =====
-- The state of a table of rows of its own, portal/components/ui/data-table.tsx, the width of
-- portal/lib/hooks/use-container-wide.ts, and the strip of previews,
-- portal/components/ui/preview-strip.tsx. Sorting and paging are another package's.
use canonizr_hda.Prelude.{
  ℕ, zero, suc, ◌+◌, leb, if◌then◌else◌, length, take, Text, text, text_eq, Bool, true, false,
  Option, none, some, List, [], ◌∷◌, ◌++◌,
}
use canonizr_hda.Jobs.Row.{ArtefactEntry}

-- A layout is what is chosen for narrow tables, or the table's own.
unfoldable pub active {ℓ} : {A : Type ℓ} → Option A → Bool → A → A
active none wide own = own
active (some mobile) true own = own
active (some mobile) false own = mobile

-- The breakpoint in pixels, where there is a narrow layout; 640 if it has none of its own.
unfoldable pub breakpoint_of : Option (Option ℕ) → ℕ
breakpoint_of none = 0
breakpoint_of (some none) = 640
breakpoint_of (some (some px)) = px

-- Whether the container is wide, after its width was observed.
unfoldable pub is_wide : ℕ → Option ℕ → Bool
is_wide zero width = true
is_wide (suc px) none = true
is_wide (suc px) (some w) = leb (suc px) w

abbrev pub is_expanded : Option Text → Text → Bool
is_expanded none row = false
is_expanded (some id) row = text_eq id row

-- The row that is expanded, after a click on a row.
unfoldable pub toggle_row : Text → Option Text → Option Text
toggle_row row expanded = if is_expanded expanded row then none else some row

unfoldable pub col_count : ℕ → Bool → ℕ
col_count headers has_expand = if has_expand then headers + 1 else headers

abbrev pub drop {ℓ} : {A : Type ℓ} → ℕ → List A → List A
drop zero xs = xs
drop (suc n) [] = []
drop (suc n) (x ∷ xs) = drop n xs

-- `name.replace("preview-", "")`: the first occurrence is dropped.
unfoldable pub without : Text → Text → Text
without part [] = []
without part (c ∷ s) =
    let rest = c ∷ without part s in
    if text_eq (take (length part) (c ∷ s)) part then drop (length part) (c ∷ s) else rest

unfoldable pub page_num : ArtefactEntry → Text
page_num p = without (text "preview-") p.name

-- The page that a preview links to, and its label.
unfoldable pub page_name : ArtefactEntry → Text
page_name p = text "page-" ++ page_num p

unfoldable pub page_label : ArtefactEntry → Text
page_label p = text "Page " ++ page_num p
