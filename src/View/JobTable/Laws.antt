-- ===== src/View/JobTable/Laws.antt =====
-- What the table of jobs shows of the artefacts.
use canonizr_hda.Prelude.{
  refl, Text, text, ◌≡◌, true, false, [], ◌∷◌, arith, List, Bool, Bool-cases, filter, ◌++◌, ◌∙◌,
  inl, not, ap, append_assoc, ◌||◌, inr, append-nil,
}
use canonizr_hda.View.JobTable.{
  starts_with, Groups, ArtefactEntry, group_from, group_artefacts, add_artefact, no_groups,
}

-- Of a name, which of the four tests holds: the first one that does excludes those after it.
Apart : Text → Type 0
Apart s =
    (starts_with (text "preview-") s ≡ true
      → (starts_with (text "page-") s ≡ false)
        × (starts_with (text "image-") s ≡ false)
        × (starts_with (text "table-") s ≡ false))
    × (starts_with (text "page-") s ≡ true
        → (starts_with (text "image-") s ≡ false) × (starts_with (text "table-") s ≡ false))
    × (starts_with (text "image-") s ≡ true → starts_with (text "table-") s ≡ false)

apart : (s : Text) → Apart s
unfolding Apart starts_with text
apart [] = ground arith
apart (c ∷ []) = ground arith
apart (c ∷ d ∷ s) = ground arith

abbrev pub is_preview : ArtefactEntry → Bool
is_preview a = starts_with (text "preview-") a.name

abbrev pub is_page : ArtefactEntry → Bool
is_page a = starts_with (text "page-") a.name

abbrev pub is_image : ArtefactEntry → Bool
is_image a = starts_with (text "image-") a.name

abbrev pub is_table : ArtefactEntry → Bool
is_table a = starts_with (text "table-") a.name

abbrev pub is_other : ArtefactEntry → Bool
is_other a = not (is_preview a || (is_page a || (is_image a || is_table a)))

-- The groups with the artefacts of a list added by their names.
pub by_name : Groups → List ArtefactEntry → Groups
by_name g rest = record {
  previews = g.previews ++ filter is_preview rest;
  pages = g.pages ++ filter is_page rest;
  images = g.images ++ filter is_image rest;
  tables = g.tables ++ filter is_table rest;
  other = g.other ++ filter is_other rest;
}

abbrev groups :
    List ArtefactEntry
    → List ArtefactEntry
    → List ArtefactEntry
    → List ArtefactEntry
    → List ArtefactEntry
    → Groups
groups p g i t o = record { previews = p; pages = g; images = i; tables = t; other = o }

by_name-add_artefact :
    (g : Groups) (a : ArtefactEntry) (rest : List ArtefactEntry)
    → by_name (add_artefact g a) rest ≡ by_name g (a ∷ rest)
unfolding by_name add_artefact Apart
by_name-add_artefact g a rest =
    let sides = apart a.name in
    elim (Bool-cases (is_preview a)) [
      | inl p ↦
          let r = sides.0 p in
          rw (p, r.0, r.1, r.2, append_assoc g.previews (a ∷ []) (filter is_preview rest)) refl
      | inr p ↦ elim (Bool-cases (is_page a)) [
        | inl q ↦
            let r = sides.1 q in
            rw (p, q, r.0, r.1, append_assoc g.pages (a ∷ []) (filter is_page rest)) refl
        | inr q ↦ elim (Bool-cases (is_image a)) [
          | inl i ↦
              rw (p, q, i, sides.2 i, append_assoc g.images (a ∷ []) (filter is_image rest)) refl
          | inr i ↦ elim (Bool-cases (is_table a)) [
            | inl t ↦ rw (p, q, i, t, append_assoc g.tables (a ∷ []) (filter is_table rest)) refl
            | inr t ↦ rw (p, q, i, t, append_assoc g.other (a ∷ []) (filter is_other rest)) refl
          ]
        ]
      ]
    ]

group_from-by_name : (g : Groups) (rest : List ArtefactEntry) → group_from g rest ≡ by_name g rest
unfolding group_from
group_from-by_name g [] =
    unfold by_name in
    rw
      (
        append-nil g.previews,
        append-nil g.pages,
        append-nil g.images,
        append-nil g.tables,
        append-nil g.other,
      )
      refl
group_from-by_name g (a ∷ rest) =
    group_from-by_name (add_artefact g a) rest ∙ by_name-add_artefact g a rest

-- Each group holds the artefacts whose names start with its prefix, in the order of the manifest, and
-- the last group those whose names start with none of the four.
pub group_artefacts_lem :
    (rest : List ArtefactEntry)
    → ((group_artefacts rest).previews ≡ filter is_preview rest)
      × ((group_artefacts rest).pages ≡ filter is_page rest)
      × ((group_artefacts rest).images ≡ filter is_image rest)
      × ((group_artefacts rest).tables ≡ filter is_table rest)
      × ((group_artefacts rest).other ≡ filter is_other rest)
unfolding group_artefacts by_name
group_artefacts_lem rest =
    let e = group_from-by_name no_groups rest in
    (
      ap (λ g. g.previews) e,
      ap (λ g. g.pages) e,
      ap (λ g. g.images) e,
      ap (λ g. g.tables) e,
      ap (λ g. g.other) e,
    )
