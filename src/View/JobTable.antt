-- ===== src/View/JobTable.antt =====
-- The table of jobs, portal/components/tables/canonize-user-job-table.tsx, with `displayLabel` of
-- portal/lib/pure/artefacts.ts. The locale's print of a time is a parameter.
use canonizr_hda.Prelude.{
  ℕ, zero, suc, ◌-◌, leb, ◌==◌, if◌then◌else◌, Text, text, decimal, Bool, true, false, ◌&&◌, ◌||◌,
  Option, none, some, List, [], ◌∷◌, ◌++◌, map,
}
use canonizr_hda.Usage.Format.{to_billable_kb}
use canonizr_hda.Usage.Print.{format_kb}
use canonizr_hda.Jobs.Row.{
  ArtefactEntry, CanonizeJobRow, JobState, processing, available, error, expired,
}
use canonizr_hda.View.Exports.{Sheet}
pub mod Laws

-- `s.startsWith(prefix)`
unfoldable pub starts_with : Text → Text → Bool
starts_with [] s = true
starts_with (p ∷ ps) [] = false
starts_with (p ∷ ps) (c ∷ s) = (p == c) && starts_with ps s

-- `\w`
abbrev pub is_word : ℕ → Bool
is_word c =
    (leb b'a' c && leb c b'z')
    || (leb b'A' c && leb c b'Z')
    || (leb b'0' c && leb c b'9')
    || (c == b'_')

abbrev pub upper : ℕ → ℕ
upper c = if leb b'a' c && leb c b'z' then c - 32 else c

-- `replace(/\b\w/g, (c) => c.toUpperCase())`, after a unit that is part of a word or not.
unfoldable pub capitalize : Bool → Text → Text
capitalize in_word [] = []
capitalize in_word (c ∷ s) = (if in_word then c else upper c) ∷ capitalize (is_word c) s

-- `replace(/-/g, " ")`
abbrev pub dash_to_space : ℕ → ℕ
dash_to_space c = if c == b'-' then b' ' else c

unfoldable pub with_page : Text → Option ℕ → Text
with_page s none = s
with_page s (some zero) = s
with_page s (some (suc n)) = s ++ (text " (page " ++ (decimal (suc n) ++ text ")"))

abbrev pub base_name : ArtefactEntry → Text
base_name entry = capitalize false (map dash_to_space entry.name)

abbrev pub label_or : Option Text → Text → Text
label_or none base = base
label_or (some []) base = base
label_or (some (c ∷ s)) base = c ∷ s

unfoldable pub display_label : ArtefactEntry → Text
display_label entry = with_page (label_or entry.label (base_name entry)) entry.source_page

pub record Groups : Type 0 where
  pub previews : List ArtefactEntry
  pub pages : List ArtefactEntry
  pub images : List ArtefactEntry
  pub tables : List ArtefactEntry
  pub other : List ArtefactEntry

abbrev pub no_groups : Groups
no_groups = record { previews = []; pages = []; images = []; tables = []; other = [] }

-- One round of the loop.
unfoldable pub add_artefact : Groups → ArtefactEntry → Groups
add_artefact g a =
    if starts_with (text "preview-") a.name
    then record {
      previews = g.previews ++ (a ∷ []);
      pages = g.pages;
      images = g.images;
      tables = g.tables;
      other = g.other;
    }
    else if starts_with (text "page-") a.name
    then record {
      previews = g.previews;
      pages = g.pages ++ (a ∷ []);
      images = g.images;
      tables = g.tables;
      other = g.other;
    }
    else if starts_with (text "image-") a.name
    then record {
      previews = g.previews;
      pages = g.pages;
      images = g.images ++ (a ∷ []);
      tables = g.tables;
      other = g.other;
    }
    else if starts_with (text "table-") a.name
    then record {
      previews = g.previews;
      pages = g.pages;
      images = g.images;
      tables = g.tables ++ (a ∷ []);
      other = g.other;
    }
    else record {
      previews = g.previews;
      pages = g.pages;
      images = g.images;
      tables = g.tables;
      other = g.other ++ (a ∷ []);
    }

unfoldable pub group_from : Groups → List ArtefactEntry → Groups
group_from g [] = g
group_from g (a ∷ artefacts) = group_from (add_artefact g a) artefacts

unfoldable pub group_artefacts : List ArtefactEntry → Groups
group_artefacts artefacts = group_from no_groups artefacts

-- What the panel of a row shows: a line of text, or the lists of artefacts with their titles, a title
-- standing above each list that is not empty.
pub data Panel : Type 0 where
  line : Text → Panel
  lists : (previews : List ArtefactEntry) (titled : List (Text × List ArtefactEntry)) → Panel

unfoldable pub panel_of : JobState → Panel
panel_of processing = line (text "Processing…")
panel_of (error completed_at message) = line message
panel_of (expired completed_at expired_at) = line (text "Results expired")
panel_of (available completed_at expires_at []) = line (text "No artefacts")
panel_of (available completed_at expires_at (a ∷ artefacts)) =
    let g = group_artefacts (a ∷ artefacts) in
    lists g.previews (([], g.other) ∷ (text "Images", g.images) ∷ (text "Tables", g.tables) ∷ [])

-- `row.status`
unfoldable pub status_text : JobState → Text
status_text processing = text "processing"
status_text (available completed_at expires_at artefacts) = text "ok"
status_text (error completed_at message) = text "error"
status_text (expired completed_at expired_at) = text "expired"

-- The cell of the column "Size".
unfoldable pub size_cell : CanonizeJobRow → Text
size_cell row = format_kb (to_billable_kb row.submission.input_bytes)

module _ (locale_time : Text → Text) where
  unfoldable pub request_cells : CanonizeJobRow → List Text
  request_cells r =
      locale_time r.submission.submitted_at
      ∷ r.submission.key_id
      ∷ r.submission.id
      ∷ format_kb r.submission.input_bytes
      ∷ status_text r.state
      ∷ r.submission.filename
      ∷ r.submission.mime_type
      ∷ []

  unfoldable pub request_export_rows : List CanonizeJobRow → Sheet
  request_export_rows requests = (
    text "Time"
        ∷ text "Key"
        ∷ text "Job ID"
        ∷ text "Size"
        ∷ text "Status"
        ∷ text "File"
        ∷ text "Type"
        ∷ [],
    map request_cells requests,
  )
