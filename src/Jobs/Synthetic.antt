-- ===== src/Jobs/Synthetic.antt =====
-- Jobs made up for stories and tests, portal/lib/data/synthetic.ts: a generator of 32-bit numbers and
-- what is drawn from it. A drawn number stands for its quotient by 2 ^ 32. Times are exact fractions
-- that are cut off to whole milliseconds; the source adds doubles. `JSON.stringify` is a parameter.
use canonizr_hda.Prelude.{
  ℕ, zero, suc, ◌+◌, ◌-◌, ◌*◌, ◌/◌, ◌%◌, ◌^◌, ltb, leb, ◌==◌, if◌then◌else◌, length, take, Text,
  text, text_eq, decimal, pad_start, Bool, true, false, ◌||◌, Option, none, some, List, [], ◌∷◌,
  ◌++◌,
}
use Prim.Native.Nat.{bit_or, bit_xor}
use canonizr_hda.Storage.Entity.{str}
use canonizr_hda.World.Time.{iso_string}
use canonizr_hda.Usage.Format.{to_billable_kb}
use canonizr_hda.Jobs.Table.{Status, JobRecord}
use canonizr_hda.Jobs.Table
use canonizr_hda.Jobs.Row.{ArtefactEntry}
pub mod Laws

abbrev pub word : ℕ
word = 2 ^ 32

-- `Math.imul`
abbrev pub imul : ℕ → ℕ → ℕ
imul a b = a * b % word

-- The next state, and the number that it gives.
unfoldable pub next_seed : ℕ → ℕ
next_seed seed = (seed + 0x6d2b79f5) % word

unfoldable pub mix : ℕ → ℕ
mix s =
    let t = imul (bit_xor s (s / 2 ^ 15)) (bit_or 1 s) in
    let u = bit_xor ((t + imul (bit_xor t (t / 2 ^ 7)) (bit_or 61 t)) % word) t in
    bit_xor u (u / 2 ^ 14) % word

unfoldable pub mulberry32 : ℕ → ℕ × ℕ
mulberry32 seed = (mix (next_seed seed), next_seed seed)

-- `Math.floor(rand() * n)`
unfoldable pub draw_below : ℕ → ℕ → ℕ
draw_below r n = r * n / word

-- `xs[n]` of an array that is not empty, for an index in it.
abbrev pub at : {A : Type 0} → ℕ → A → List A → A
at zero x xs = x
at (suc n) x [] = x
at (suc n) x (y ∷ ys) = at n y ys

unfoldable pub pick : {A : Type 0} → ℕ → A → List A → A
pick r x xs = at (draw_below r (suc (length xs))) x xs

pub record SampleFile : Type 0 where
  pub name : Text
  pub mime : Text
  pub bytes : ℕ

abbrev file : Text → Text → ℕ → SampleFile
file name mime bytes = record { name = name; mime = mime; bytes = bytes }

abbrev office : Text → Text
office kind = text "application/vnd.openxmlformats-officedocument." ++ kind

-- FILES, the first of them apart.
unfoldable pub first_file : SampleFile
first_file = file (text "annual-report-2025.pdf") (text "application/pdf") 2150400

unfoldable pub other_files : List SampleFile
other_files =
    file (text "invoice-march.docx") (office (text "wordprocessingml.document")) 204800
    ∷ file (text "scan-001.png") (text "image/png") 98304
    ∷ file (text "memo.txt") (text "text/plain") 12288
    ∷ file (text "presentation.pptx") (office (text "presentationml.presentation")) 102400
    ∷ file (text "spreadsheet.xlsx") (office (text "spreadsheetml.sheet")) 76800
    ∷ file (text "receipt.jpg") (text "image/jpeg") 85000
    ∷ file (text "contract-draft-v3.pdf") (text "application/pdf") 2662400
    ∷ file (text "huge-manual.pdf") (text "application/pdf") 4300800
    ∷ file (text "old-report.doc") (text "application/msword") 1024000
    ∷ []

-- ERROR_MESSAGES, the first of them apart.
unfoldable pub first_message : Text
first_message = text "Processing timeout after 120s"

unfoldable pub other_messages : List Text
other_messages =
    text "Unsupported file type: application/x-executable"
    ∷ text "Docling extraction failed: corrupt PDF structure"
    ∷ text "Upstream service unavailable (502)"
    ∷ text "Rate limit exceeded. Try again in 60 seconds."
    ∷ []

abbrev entry : Text → Text → ℕ → Option Text → Option ℕ → ArtefactEntry
entry name mime size label page = record {
  name = name;
  mime_type = mime;
  size_bytes = size;
  label = label;
  source_page = page;
}

abbrev numbered : Text → ℕ → Text
numbered name i = name ++ decimal i

-- The loops, for `i` from a number on, so many times.
unfoldable pub page_entries : ℕ → ℕ → List ArtefactEntry
page_entries zero i = []
page_entries (suc n) i =
    entry (numbered (text "page-") i) (text "image/png") (140000 + i * 2000) none none
    ∷ entry (numbered (text "preview-") i) (text "image/webp") (8000 + i * 500) none none
    ∷ page_entries n (i + 1)

unfoldable pub image_entries : ℕ → ℕ → List ArtefactEntry
image_entries zero i = []
image_entries (suc n) i =
    entry (numbered (text "image-") i) (text "image/png") (50000 + i * 4000)
      (some (if i == 1 then text "Figure" else text "Chart")) (some (i + 1))
    ∷ image_entries n (i + 1)

unfoldable pub table_entries : ℕ → ℕ → List ArtefactEntry
table_entries zero i = []
table_entries (suc n) i =
    entry (numbered (text "table-") i) (text "application/json") (2000 + i * 800) none
      (some (i + 1))
    ∷ table_entries n (i + 1)

unfoldable pub pdf_artefacts : (pages images tables : ℕ) → List ArtefactEntry
pdf_artefacts pages images tables =
    entry (text "markdown") (text "text/markdown") 8420 (some (text "Extracted text")) none
    ∷ (page_entries pages 1 ++ (image_entries images 1 ++ table_entries tables 1))

-- The manifest of a file, and the state of the generator after it.
unfoldable pub artefacts_for_file : Text → ℕ → List ArtefactEntry × ℕ
artefacts_for_file mime seed =
    let pages = mulberry32 seed in
    let images = mulberry32 pages.1 in
    let tables = mulberry32 images.1 in
    if text_eq mime (text "application/pdf") || text_eq mime (text "application/msword")
    then (
      pdf_artefacts (draw_below pages.0 8 + 1) (draw_below images.0 4) (draw_below tables.0 3),
      tables.1,
    )
    else if text_eq (take 6 mime) (text "image/")
    then (entry (text "image-1") (text "image/png") 95000 none none ∷ [], seed)
    else (entry (text "markdown") (text "text/markdown") 1200 none none ∷ [], seed)

unfoldable pub status_for : ℕ → Status
status_for roll =
    if ltb (roll * 100) (10 * word)
    then Table.processing
    else if ltb (roll * 100) (25 * word)
    then Table.error
    else if ltb (roll * 100) (35 * word)
    then Table.deleted
    else Table.ok

abbrev is_processing : Status → Bool
is_processing Table.processing = true
is_processing Table.ok = false
is_processing Table.error = false
is_processing Table.deleted = false

module _ (stringify : List ArtefactEntry → Text) (now : ℕ) where
  -- The times of a job: submitted, completed, and kept until; and what is drawn for its state.
  unfoldable pub artefacts_if : Status → SampleFile → ℕ → ℕ → Option Text × ℕ
  artefacts_if Table.ok f expires seed =
      let made = artefacts_for_file f.mime seed in
      if leb now expires then (some (stringify made.0), made.1) else (none, seed)
  artefacts_if _ f expires seed = (none, seed)

  unfoldable pub detail_if : Status → ℕ → Option Text × ℕ
  detail_if Table.error seed =
      let r = mulberry32 seed in (some (pick r.0 first_message other_messages), r.1)
  detail_if _ seed = (none, seed)

  unfoldable pub submitted_at : (i r : ℕ) → ℕ
  submitted_at i r = (now * word - (i * 1500000 * word + r * 1200000)) / word

  unfoldable pub completed_at : (submitted r : ℕ) → ℕ
  completed_at submitted r = submitted + (1000 * word + r * 29000) / word

  -- One round of the loop, for keys of which the first is given apart.
  unfoldable pub synthetic_job : Text → List Text → (i seed : ℕ) → JobRecord × ℕ
  synthetic_job key keys i seed =
      let age = mulberry32 seed in
      let which = mulberry32 age.1 in
      let whose = mulberry32 which.1 in
      let roll = mulberry32 whose.1 in
      let took = mulberry32 roll.1 in
      let f = pick which.0 first_file other_files in
      let submitted = submitted_at i age.0 in
      let completed = completed_at submitted took.0 in
      let expires = completed + 86400000 in
      let status = status_for roll.0 in
      let artefacts = artefacts_if status f expires took.1 in
      let detail = detail_if status artefacts.1 in
      (
        record {
          id = text "job-" ++ pad_start 3 48 (decimal i);
          timestamp = iso_string submitted;
          completed_at = if is_processing status then none else some (iso_string completed);
          key_id = pick whose.0 key keys;
          job_type = text "canonize";
          billable_kb = to_billable_kb f.bytes;
          status = status;
          retention_expires = if is_processing status then none else some (iso_string expires);
          detail = detail.0;
          original_filename = some f.name;
          mime_type = some f.mime;
          input_bytes = f.bytes;
          artefacts = artefacts.0;
          price_per_unit = some (str (text "0.003"));
        },
        detail.1,
      )

  unfoldable pub synthetic_jobs : Text → List Text → (n i seed : ℕ) → List JobRecord
  synthetic_jobs key keys zero i seed = []
  synthetic_jobs key keys (suc n) i seed =
      let made = synthetic_job key keys i seed in made.0 ∷ synthetic_jobs key keys n (i + 1) made.1

  unfoldable pub generate_synthetic_user : Text → List Text → (count seed : ℕ) → List JobRecord
  generate_synthetic_user key keys count seed = synthetic_jobs key keys count 0 seed
