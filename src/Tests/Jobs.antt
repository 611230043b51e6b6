-- ===== src/Tests/Jobs.antt =====
-- Jobs and their traces at concrete inputs.
use canonizr_hda.Prelude.{
  refl, ℕ, ◌≤◌, if◌then◌else◌, filter, sum, Text, text, ◌≡◌, ◌↔◌, true, Option, none, some, List,
  [], ◌∷◌, map, to_number, text_eq,
}
use canonizr_hda.Storage.Entity.{str}
use canonizr_hda.Storage.Rows.{Row}
use canonizr_hda.World.Actions.{ok, World}
use canonizr_hda.Tables.TableName
use canonizr_hda.Trace.{Attributes, SpanNode, span, leaf, cons, flatten_spans}
use canonizr_hda.Trace.Laws.{NoOverlap, flatten_spans-NoOverlap}
use canonizr_hda.Usage.Format.{to_billable_kb}
use canonizr_hda.Jobs.Table.{JobRecord, job_of}
use canonizr_hda.Jobs.Table
use canonizr_hda.Jobs.Row.{
  ArtefactEntry, CanonizeJobRow, available, submission_of, to_canonize_job_row,
}
use canonizr_hda.World.Time.{iso_string}
use canonizr_hda.Jobs.Row.Laws.{is_available, expiry_of, to_canonize_job_row-is_available_iff}
use canonizr_hda.Jobs.Stats.{JobSummaryInput, aggregate_jobs, aggregate_from, count_job}
use canonizr_hda.Jobs.Usage.{counts, is_completed_since, reconstruct_usage_from_table}
use canonizr_hda.Jobs.Usage.Laws.{bytes_of, reconstruct_usage_from_table_lem}
use canonizr_hda.Tests.Memory.{memory_env, world_on}
use Prim.Native.String.{String}
use package.text.Mathlib.Text.{◌==◌ as str_eq}

abbrev pub no_attributes : Attributes
no_attributes = record {
  prompt_tokens = none;
  completion_tokens = none;
  model = none;
  total_retries = none;
  total_retry_delay_ms = none;
  file_size_bytes = none;
}

-- Two children that overlap, and one that follows the first.
abbrev trace : SpanNode
trace = span (text "job") (some 0) (some 100) no_attributes (
    cons (span (text "docling") (some 10) (some 50) no_attributes leaf) (
      cons (span (text "captioning") (some 20) (some 60) no_attributes leaf)
        (cons (span (text "thumbnails") (some 60) none no_attributes leaf) leaf)))

flatten_spans-NoOverlap_example : NoOverlap (flatten_spans trace)
flatten_spans-NoOverlap_example = flatten_spans-NoOverlap trace

abbrev dates : Text → Option ℕ
dates s = some (to_number s)

abbrev no_array : Text → Option (List ArtefactEntry)
no_array s = none

abbrev finished : JobRecord
finished = record {
  id = text "j1";
  timestamp = text "1000";
  completed_at = some (text "2000");
  key_id = text "key-1";
  job_type = text "canonize";
  billable_kb = 100;
  status = Table.ok;
  retention_expires = none;
  detail = none;
  original_filename = none;
  mime_type = none;
  input_bytes = 5;
  artefacts = none;
  price_per_unit = none;
}

to_canonize_job_row-is_available_iff_example :
    (is_available (to_canonize_job_row dates no_array 3000 finished) ≡ true) ↔ (
      (finished.status ≡ Table.ok)
      × (t : ℕ) × (expiry_of dates finished finished.retention_expires ≡ some t)
      × (3000 ≤ t))
to_canonize_job_row-is_available_iff_example =
    to_canonize_job_row-is_available_iff dates no_array 3000 finished

abbrev two_jobs : List JobSummaryInput
two_jobs =
    record { timestamp = text "50"; input_bytes = 7; status = text "ok" }
    ∷ record { timestamp = text "150"; input_bytes = 120000; status = text "error" }
    ∷ []

aggregate_run :
    aggregate_jobs dates 100 two_jobs ≡ record { count = 1; error_count = 1; billable_kb = 200 }
unfolding aggregate_jobs aggregate_from to_number text count_job text_eq to_billable_kb
aggregate_run = refl

abbrev done_job : Row
done_job = record {
  partition_key = text "u1";
  row_key = text "r1";
  entity =
      ("key_id", str (text "key-1"))
      ∷ ("status", str (text "ok"))
      ∷ ("completed_at", str (text "2024-02-20T10:00:00Z"))
      ∷ ("input_bytes", str (text "250000"))
      ∷ [];
}

abbrev with_job : String → List Row
with_job t = if str_eq t TableName.gw_user_jobs then done_job ∷ [] else []

abbrev start : World (memory_env (text "active"))
start = world_on (text "active") with_job

reconstruct_usage_from_table_lem_example :
    (reconstruct_usage_from_table (text "u1") (text "2024-02-01") start).0
    ≡ ok (
        sum (
          map bytes_of (
            filter counts (
              filter
                (is_completed_since (text "u1") (text "2024-02-01"))
                (with_job TableName.gw_user_jobs)))))
reconstruct_usage_from_table_lem_example =
    reconstruct_usage_from_table_lem (text "u1") (text "2024-02-01") start

abbrev shown_rows : List CanonizeJobRow
shown_rows =
    record {
      submission = submission_of finished;
      state = available (text "2000") (iso_string 86402000) [];
    }
    ∷ []
