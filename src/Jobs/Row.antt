-- ===== src/Jobs/Row.antt =====
-- How a job is shown: `toCanonizeJobRow` of portal/lib/data/jobs.ts, with the types of
-- portal/lib/pure/job-types.ts. `new Date(text)` and `JSON.parse` are parameters: the time of a text,
-- `none` for an invalid date, and the array that a text spells, `none` for another text. An invalid
-- date that is printed throws.
use canonizr_hda.Prelude.{
  ℕ, zero, suc, ◌+◌, ◌-◌, ◌*◌, ◌/◌, ◌%◌, ◌^◌, ◌≤◌, ◌<◌, min, max, ltb, leb, ◌==◌, if◌then◌else◌,
  ltb→lt, lt→ltb, leb→le, le→leb, ==_iff, Bool-cases, Option-cases, &&-eq-true, length,
  length-append, replicate, take, head?, filter, any, all, find?, get_or, is_some, filter-append,
  All, sum, sum-append, Text, text, text_eq, text_eq_iff, text_eq_refl, text_lt, text_lt_irrefl,
  text_lt_asymm, text_lt-append_left, text_lt-append_right, decimal, decimal_from, pad_start, ◌≡◌,
  refl, sym, ap, ◌∙◌, subst, fun_ext, ◌≢◌, ◌↔◌, ◌⊎◌, inl, inr, Bool, true, false, not, ◌&&◌, ◌||◌,
  Option, none, some, List, [], ◌∷◌, ◌++◌, map, append-nil, append_assoc, arith, tests, to_number,
  to_number_from,
}
use canonizr_hda.Storage.Entity.{Value}
use canonizr_hda.World.Time.{iso_string}
use canonizr_hda.World.Actions.{Outcome, ok, err, failure}
use canonizr_hda.Jobs.Table.{JobRecord, Status}
use canonizr_hda.Jobs.Table
pub mod Laws

pub record ArtefactEntry : Type 0 where
  pub name : Text
  pub mime_type : Text
  pub size_bytes : ℕ
  pub label : Option Text
  pub source_page : Option ℕ

pub record CanonizeSubmission : Type 0 where
  pub id : Text
  pub key_id : Text
  pub filename : Text
  pub mime_type : Text
  pub input_bytes : ℕ
  -- `none` is the price 0
  pub price_per_unit : Option Value
  pub submitted_at : Text

pub data JobState : Type 0 where
  processing : JobState
  available : (completed_at expires_at : Text) → List ArtefactEntry → JobState
  error : (completed_at message : Text) → JobState
  expired : (completed_at expired_at : Text) → JobState

pub record CanonizeJobRow : Type 0 where
  pub submission : CanonizeSubmission
  pub state : JobState

unfoldable pub submission_of : JobRecord → CanonizeSubmission
submission_of job = record {
  id = job.id;
  key_id = job.key_id;
  filename = get_or job.original_filename (text "unknown");
  mime_type = get_or job.mime_type (text "application/octet-stream");
  input_bytes = job.input_bytes;
  price_per_unit = job.price_per_unit;
  submitted_at = job.timestamp;
}

abbrev pub day_after : Option ℕ → Option ℕ
day_after none = none
day_after (some t) = some (t + 86400000)

abbrev pub row_with : JobRecord → Outcome JobState → Outcome CanonizeJobRow
row_with job (ok s) = ok (record { submission = submission_of job; state = s })
row_with job (err e) = err e

module _ (date_ms : Text → Option ℕ) (json_array : Text → Option (List ArtefactEntry))
    (now : ℕ) where
  unfoldable pub parse_artefacts : Option Text → List ArtefactEntry
  parse_artefacts none = []
  parse_artefacts (some []) = []
  parse_artefacts (some (c ∷ raw)) = get_or (json_array (c ∷ raw)) []

  -- The state of a completed job that expires at a time; `none` is an invalid date.
  unfoldable pub completed : JobRecord → Option ℕ → Outcome JobState
  completed job none = err (failure (text "Invalid time value"))
  completed job (some expiry) =
      if ltb expiry now
      then ok (expired (get_or job.completed_at []) (iso_string expiry))
      else ok (
          available (get_or job.completed_at []) (iso_string expiry)
            (parse_artefacts job.artefacts))

  unfoldable pub ok_state : JobRecord → Option Text → Outcome JobState
  ok_state job none = completed job (day_after (date_ms (get_or job.completed_at job.timestamp)))
  ok_state job (some []) =
      completed job (day_after (date_ms (get_or job.completed_at job.timestamp)))
  ok_state job (some (c ∷ s)) = completed job (date_ms (c ∷ s))

  unfoldable pub state_of : JobRecord → Status → Outcome JobState
  state_of job Table.processing = ok JobState.processing
  state_of job Table.ok = ok_state job job.retention_expires
  state_of job Table.error =
      ok (JobState.error (get_or job.completed_at []) (get_or job.detail (text "Unknown error")))
  state_of job Table.deleted = ok (
      expired (get_or job.completed_at [])
        (get_or job.retention_expires (get_or job.completed_at job.timestamp)))

  unfoldable pub to_canonize_job_row : JobRecord → Outcome CanonizeJobRow
  to_canonize_job_row job = row_with job (state_of job job.status)
