-- ===== src/Jobs/Stats.antt =====
-- What is added up of jobs for administrators: `aggregateJobs` of portal/lib/pure/admin-calc.ts. The
-- time of a timestamp is a parameter, `none` for an invalid date, which is not before anything.
use canonizr_hda.Prelude.{
  ℕ, ◌+◌, ltb, if◌then◌else◌, Text, text, text_eq, Bool, false, Option, none, some, List, [], ◌∷◌,
}
use canonizr_hda.Usage.Format.{to_billable_kb}
pub mod Laws

pub record JobSummaryInput : Type 0 where
  pub timestamp : Text
  pub input_bytes : ℕ
  pub status : Text

pub record JobStats : Type 0 where
  pub count : ℕ
  pub error_count : ℕ
  pub billable_kb : ℕ

abbrev pub is_before : Option ℕ → ℕ → Bool
is_before none since = false
is_before (some t) since = ltb t since

abbrev pub is_error : JobSummaryInput → Bool
is_error j = text_eq j.status (text "error")

unfoldable pub count_job : JobSummaryInput → JobStats → JobStats
count_job j s = record {
  count = s.count + 1;
  error_count = if is_error j then s.error_count + 1 else s.error_count;
  billable_kb = s.billable_kb + to_billable_kb j.input_bytes;
}

module _ (date_ms : Text → Option ℕ) (since : ℕ) where
  unfoldable pub aggregate_from : List JobSummaryInput → JobStats → JobStats
  aggregate_from [] s = s
  aggregate_from (j ∷ js) s =
      aggregate_from js (if is_before (date_ms j.timestamp) since then s else count_job j s)

  unfoldable pub aggregate_jobs : List JobSummaryInput → JobStats
  aggregate_jobs js = aggregate_from js (record { count = 0; error_count = 0; billable_kb = 0 })
