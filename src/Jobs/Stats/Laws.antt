-- ===== src/Jobs/Stats/Laws.antt =====
-- The figures are those of the jobs that are not too old.
use canonizr_hda.Prelude.{
  ℕ, ◌+◌, Bool-cases, length, filter, sum, Text, ◌≡◌, refl, sym, ◌∙◌, inl, inr, not, Option, List,
  [], ◌∷◌, map, arith,
}
use canonizr_hda.Usage.Format.{to_billable_kb}
use canonizr_hda.Jobs.Stats.{
  JobSummaryInput, JobStats, is_before, is_error, count_job, aggregate_from, aggregate_jobs,
}

abbrev stats : ℕ → ℕ → ℕ → JobStats
stats a b c = record { count = a; error_count = b; billable_kb = c }

same_stats : (a b c x y z : ℕ) → a ≡ x → b ≡ y → c ≡ z → stats a b c ≡ stats x y z
same_stats a b c x y z h k l = rw (h, k, l) refl

module _ (date_ms : Text → Option ℕ) (since : ℕ) where
  abbrev pub recent : List JobSummaryInput → List JobSummaryInput
  recent js = filter (λ j. not (is_before (date_ms j.timestamp) since)) js

  abbrev pub plus : JobStats → List JobSummaryInput → JobStats
  plus s js = record {
    count = s.count + length js;
    error_count = s.error_count + length (filter is_error js);
    billable_kb = s.billable_kb + sum (map (λ j. to_billable_kb j.input_bytes) js);
  }

  plus-count_job :
      (j : JobSummaryInput) (js : List JobSummaryInput) (s : JobStats)
      → plus (count_job j s) js ≡ plus s (j ∷ js)
  unfolding count_job
  plus-count_job j js s = elim (Bool-cases (is_error j)) [
    | inl bad ↦ rw bad (same_stats _ _ _ _ _ _ (omega arith) (omega arith) (omega arith))
    | inr good ↦ rw good (same_stats _ _ _ _ _ _ (omega arith) refl (omega arith))
  ]

  plus_nil : (s : JobStats) → plus s [] ≡ s
  plus_nil s = same_stats _ _ _ _ _ _ (omega arith) (omega arith) (omega arith)

  aggregate_from_lem :
      (js : List JobSummaryInput) (s : JobStats)
      → aggregate_from date_ms since js s ≡ plus s (recent js)
  unfolding aggregate_from
  aggregate_from_lem [] s = sym (plus_nil s)
  aggregate_from_lem (j ∷ js) s = elim (Bool-cases (is_before (date_ms j.timestamp) since)) [
    | inl old ↦ rw old (aggregate_from_lem js s)
    | inr new ↦ rw new (aggregate_from_lem js (count_job j s) ∙ plus-count_job j (recent js) s)
  ]

  -- The figures for a period count the jobs whose time is not before its start, those of them that
  -- failed, and the sum of their billable sizes.
  aggregate_jobs_lem :
      (js : List JobSummaryInput)
      → aggregate_jobs date_ms since js ≡ record {
        count = length (recent js);
        error_count = length (filter is_error (recent js));
        billable_kb = sum (map (λ j. to_billable_kb j.input_bytes) (recent js));
      }
  unfolding aggregate_jobs
  aggregate_jobs_lem js =
      aggregate_from_lem js _ ∙ same_stats _ _ _ _ _ _ (omega arith) (omega arith) (omega arith)
