-- ===== src/Jobs/Pages/Laws.antt =====
-- The rows of a page are those of its jobs.
use canonizr_hda.Prelude.{ℕ, Text, ◌≡◌, refl, sym, ap, Option, List, [], ◌∷◌, map}
use canonizr_hda.World.Actions.{Outcome, ok, err}
use canonizr_hda.Jobs.Table.{JobRecord}
use canonizr_hda.Jobs.Row.{
  ArtefactEntry, CanonizeJobRow, submission_of, state_of, row_with, to_canonize_job_row,
}
use canonizr_hda.Jobs.Row
use canonizr_hda.Jobs.Pages.{cons_row, rows_of}

cons_row_ok :
    (o : Outcome CanonizeJobRow) (p : Outcome (List CanonizeJobRow)) (rows : List CanonizeJobRow)
    → cons_row o p ≡ ok rows
    → (r : CanonizeJobRow) × (rs : List CanonizeJobRow) × (o ≡ ok r) × (p ≡ ok rs) × (rows ≡ r ∷ rs)
cons_row_ok (ok r) (ok rs) rows h = (r, rs, refl, refl, cc)
cons_row_ok (ok r) (err e) rows h = cc
cons_row_ok (err e) p rows h = cc

module _ (date_ms : Text → Option ℕ) (json_array : Text → Option (List ArtefactEntry))
    (now : ℕ) where
  row_lem :
      (job : JobRecord) (o : Outcome Row.JobState) (row : CanonizeJobRow)
      → row_with job o ≡ ok row
      → row.submission ≡ submission_of job
  row_lem job (ok s) row h =
      let made : CanonizeJobRow = record { submission = submission_of job; state = s } in
      let same : made ≡ row = cc in ap (λ r. r.submission) (sym same)
  row_lem job (err e) row h = cc

  -- If a page of jobs can be shown, it has one row for each job, in their order, with what was
  -- submitted.
  pub rows_of-submissions :
      (jobs : List JobRecord) (rows : List CanonizeJobRow)
      → rows_of date_ms json_array now jobs ≡ ok rows
      → map (λ r. r.submission) rows ≡ map submission_of jobs
  unfolding rows_of to_canonize_job_row
  rows_of-submissions [] rows h = let same : rows ≡ [] = cc in rw same refl
  rows_of-submissions (job ∷ jobs) rows h =
      let (r, rs, first, rest, same) =
        cons_row_ok (to_canonize_job_row date_ms json_array now job)
          (rows_of date_ms json_array now jobs) rows h in
      let head = row_lem job (state_of date_ms json_array now job job.status) r first in
      let tail = rows_of-submissions jobs rs rest in rw (same, head, tail) refl
