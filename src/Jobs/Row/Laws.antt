-- ===== src/Jobs/Row/Laws.antt =====
-- When a job can be downloaded.
use canonizr_hda.Prelude.{
  ℕ, ◌≤◌, ltb, Bool-cases, get_or, Text, ◌≡◌, refl, sym, ◌∙◌, ◌↔◌, inl, inr, Bool, true, false,
  Option, none, some, List, [], ◌∷◌, arith,
}
use canonizr_hda.World.Actions.{Outcome, ok, err}
use canonizr_hda.Jobs.Table.{JobRecord, Status}
use canonizr_hda.Jobs.Table
use canonizr_hda.Jobs.Row.{
  ArtefactEntry, JobState, available, CanonizeJobRow, completed, day_after, ok_state, state_of,
  row_with, to_canonize_job_row,
}

unfoldable pub is_available : Outcome CanonizeJobRow → Bool
is_available (err e) = false
is_available (ok row) = elim row.state [
  | JobState.processing ↦ false
  | available done at artefacts ↦ true
  | JobState.error done message ↦ false
  | JobState.expired done at ↦ false
]

module _ (date_ms : Text → Option ℕ) where
  -- When a job expires: at the time that was set, where it is not empty, else a day after it was completed or submitted.
  unfoldable pub expiry_of : JobRecord → Option Text → Option ℕ
  expiry_of job none = day_after (date_ms (get_or job.completed_at job.timestamp))
  expiry_of job (some []) = day_after (date_ms (get_or job.completed_at job.timestamp))
  expiry_of job (some (c ∷ s)) = date_ms (c ∷ s)

module _ (date_ms : Text → Option ℕ) (json_array : Text → Option (List ArtefactEntry))
    (now : ℕ) where
  ok_state_lem :
      (job : JobRecord) (retention : Option Text)
      → ok_state date_ms json_array now job retention
        ≡ completed date_ms json_array now job (expiry_of date_ms job retention)
  unfolding ok_state expiry_of
  ok_state_lem job none = refl
  ok_state_lem job (some []) = refl
  ok_state_lem job (some (c ∷ s)) = refl

  not_past : (t u : ℕ) → ltb t now ≡ true → some t ≡ some u → now ≤ u → false ≡ true
  not_past t u past same later =
      let eq : t ≡ u = cc in
      let open_still : ltb t now ≡ false = ground arith in sym open_still ∙ past

  completed_iff :
      (job : JobRecord) (expiry : Option ℕ)
      → (is_available (row_with job (completed date_ms json_array now job expiry)) ≡ true)
        ↔ ((t : ℕ) × (expiry ≡ some t) × (now ≤ t))
  unfolding completed is_available
  completed_iff job none = (λ h. cc, λ h. cc)
  completed_iff job (some t) = elim (Bool-cases (ltb t now)) [
    | inl past ↦ rw past (λ h. cc, λ (u, same, later). not_past t u past same later)
    | inr valid ↦ rw valid (λ h. (t, refl, ground (arith, valid)), λ h. refl)
  ]

  by_status :
      (job : JobRecord) (status : Status)
      → (is_available (row_with job (state_of date_ms json_array now job status)) ≡ true) ↔ (
          (status ≡ Table.ok)
          × (t : ℕ) × (expiry_of date_ms job job.retention_expires ≡ some t)
          × (now ≤ t))
  unfolding state_of is_available
  by_status job Table.ok =
      let (to, back) = completed_iff job (expiry_of date_ms job job.retention_expires) in
      rw (ok_state_lem job job.retention_expires) (
        λ h. let (t, due, later) = to h in (refl, t, due, later),
        λ (s, t, due, later). back (t, due, later),
      )
  by_status job Table.processing = (λ h. cc, λ h. cc)
  by_status job Table.error = (λ h. cc, λ h. cc)
  by_status job Table.deleted = (λ h. cc, λ h. cc)

  -- A job is shown as available exactly if it was completed and its expiry is a valid date that has
  -- not passed.
  pub to_canonize_job_row-is_available_iff :
      (job : JobRecord)
      → (is_available (to_canonize_job_row date_ms json_array now job) ≡ true) ↔ (
          (job.status ≡ Table.ok)
          × (t : ℕ) × (expiry_of date_ms job job.retention_expires ≡ some t)
          × (now ≤ t))
  unfolding to_canonize_job_row
  to_canonize_job_row-is_available_iff job = by_status job job.status
