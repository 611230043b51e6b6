-- ===== src/Jobs/Pages.antt =====
-- What the pages of a user show: `getJobsForUser` of portal/lib/data/jobs.ts, and the pages that
-- portal/lib/data/user-page-data.ts assembles.
use canonizr_hda.Prelude.{
  ℕ, ◌+◌, ltb, find?, Text, Bool, true, false, ◌&&◌, Option, none, some, List, [], ◌∷◌, map,
}
use canonizr_hda.Prelude.Int.{ℤ}
use canonizr_hda.World.Actions.{Outcome, ok, err, Env, Action, ◌>>=◌, ◌>>◌, pure, gets}
use canonizr_hda.Tables.UserConfig.{UserConfigRecord, get_current_config}
use canonizr_hda.Tables.UserPermissions.{get_current_permissions}
use canonizr_hda.Usage.Calc.{BillingCalc, calculate_billing, rate_per_unit}
use canonizr_hda.Services.Billing.{Invoice, BillingStore}
use canonizr_hda.Auth.Session.{require_user}
use canonizr_hda.Keys.Store.{ApiKey, list}
use canonizr_hda.Jobs.Table.{JobRecord, JobPage, Pages, list_jobs_for_user}
use canonizr_hda.Jobs.Row.{ArtefactEntry, JobState, available, CanonizeJobRow, to_canonize_job_row}
use canonizr_hda.Jobs.Usage.{get_current_usage_units}
pub mod Laws

pub record CanonizeJobPage : Type 0 where
  pub jobs : List CanonizeJobRow
  pub next_cursor : Option Text

pub record RecentError : Type 0 where
  pub id : Text
  pub key_name : Text
  pub status : ℕ
  pub timestamp : Text

pub record KeyRow : Type 0 where
  pub id : Text
  pub display_name : Text
  pub value : Text
  pub usage_kb : ℕ
  pub quota_kb : Option ℕ

pub record BillingData : Type 0 where
  pub calc : BillingCalc
  pub price_per_unit : ℕ
  pub paid_enabled : Bool
  pub spend_cap_units : Option ℤ
  pub invoices : List Invoice

abbrev pub key_row : ApiKey → KeyRow
key_row k = record {
  id = k.id;
  display_name = k.display_name;
  value = k.key;
  usage_kb = k.usage_kb;
  quota_kb = k.quota_kb;
}

unfoldable pub is_failed : JobState → Bool
is_failed JobState.processing = false
is_failed (available done at artefacts) = false
is_failed (JobState.error done message) = true
is_failed (JobState.expired done at) = false

-- `t > now - 5 * 60 * 1000`; an invalid date is not after anything.
abbrev pub is_recent : Option ℕ → ℕ → Bool
is_recent none now = false
is_recent (some t) now = ltb now (t + 300000)

abbrev pub recent_error_of : Option CanonizeJobRow → Option RecentError
recent_error_of none = none
recent_error_of (some row) = some (record {
  id = row.submission.id;
  key_name = row.submission.key_id;
  status = 500;
  timestamp = row.submission.submitted_at;
})

abbrev pub cons_row :
    Outcome CanonizeJobRow → Outcome (List CanonizeJobRow) → Outcome (List CanonizeJobRow)
cons_row (ok row) (ok rows) = ok (row ∷ rows)
cons_row (ok row) (err e) = err e
cons_row (err e) rows = err e

-- A row that failed in the five minutes before `now`.
unfoldable pub is_recent_error : (Text → Option ℕ) → ℕ → CanonizeJobRow → Bool
is_recent_error date_ms now row =
    is_failed row.state && is_recent (date_ms row.submission.submitted_at) now

module _ (date_ms : Text → Option ℕ) (json_array : Text → Option (List ArtefactEntry)) where
  -- `jobs.map(toCanonizeJobRow)`, which throws where a row does.
  unfoldable pub rows_of : ℕ → List JobRecord → Outcome (List CanonizeJobRow)
  rows_of now [] = ok []
  rows_of now (job ∷ jobs) =
      cons_row (to_canonize_job_row date_ms json_array now job) (rows_of now jobs)

  module _ {env : Env} where
    unfoldable pub page_with : JobPage → Action env CanonizeJobPage
    page_with page w = elim (rows_of w.now page.jobs) [
      | ok rows ↦ (ok (record { jobs = rows; next_cursor = page.next_cursor }), w)
      | err e ↦ (err e, w)
    ]

    unfoldable pub get_jobs_for_user : Pages → Text → ℕ → Option Text → Action env CanonizeJobPage
    get_jobs_for_user pages user page_size cursor = do
      page ← list_jobs_for_user pages user page_size cursor
      page_with page

    unfoldable pub get_recent_error : Pages → Action env (Option RecentError)
    get_recent_error pages = do
      user ← require_user true
      page ← get_jobs_for_user pages user.user_id 10 none
      now ← gets (λ w. w.now)
      pure (recent_error_of (find? (is_recent_error date_ms now) page.jobs))

    unfoldable pub get_history_data : Pages → Action env CanonizeJobPage
    get_history_data pages = do
      user ← require_user true
      get_jobs_for_user pages user.user_id 20 none

module _ {env : Env} where
  unfoldable pub get_keys_data : Action env (List KeyRow)
  get_keys_data = do user ← require_user true; keys ← list user.user_id; pure (map key_row keys)

  unfoldable pub invoices_of : BillingStore env → Text → Action env (List Invoice)
  invoices_of billing [] = pure []
  invoices_of billing (c ∷ customer) = billing.get_invoices (c ∷ customer)

  unfoldable pub get_billing_data : BillingStore env → Action env BillingData
  get_billing_data billing = do
    user ← require_user true
    config ← get_current_config user.user_id
    perms ← get_current_permissions user.user_id
    units ← get_current_usage_units user.user_id
    invoices ← invoices_of billing perms.stripe_customer_id
    pure (record {
      calc = calculate_billing (record { total_units = units; free_units = config.free_units });
      price_per_unit = rate_per_unit;
      paid_enabled = config.paid_enabled;
      spend_cap_units = config.spend_cap_units;
      invoices = invoices;
    })
