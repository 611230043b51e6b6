-- ===== src/Jobs/Admin.antt =====
-- The page of one user for administrators: `getUserDetail` of portal/lib/data/admin-page-data.ts.
use canonizr_hda.Prelude.{
  ℕ, ◌-◌, if◌then◌else◌, Text, text, true, Option, none, some, List, [], ◌∷◌, map,
}
use canonizr_hda.Prelude.Int.{ℤ}
use canonizr_hda.Storage.Entity.{Entity}
use canonizr_hda.World.Actions.{Env, Action, ◌>>=◌, ◌>>◌, pure, gets, catch}
use canonizr_hda.Tables.TableName
use canonizr_hda.Tables.UserConfig.{UserConfigRecord, get_current_config}
use canonizr_hda.Tables.UserPermissions.{UserPermissionsRecord, get_current_permissions}
use canonizr_hda.Services.Billing.{BillingStore}
use canonizr_hda.Auth.Session.{require_admin}
use canonizr_hda.Keys.Store.{ApiKey, string_of, get_entity?, list}
use canonizr_hda.Api.Settings.{sum_invoice_amounts}
use canonizr_hda.Jobs.Table.{Pages}
use canonizr_hda.Jobs.Row.{ArtefactEntry, CanonizeJobRow}
use canonizr_hda.Jobs.Stats.{JobSummaryInput, JobStats, aggregate_jobs}
use canonizr_hda.Jobs.Pages.{KeyRow, key_row, CanonizeJobPage, is_failed, get_jobs_for_user}
pub mod Laws

-- The settings and the permissions are shown field by field; the creation date and the last use of a
-- key, which are copied too, are left out of its row.
pub record AdminUserDetail : Type 0 where
  pub id : Text
  pub email : Text
  pub joined : Text
  pub perms : UserPermissionsRecord
  pub config : UserConfigRecord
  pub keys : List KeyRow
  pub usage_kb_30d : ℕ
  pub total_invoiced : ℕ

abbrev pub summary_of : CanonizeJobRow → JobSummaryInput
summary_of row = record {
  timestamp = row.submission.submitted_at;
  input_bytes = row.submission.input_bytes;
  status = if is_failed row.state then text "error" else text "ok";
}

-- `Date.now() - 30 * 86_400_000`
abbrev pub thirty_days_before : ℕ → ℕ
thirty_days_before now = now - 2592000000

module _ {env : Env} where
  -- Billing that is unavailable counts as nothing invoiced.
  unfoldable pub total_invoiced_of : BillingStore env → Text → Action env ℕ
  total_invoiced_of billing [] = pure 0
  total_invoiced_of billing (c ∷ customer) =
      catch (do invoices ← billing.get_invoices (c ∷ customer); pure (sum_invoice_amounts invoices))
        (λ _. pure 0)

  module _ (date_ms : Text → Option ℕ) (json_array : Text → Option (List ArtefactEntry))
      (pages : Pages) (billing : BillingStore env) where
    unfoldable pub detail_of : Text → Option Entity → Action env (Option AdminUserDetail)
    detail_of user none = pure none
    detail_of user (some e) = do
      config ← get_current_config user
      perms ← get_current_permissions user
      keys ← list user
      page ← get_jobs_for_user date_ms json_array pages user 100 none
      now ← gets (λ w. w.now)
      invoiced ← total_invoiced_of billing perms.stripe_customer_id
      let stats = aggregate_jobs date_ms (thirty_days_before now) (map summary_of page.jobs)
      pure (
          some (record {
            id = user;
            email = string_of "email" e;
            joined = string_of "emailVerified" e;
            perms = perms;
            config = config;
            keys = map key_row keys;
            usage_kb_30d = stats.billable_kb;
            total_invoiced = invoiced;
          }))

    unfoldable pub get_user_detail : Text → Action env (Option AdminUserDetail)
    get_user_detail user = do
      require_admin true
      e ← get_entity? TableName.users (text "user") user
      detail_of user e
