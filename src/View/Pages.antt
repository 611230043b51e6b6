-- ===== src/View/Pages.antt =====
-- The pages of the dashboard under portal/app/dashboard/ that decide something of their own.
use canonizr_hda.Prelude.{ℕ, Text, text, true, Option, none, some, List}
use canonizr_hda.World.Actions.{Env, Action, ◌>>=◌, ◌>>◌, pure, raise, redirect, not_found}
use canonizr_hda.Auth.Session.{require_admin}
use canonizr_hda.Services.Billing.{BillingStore}
use canonizr_hda.Jobs.Table.{Pages, get_job_trace}
use canonizr_hda.Jobs.Row.{ArtefactEntry}
use canonizr_hda.Jobs.Admin.{AdminUserDetail, get_user_detail}

module _ {env : Env} where
  -- `DashboardPage`
  unfoldable pub dashboard_page : Action env Unit
  dashboard_page = raise (redirect (text "/dashboard/keys"))

  -- What surrounds the pages for administrators.
  unfoldable pub admin_layout : Action env Unit
  admin_layout = do require_admin true; pure tt

  -- The action by which the page of traces reads the trace of a job.
  unfoldable pub fetch_trace : Text → Action env (Option Text)
  fetch_trace id = get_job_trace id

  unfoldable pub user_or_404 : Option AdminUserDetail → Action env AdminUserDetail
  user_or_404 none = raise not_found
  user_or_404 (some user) = pure user

  unfoldable pub admin_user_detail_page :
      (Text → Option ℕ)
      → (Text → Option (List ArtefactEntry))
      → Pages
      → BillingStore env
      → Text
      → Action env AdminUserDetail
  admin_user_detail_page date_ms json_array pages billing id = do
    user ← get_user_detail date_ms json_array pages billing id
    user_or_404 user
