-- ===== src/Jobs/Admin/Laws.antt =====
-- Who sees the page of another user.
use canonizr_hda.Prelude.{ℕ, Text, ◌≡◌, true, Option, some, List}
use canonizr_hda.World.Actions.{ok, Env, World}
use canonizr_hda.Tables.UserPermissions.Laws.{permissions}
use canonizr_hda.Services.Billing.{BillingStore}
use canonizr_hda.Auth.Session.{User, user_of, require_admin}
use canonizr_hda.Auth.Session.Laws.{>>=-eq-ok, require_admin_sound}
use canonizr_hda.Jobs.Table.{Pages}
use canonizr_hda.Jobs.Row.{ArtefactEntry}
use canonizr_hda.Jobs.Admin.{AdminUserDetail, get_user_detail}

module _ {env : Env} (date_ms : Text → Option ℕ) (json_array : Text → Option (List ArtefactEntry))
    (pages : Pages) (billing : BillingStore env) where
  -- Whoever is shown the page of a user for administrators is the user of the session and has the
  -- administrator's flag in the tables when the page is put together.
  pub get_user_detail_sound :
      (id : Text) (shown : Option AdminUserDetail) (w v : World env)
      → get_user_detail date_ms json_array pages billing id w ≡ (ok shown, v)
      → (admin : User) × (u : World env) × (user_of w.session ≡ some admin)
        × ((permissions u admin.user_id).is_admin ≡ true)
  unfolding get_user_detail
  get_user_detail_sound id shown w v h =
      let (admin, u, first, second) = >>=-eq-ok (require_admin true w) _ shown v h in
      let (found, flag) = require_admin_sound true admin w u first in (admin, u, found, flag)
