-- ===== src/Jobs/UserList.antt =====
-- The list of users for administrators: `getUserList` of portal/lib/data/admin-page-data.ts. The sort
-- by the date of joining is a parameter, since the source's comparison calls two users who joined at
-- one time unequal in either order.
use canonizr_hda.Prelude.{
  ℕ, length, Text, text, text_lt, Bool, true, false, not, ◌&&◌, Option, none, some, List, [], map,
}
use canonizr_hda.Storage.Entity.{prop, str_or, str?}
use canonizr_hda.Storage.Rows.{Row, in_partition}
use canonizr_hda.World.Time.{iso_string}
use canonizr_hda.World.Actions.{Env, Action, ◌>>=◌, ◌>>◌, pure, gets, for_each, list_entities}
use canonizr_hda.Tables.TableName
use canonizr_hda.Tables.UserPermissions.{get_current_permissions}
use canonizr_hda.Auth.Session.{require_admin}
use canonizr_hda.Keys.Store.{string_of}
use canonizr_hda.Jobs.Table.{number_of}
use canonizr_hda.Jobs.Stats.{JobSummaryInput, aggregate_jobs}
use canonizr_hda.Jobs.Admin.{thirty_days_before}

pub record AdminUserRow : Type 0 where
  pub id : Text
  pub email : Text
  pub key_count : ℕ
  pub job_count_30d : ℕ
  pub error_count_30d : ℕ
  pub usage_kb_30d : ℕ
  pub blocked : Bool
  pub joined : Text
  pub stripe_customer_id : Text

-- `created_at ge '…'`, which a row without the property does not meet.
abbrev pub from_time : Text → Option Text → Bool
from_time since none = false
from_time since (some at) = not (text_lt at since)

abbrev pub is_created_since : Text → Row → Bool
is_created_since since row = from_time since (str? (prop "created_at" row.entity))

abbrev pub job_input : Row → JobSummaryInput
job_input row = record {
  timestamp = str_or (prop "created_at" row.entity) [];
  input_bytes = number_of (prop "input_bytes" row.entity);
  status = str_or (prop "status" row.entity) [];
}

module _ {env : Env} where
  module _ (date_ms : Text → Option ℕ) where
    -- One round of the loop over the users.
    unfoldable pub list_row : Row → Action env AdminUserRow
    list_row entity = do
      keys ← list_entities TableName.api_keys (in_partition entity.row_key)
      now ← gets (λ w. w.now)
      let since = thirty_days_before now
      jobs ←
          list_entities TableName.gw_user_jobs
            (λ row. in_partition entity.row_key row && is_created_since (iso_string since) row)
      perms ← get_current_permissions entity.row_key
      let stats = aggregate_jobs date_ms since (map job_input jobs)
      pure (record {
        id = entity.row_key;
        email = string_of "email" entity.entity;
        key_count = length keys;
        job_count_30d = stats.count;
        error_count_30d = stats.error_count;
        usage_kb_30d = stats.billable_kb;
        blocked = perms.blocked;
        joined = string_of "emailVerified" entity.entity;
        stripe_customer_id = perms.stripe_customer_id;
      })

    unfoldable pub get_user_list :
        (List AdminUserRow → List AdminUserRow) → Action env (List AdminUserRow)
    get_user_list sort = do
      require_admin true
      users ← list_entities TableName.users (in_partition (text "user"))
      rows ← for_each list_row users
      pure (sort rows)
