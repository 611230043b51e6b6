-- ===== src/Tables/UserPermissions/Laws.antt =====
-- What is read back after permissions were appended or a flag was set.
use canonizr_hda.Prelude.{head?, filter, Text, text_eq, ◌≡◌, refl, Bool, false, some}
use canonizr_hda.Storage.Entity.{prop}
use canonizr_hda.World.Time.{iso_string}
use canonizr_hda.World.Actions.{ok, Env, World, random_uuid, upsert_entity, list_entities}
use canonizr_hda.Storage.Rows.{in_partition}
use canonizr_hda.Storage.Partitions.{filter-put_row_other}
use canonizr_hda.Tables.TableName
use canonizr_hda.Tables.AppendOnly.{entity_of, row_key_at, inverted_timestamp_rk, get_latest}
use canonizr_hda.Tables.AppendOnly.Laws.{IsHistory, IsHistory-IsNewest, rows_upserted}
use canonizr_hda.Tables.UserPermissions.{
  UserPermissionsRecord, permissions_entity, permissions_of, get_current_permissions,
  append_permissions, set_user_blocked, set_user_delinquent,
}

permissions_of-permissions_entity :
    (stamp : Text) (p : UserPermissionsRecord)
    → permissions_of (some (permissions_entity stamp p)) ≡ record p { timestamp = stamp }
unfolding permissions_of prop
permissions_of-permissions_entity stamp p = refl

module _ {env : Env} where
  -- The permissions of a user that the tables hold.
  unfoldable pub permissions : World env → Text → UserPermissionsRecord
  permissions w user = permissions_of (
      entity_of
        (head? (filter (in_partition user) (env.storage.rows w.tables TableName.user_permissions))))

  pub get_current_permissions_lem :
      (user : Text) (w : World env) → get_current_permissions user w ≡ (ok (permissions w user), w)
  unfolding get_current_permissions get_latest list_entities permissions
  get_current_permissions_lem user w = refl

  module _ (user : Text) (p : UserPermissionsRecord) (w : World env) where
    pub permissions-append_permissions :
        IsHistory TableName.user_permissions user w
        → permissions (append_permissions user p w).1 user
          ≡ record p { timestamp = iso_string w.now }
    unfolding append_permissions inverted_timestamp_rk random_uuid upsert_entity permissions
    permissions-append_permissions h =
        rw
          (rows_upserted TableName.user_permissions user (row_key_at w.now (env.uuid w.drawn))
            (permissions_entity (iso_string w.now) p) w
            (IsHistory-IsNewest TableName.user_permissions user (env.uuid w.drawn) w h))
          (permissions_of-permissions_entity (iso_string w.now) p)

    pub permissions-append_permissions_other :
        (other : Text)
        → text_eq other user ≡ false
        → permissions (append_permissions user p w).1 other ≡ permissions w other
    unfolding append_permissions inverted_timestamp_rk random_uuid upsert_entity permissions
    permissions-append_permissions_other other h = rw (
      env.storage.rows-upsert_entity w.tables TableName.user_permissions user
          (row_key_at w.now (env.uuid w.drawn)) (permissions_entity (iso_string w.now) p)
          TableName.user_permissions,
      filter-put_row_other user (row_key_at w.now (env.uuid w.drawn)) other
          (permissions_entity (iso_string w.now) p)
          (env.storage.rows w.tables TableName.user_permissions) h,
    )

  -- Setting the payment flag of a user changes that flag, its author and its time in the permissions
  -- of this user, and nothing in those of another one.
  pub permissions-set_user_delinquent :
      (user by other : Text) (delinquent : Bool) (w : World env)
      → IsHistory TableName.user_permissions user w
      → text_eq other user ≡ false
      → (permissions (set_user_delinquent user delinquent by w).1 user
          ≡ record (permissions w user) {
            delinquent = delinquent;
            changed_by = by;
            timestamp = iso_string w.now;
          })
        × (permissions (set_user_delinquent user delinquent by w).1 other ≡ permissions w other)
  unfolding set_user_delinquent
  permissions-set_user_delinquent user by other delinquent w h k =
      rw (get_current_permissions_lem user w) (
        permissions-append_permissions user _ w h,
        permissions-append_permissions_other user _ w other k,
      )

  -- Blocking or unblocking a user changes that flag, its author and its time in the permissions of
  -- this user, and nothing in those of another one.
  pub permissions-set_user_blocked :
      (user by other : Text) (blocked : Bool) (w : World env)
      → IsHistory TableName.user_permissions user w
      → text_eq other user ≡ false
      → (permissions (set_user_blocked user blocked by w).1 user ≡ record (permissions w user) {
        blocked = blocked;
        changed_by = by;
        timestamp = iso_string w.now;
      })
        × (permissions (set_user_blocked user blocked by w).1 other ≡ permissions w other)
  unfolding set_user_blocked
  permissions-set_user_blocked user by other blocked w h k =
      rw (get_current_permissions_lem user w) (
        permissions-append_permissions user _ w h,
        permissions-append_permissions_other user _ w other k,
      )
