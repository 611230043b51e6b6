-- ===== src/Tables/UserPermissions.antt =====
-- The UserPermissions table, portal/lib/data/tables/user-permissions.ts: permissions and account
-- state, append-only.
use canonizr_hda.Prelude.{Text, text, Bool, false, Option, none, some, [], ◌∷◌}
use canonizr_hda.Storage.Entity.{Value, str, bool, Entity, prop, str_or, bool_or}
use canonizr_hda.World.Time.{iso_string}
use canonizr_hda.World.Actions.{Env, World, Action, ◌>>=◌, pure, gets, upsert_entity}
use canonizr_hda.Tables.TableName
use canonizr_hda.Tables.AppendOnly.{inverted_timestamp_rk, get_latest}
pub mod Laws
pub mod History

pub record UserPermissionsRecord : Type 0 where
  pub is_admin : Bool
  pub blocked : Bool
  pub delinquent : Bool
  pub stripe_customer_id : Text
  pub changed_by : Text
  pub timestamp : Text

abbrev pub permissions_entity : Text → UserPermissionsRecord → Entity
permissions_entity stamp p =
    ("timestamp", str stamp)
    ∷ ("isAdmin", bool p.is_admin)
    ∷ ("blocked", bool p.blocked)
    ∷ ("delinquent", bool p.delinquent)
    ∷ ("stripeCustomerId", str p.stripe_customer_id)
    ∷ ("changedBy", str p.changed_by)
    ∷ []

-- A user with no record has the defaults.
unfoldable pub permissions_of : Option Entity → UserPermissionsRecord
permissions_of none = record {
  is_admin = false;
  blocked = false;
  delinquent = false;
  stripe_customer_id = [];
  changed_by = text "system";
  timestamp = [];
}
permissions_of (some row) = record {
  is_admin = bool_or (prop "isAdmin" row) false;
  blocked = bool_or (prop "blocked" row) false;
  delinquent = bool_or (prop "delinquent" row) false;
  stripe_customer_id = str_or (prop "stripeCustomerId" row) [];
  changed_by = str_or (prop "changedBy" row) (text "system");
  timestamp = str_or (prop "timestamp" row) [];
}

module _ {env : Env} where
  unfoldable pub get_current_permissions : Text → Action env UserPermissionsRecord
  get_current_permissions user = do
    row ← get_latest TableName.user_permissions user
    pure (permissions_of row)

  unfoldable pub append_permissions : Text → UserPermissionsRecord → Action env Unit
  append_permissions user p = do
    key ← inverted_timestamp_rk
    now ← gets (λ w. w.now)
    upsert_entity TableName.user_permissions user key (permissions_entity (iso_string now) p)

  unfoldable pub set_user_blocked : Text → Bool → Text → Action env Unit
  set_user_blocked user blocked by = do
    current ← get_current_permissions user
    append_permissions user (record current { blocked = blocked; changed_by = by })

  unfoldable pub set_user_delinquent : Text → Bool → Text → Action env Unit
  set_user_delinquent user delinquent by = do
    current ← get_current_permissions user
    append_permissions user (record current { delinquent = delinquent; changed_by = by })
