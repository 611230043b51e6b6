-- ===== src/Auth/Seed.antt =====
-- The administrator of a local deployment, portal/instrumentation.ts.
use canonizr_hda.Prelude.{
  if◌then◌else◌, length, replicate, take, Text, text, text_eq, Bool, true, false, ◌||◌, Option,
  none, some, [], ◌∷◌,
}
use canonizr_hda.Storage.Entity.{str}
use canonizr_hda.World.Time.{iso_string}
use canonizr_hda.World.Actions.{Env, Action, ◌>>=◌, ◌>>◌, pure, gets, upsert_entity}
use canonizr_hda.Tables.TableName
use canonizr_hda.Tables.UserConfig.{get_defaults, append_config}
use canonizr_hda.Tables.UserPermissions.{append_permissions}

abbrev pub admin_email : Text
admin_email = 97 ∷ 64 ∷ 97 ∷ []

unfoldable pub admin_id : Text
admin_id = text "admin-local"

abbrev pub encryption_key : Text
encryption_key = replicate 64 97

-- `s.includes(part)`
unfoldable pub includes : Text → Text → Bool
includes s [] = true
includes [] (p ∷ part) = false
includes (c ∷ s) (p ∷ part) =
    let rest = includes s (p ∷ part) in
    text_eq (take (length (p ∷ part)) (c ∷ s)) (p ∷ part) || rest

module _ {env : Env} where
  unfoldable pub seed_admin : Action env Unit
  seed_admin = do
    now ← gets (λ w. w.now)
    upsert_entity TableName.users (text "user") admin_id (
        ("email", str admin_email)
        ∷ ("emailVerified", str (iso_string now))
        ∷ ("createdAt", str (iso_string now))
        ∷ [])
    upsert_entity TableName.users (text "email") admin_email (("userId", str admin_id) ∷ [])
    upsert_entity TableName.gw_encryption_keys (text "key") admin_id
        (("key_hex", str encryption_key) ∷ [])
    defaults ← get_defaults
    append_config admin_id (record defaults { changed_by = text "system" })
    append_permissions admin_id (record {
      is_admin = true;
      blocked = false;
      delinquent = false;
      stripe_customer_id = [];
      changed_by = text "system";
      timestamp = [];
    })

  -- Only a deployment whose storage is reached by plain HTTP gets one.
  unfoldable pub seed_if : Option Text → Action env Unit
  seed_if none = pure tt
  seed_if (some connection) = if includes connection (text "http://") then seed_admin else pure tt
