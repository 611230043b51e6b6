-- ===== src/Auth/Setup.antt =====
-- Setting up an account: portal/lib/auth/on-create-user.ts, once, when a user signs up, and
-- portal/lib/auth/ensure-user-setup.ts, on every request.
use canonizr_hda.Prelude.{
  if◌then◌else◌, any, Text, text, text_eq, Bool, true, false, ◌||◌, List, [], ◌∷◌,
}
use canonizr_hda.Prelude.Int.{ℤ, pos}
use canonizr_hda.Storage.Entity.{Value, str, num}
use canonizr_hda.World.Time.{Date, utc_date}
use canonizr_hda.World.Actions.{
  ok, Env, World, Action, ◌>>=◌, ◌>>◌, pure, raise, failure, gets, upsert_entity,
}
use canonizr_hda.Tables.TableName
use canonizr_hda.Tables.UserConfig.{
  UserConfigRecord, get_defaults, get_current_config, append_config,
}
use canonizr_hda.Tables.UserPermissions.{append_permissions}
use canonizr_hda.Services.Billing.{BillingStore, CreatedCustomer}
use canonizr_hda.Keys.Store.{ApiKey, list, create}
pub mod Laws
pub mod Once

abbrev pub is_blank : Text → Bool
is_blank [] = true
is_blank (c ∷ s) = false

module _ {env : Env} where
  unfoldable pub set_up_billing : Text → CreatedCustomer → Action env Text
  set_up_billing user made = do
    now ← gets (λ w. w.now)
    upsert_entity TableName.gw_billing (text "billing") user (
        ("stripe_customer_id", str made.customer_id)
        ∷ ("billing_anchor_day", num (pos (utc_date now).day))
        ∷ [])
    append_permissions user (record {
      is_admin = false;
      blocked = false;
      delinquent = false;
      stripe_customer_id = made.customer_id;
      changed_by = text "system";
      timestamp = [];
    })
    pure made.customer_id

  -- The id and the email of the new user; the empty text counts as missing.
  unfoldable pub on_create_user : BillingStore env → Text → Text → Action env Text
  on_create_user billing user email =
      if is_blank user || is_blank email
      then raise (failure (text "User ID and email are required for account setup"))
      else (do made ← billing.create_customer email; set_up_billing user made)

  unfoldable pub first_key : Text → List ApiKey → Action env Unit
  first_key user [] = do create user (text "my-first-key"); pure tt
  first_key user (k ∷ ks) = pure tt

  -- What a user without settings gets.
  unfoldable pub provision : Text → UserConfigRecord → Action env Unit
  provision user config =
      if is_blank config.timestamp
      then (do
        defaults ← get_defaults
        append_config user (record defaults { changed_by = text "system" })
        keys ← list user
        first_key user keys)
      else pure tt

  unfoldable pub complete : Text → Action env Unit
  complete user w = (ok tt, record w { setup_complete = user ∷ w.setup_complete })

  unfoldable pub ensure_from : Bool → Text → Action env Unit
  ensure_from true user = pure tt
  ensure_from false user = do config ← get_current_config user; provision user config; complete user

  unfoldable pub ensure_user_setup : Text → Action env Unit
  ensure_user_setup user w = ensure_from (any (text_eq user) w.setup_complete) user w
