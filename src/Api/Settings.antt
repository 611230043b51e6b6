-- ===== src/Api/Settings.antt =====
-- The routes of the settings: portal/app/api/billing/ for a user, portal/app/api/admin/users/[id]/ for
-- administrators, and `sumInvoiceAmounts` of portal/lib/pure/admin-calc.ts.
use canonizr_hda.Prelude.{
  ℕ, get_or, sum, Text, text, text_eq, Bool, true, false, ◌||◌, Option, none, some, List, [], ◌∷◌,
  ◌++◌, map,
}
use canonizr_hda.Prelude.Int.{ℤ, pos}
use canonizr_hda.World.Actions.{Env, Action, ◌>>=◌, ◌>>◌, pure, raise, catch, auth_error, Fault}
use canonizr_hda.Tables.UserConfig.{UserConfigRecord, get_current_config, append_config}
use canonizr_hda.Tables.UserPermissions.{set_user_blocked, get_current_permissions}
use canonizr_hda.Services.Billing.{Invoice, BillingStore}
use canonizr_hda.Auth.Session.{User, require_user, require_admin}
use canonizr_hda.Api.Response
use canonizr_hda.Api.Response.{Response, json}
use canonizr_hda.Api.Route.{unauthorized, hidden, Done, done, route, answer_of}
pub mod Laws

-- `spendCapUnits` of a request: not a non-negative number, null, or a number.
pub data CapBody : Type 0 where
  malformed no_cap : CapBody
  cap : ℕ → CapBody

-- The body of a user's request; a property that is not there is `none`. `paid_enabled` is the truth
-- value of what was sent.
pub record SettingsBody : Type 0 where
  pub paid_enabled : Option Bool
  pub spend_cap_units : Option CapBody

unfoldable pub with_paid : Option Bool → UserConfigRecord → UserConfigRecord
with_paid none c = c
with_paid (some paid) c = record c { paid_enabled = paid }

-- The settings with the cap of the request; `none` if it is refused.
unfoldable pub with_cap : Option CapBody → UserConfigRecord → Option UserConfigRecord
with_cap none c = some c
with_cap (some CapBody.malformed) c = none
with_cap (some CapBody.no_cap) c = some (record c { spend_cap_units = none })
with_cap (some (CapBody.cap n)) c = some (record c { spend_cap_units = some (pos n) })

-- What an administrator may set, where the values have the type of the settings.
pub record UpdateBody : Type 0 where
  pub free_units : Option (Option ℤ)
  pub max_keys : Option ℤ
  pub spend_cap_units : Option (Option ℤ)
  pub admin_cap_units : Option (Option ℤ)
  pub paid_enabled : Option Bool
  pub comp : Option Bool

unfoldable pub updated_by : Text → UpdateBody → UserConfigRecord → UserConfigRecord
updated_by admin body c = record {
  free_units = get_or body.free_units c.free_units;
  max_keys = get_or body.max_keys c.max_keys;
  spend_cap_units = get_or body.spend_cap_units c.spend_cap_units;
  admin_cap_units = get_or body.admin_cap_units c.admin_cap_units;
  paid_enabled = get_or body.paid_enabled c.paid_enabled;
  comp = get_or body.comp c.comp;
  changed_by = admin;
  timestamp = c.timestamp;
}

unfoldable pub sum_invoice_amounts : List Invoice → ℕ
sum_invoice_amounts invoices = sum (map (λ i. i.amount) invoices)

-- The two answers without an account at Stripe.
abbrev pub is_no_customer : Text → Bool
is_no_customer customer = text_eq customer [] || text_eq customer (text "—")

-- This route has its own envelope: a fault of the billing store shows as no spending.
unfoldable pub spend_fault : Fault → Response ℕ
spend_fault (auth_error code) = Response.failed 404 none
spend_fault (Fault.api_error status message) = json 200 0
spend_fault Fault.rate_limit_error = json 200 0
spend_fault (Fault.email_send_error status) = json 200 0
spend_fault (Fault.redirect to) = json 200 0
spend_fault Fault.not_found = json 200 0
spend_fault (Fault.failure message) = json 200 0

module _ {env : Env} where
  unfoldable pub save : Text → Option UserConfigRecord → Action env (Response Done)
  save user none =
      pure (Response.failed 400 (some (text "spendCapUnits must be a non-negative number or null")))
  save user (some c) = do append_config user c; pure (json 200 done)

  unfoldable pub settings_for : Text → SettingsBody → Action env (Response Done)
  settings_for user body = do
    current ← get_current_config user
    save user (
        with_cap body.spend_cap_units
          (with_paid body.paid_enabled (record current { changed_by = user })))

  unfoldable pub post_settings : SettingsBody → Action env (Response Done)
  post_settings body =
      route unauthorized (do user ← require_user false; settings_for user.user_id body)

  unfoldable pub open_portal : BillingStore env → Text → Action env (Response Text)
  open_portal billing [] = pure (Response.failed 400 (some (text "No billing account")))
  open_portal billing (c ∷ customer) = do
    url ←
        billing.create_billing_portal_session (c ∷ customer)
          (get_or env.auth_url (text "http://localhost:3000") ++ text "/dashboard/billing")
    pure (json 200 url)

  unfoldable pub post_portal : BillingStore env → Action env (Response Text)
  post_portal billing = route unauthorized (do
    user ← require_user false
    perms ← get_current_permissions user.user_id
    open_portal billing perms.stripe_customer_id)

  unfoldable pub post_update : Text → UpdateBody → Action env (Response Done)
  post_update id body = route hidden (do
    admin ← require_admin false
    current ← get_current_config id
    append_config id (updated_by admin.user_id body current)
    pure (json 200 done))

  unfoldable pub post_block : Text → Action env (Response Done)
  post_block id =
      route hidden (do
        admin ← require_admin false
        set_user_blocked id true admin.user_id
        pure (json 200 done))

  unfoldable pub post_unblock : Text → Action env (Response Done)
  post_unblock id = route hidden (do
    admin ← require_admin false
    set_user_blocked id false admin.user_id
    pure (json 200 done))

  unfoldable pub spend_of : BillingStore env → Text → Bool → Action env (Response ℕ)
  spend_of billing customer true = pure (json 200 0)
  spend_of billing customer false = do
    invoices ← billing.get_invoices customer
    pure (json 200 (sum_invoice_amounts invoices))

  unfoldable pub get_spend : BillingStore env → Text → Action env (Response ℕ)
  get_spend billing customer =
      catch (do require_admin false; spend_of billing customer (is_no_customer customer))
        (λ e. pure (spend_fault e))
