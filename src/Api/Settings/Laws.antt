-- ===== src/Api/Settings/Laws.antt =====
-- What a user may change of the settings, and who may act as an administrator.
use canonizr_hda.Prelude.{ℕ, Text, text, ◌≡◌, refl, ◌∙◌, Bool, false, Option, none, some}
use canonizr_hda.World.Actions.{ok, err, Fault, Env, World}
use canonizr_hda.Tables.UserConfig.{UserConfigRecord, get_current_config, append_config}
use canonizr_hda.Tables.UserPermissions.Laws.{permissions, get_current_permissions_lem}
use canonizr_hda.Services.Billing.{BillingStore}
use canonizr_hda.Auth.Session.{User, require_admin, require_user, admin_only}
use canonizr_hda.Auth.Session.Laws.{>>=-eq-ok}
use canonizr_hda.Api.Response.{Response, json}
use canonizr_hda.Api.Route.{Done, answer_of, route}
use canonizr_hda.Api.Settings.{
  CapBody, SettingsBody, with_paid, with_cap, save, settings_for, UpdateBody, post_update,
  post_block, post_unblock, get_spend, spend_fault,
}

-- The settings that are not the user's to change.
abbrev pub SameLimits : UserConfigRecord → UserConfigRecord → Type 0
SameLimits c d =
    (c.admin_cap_units ≡ d.admin_cap_units)
    × (c.free_units ≡ d.free_units)
    × (c.max_keys ≡ d.max_keys)
    × (c.comp ≡ d.comp)

SameLimits-trans : (c d e : UserConfigRecord) → SameLimits c d → SameLimits d e → SameLimits c e
SameLimits-trans c d e (a, f, m, p) (b, g, n, q) = (a ∙ b, f ∙ g, m ∙ n, p ∙ q)

with_paid-SameLimits : (paid : Option Bool) (c : UserConfigRecord) → SameLimits (with_paid paid c) c
unfolding with_paid
with_paid-SameLimits none c = (refl, refl, refl, refl)
with_paid-SameLimits (some paid) c = (refl, refl, refl, refl)

with_cap-SameLimits :
    (cap : Option CapBody) (c d : UserConfigRecord) → with_cap cap c ≡ some d → SameLimits d c
unfolding with_cap
with_cap-SameLimits none c d h = (cc, cc, cc, cc)
with_cap-SameLimits (some CapBody.malformed) c d h = cc
with_cap-SameLimits (some CapBody.no_cap) c d h = (cc, cc, cc, cc)
with_cap-SameLimits (some (CapBody.cap n)) c d h = (cc, cc, cc, cc)

module _ {env : Env} where
  saved :
      (user : Text) (c : Option UserConfigRecord) (s : ℕ) (a : Done) (w v : World env)
      → save user c w ≡ (ok (json s a), v)
      → (d : UserConfigRecord) × (c ≡ some d) × (append_config user d w ≡ (ok tt, v))
  unfolding save
  saved user none s a w v h = cc
  saved user (some d) s a w v h =
      let (t, x, first, second) = >>=-eq-ok (append_config user d w) _ (json s a) v h in
      (d, refl, cc)

  -- When a user's request to change the billing settings succeeds, what is stored differs from the
  -- settings in force neither in the cap set by administrators nor in the free units, the number of
  -- keys or the complimentary flag.
  pub settings_for-SameLimits :
      (user : Text) (body : SettingsBody) (s : ℕ) (a : Done) (w v : World env)
      → settings_for user body w ≡ (ok (json s a), v)
      → (current d : UserConfigRecord) × (u : World env) × (get_current_config user w
          ≡ (ok current, u))
        × (append_config user d u ≡ (ok tt, v))
        × SameLimits d current
  unfolding settings_for
  settings_for-SameLimits user body s a w v h =
      let (current, u, first, second) = >>=-eq-ok (get_current_config user w) _ (json s a) v h in
      let (d, capped, stored) = saved user _ s a u v second in
      let before : UserConfigRecord =
        with_paid body.paid_enabled (record current { changed_by = user }) in
      let paid : SameLimits before current =
        with_paid-SameLimits body.paid_enabled (record current { changed_by = user }) in
      let limits = with_cap-SameLimits body.spend_cap_units before d capped in
      (current, d, u, first, stored, SameLimits-trans d before current limits paid)

  refused_admin :
      (user : User) (w v : World env)
      → require_user false w ≡ (ok user, v)
      → (permissions v user.user_id).is_admin ≡ false
      → require_admin false w ≡ (err (Fault.auth_error (text "Not found")), v)
  unfolding require_admin admin_only
  refused_admin user w v h k = rw (h, get_current_permissions_lem user.user_id v, k) refl

  -- If the user of the session has not the administrator's flag, each of the four routes for
  -- administrators (updating a user's settings, blocking and unblocking a user, reading what a customer
  -- spent) answers 404 without a payload, and nothing is done but what checking the session did.
  pub admin_routes_refused :
      (billing : BillingStore env) (id customer : Text) (body : UpdateBody) (user : User)
      (w v : World env)
      → require_user false w ≡ (ok user, v)
      → (permissions v user.user_id).is_admin ≡ false
      → (post_update id body w ≡ (ok (Response.failed 404 none), v))
        × (post_block id w ≡ (ok (Response.failed 404 none), v))
        × (post_unblock id w ≡ (ok (Response.failed 404 none), v))
        × (get_spend billing customer w ≡ (ok (Response.failed 404 none), v))
  unfolding post_update post_block post_unblock get_spend route answer_of spend_fault
  admin_routes_refused billing id customer body user w v h k =
      let refused = refused_admin user w v h k in
      (rw refused refl, rw refused refl, rw refused refl, rw refused refl)
