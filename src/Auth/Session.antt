-- ===== src/Auth/Session.antt =====
-- Who makes a request: portal/lib/auth/session.ts.
use canonizr_hda.Prelude.{Text, text, Bool, true, false, Option, none, some, ◌∷◌}
use canonizr_hda.World.Actions.{
  Env, World, Action, ◌>>=◌, ◌>>◌, pure, raise, gets, auth_error, redirect, not_found, SessionUser,
}
use canonizr_hda.Tables.UserPermissions.{get_current_permissions}
use canonizr_hda.Auth.Setup.{ensure_user_setup}
pub mod Laws

-- `{ userId, email }`.
pub record User : Type 0 where
  pub user_id : Text
  pub email : Text

abbrev pub user_with : Option Text → Option Text → Option User
user_with (some (c ∷ id)) (some (d ∷ email)) = some (record { user_id = c ∷ id; email = d ∷ email })
user_with _ _ = none

-- A session counts if it has an id and an email that are not empty.
unfoldable pub user_of : Option SessionUser → Option User
user_of none = none
user_of (some s) = user_with s.id s.email

module _ {env : Env} where
  unfoldable pub signed_in : Bool → Option User → Action env User
  signed_in true none = raise (redirect (text "/auth"))
  signed_in false none = raise (auth_error (text "Unauthorized"))
  signed_in auto_redirect (some user) = do ensure_user_setup user.user_id; pure user

  unfoldable pub require_user : Bool → Action env User
  require_user auto_redirect = do
    session ← gets (λ w. w.session)
    signed_in auto_redirect (user_of session)

  unfoldable pub admin_only : Bool → Bool → User → Action env User
  admin_only auto_redirect true user = pure user
  admin_only true false user = raise not_found
  admin_only false false user = raise (auth_error (text "Not found"))

  unfoldable pub require_admin : Bool → Action env User
  require_admin auto_redirect = do
    user ← require_user auto_redirect
    perms ← get_current_permissions user.user_id
    admin_only auto_redirect perms.is_admin user
