-- ===== src/Auth/Session/Laws.antt =====
-- Who passes the checks.
use canonizr_hda.Prelude.{◌≡◌, refl, Bool, true, false, Option, none, some}
use canonizr_hda.World.Actions.{Outcome, ok, err, Env, World, Action, continue}
use canonizr_hda.Tables.UserPermissions.Laws.{permissions, get_current_permissions_lem}
use canonizr_hda.Auth.Setup.{ensure_user_setup}
use canonizr_hda.Auth.Session.{User, user_of, signed_in, require_user, admin_only, require_admin}

module _ {env : Env} where
  -- A successful step followed by another: the first succeeded and the second went on from there.
  pub >>=-eq-ok :
      {A B : Type 0} (r : Outcome A × World env) (f : A → Action env B) (b : B) (v : World env)
      → continue r f ≡ (ok b, v)
      → (a : A) × (w : World env) × (r ≡ (ok a, w)) × (f a w ≡ (ok b, v))
  >>=-eq-ok (ok a, w) f b v h = (a, w, refl, h)
  >>=-eq-ok (err e, w) f b v h = cc

  admin_only_sound :
      (auto : Bool) (admin : Bool) (user u : User) (w v : World env)
      → admin_only auto admin user w ≡ (ok u, v)
      → (admin ≡ true) × (user ≡ u) × (w ≡ v)
  unfolding admin_only
  admin_only_sound auto true user u w v h = (refl, cc, cc)
  admin_only_sound true false user u w v h = cc
  admin_only_sound false false user u w v h = cc

  signed_in_sound :
      (auto : Bool) (found : Option User) (u : User) (w v : World env)
      → signed_in auto found w ≡ (ok u, v)
      → found ≡ some u
  unfolding signed_in
  signed_in_sound true none u w v h = cc
  signed_in_sound false none u w v h = cc
  signed_in_sound auto (some user) u w v h =
      let (a, x, first, last) = >>=-eq-ok (ensure_user_setup user.user_id w) _ u v h in cc

  -- Whoever passes the check for administrators is the user of the session, and the permissions that
  -- the tables hold for this user at the end have the administrator's flag.
  pub require_admin_sound :
      (auto : Bool) (u : User) (w v : World env)
      → require_admin auto w ≡ (ok u, v)
      → (user_of w.session ≡ some u) × ((permissions v u.user_id).is_admin ≡ true)
  unfolding require_admin require_user
  require_admin_sound auto u w v h =
      let (a, x, first, second) = >>=-eq-ok (signed_in auto (user_of w.session) w) _ u v h in
      let found = signed_in_sound auto (user_of w.session) a w x first in
      let checked : admin_only auto (permissions x a.user_id).is_admin a x ≡ (ok u, v) =
        rw (get_current_permissions_lem a.user_id x) at second in
      let (admin, same, last) =
        admin_only_sound auto (permissions x a.user_id).is_admin a u x v checked in
      (rw (← same) found, rw (← same, ← last) admin)
