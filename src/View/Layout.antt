-- ===== src/View/Layout.antt =====
-- What surrounds every page of the dashboard, portal/app/dashboard/layout.tsx.
use canonizr_hda.Prelude.{
  ℕ, zero, suc, ◌+◌, ◌-◌, ◌*◌, ◌/◌, ◌%◌, ◌^◌, ◌≤◌, ◌<◌, min, max, ltb, leb, ◌==◌, if◌then◌else◌,
  ltb→lt, lt→ltb, leb→le, le→leb, ==_iff, Bool-cases, Option-cases, &&-eq-true, length,
  length-append, replicate, take, head?, filter, any, all, find?, get_or, is_some, filter-append,
  All, sum, sum-append, Text, text, text_eq, text_eq_iff, text_eq_refl, text_lt, text_lt_irrefl,
  text_lt_asymm, text_lt-append_left, text_lt-append_right, decimal, decimal_from, pad_start, ◌≡◌,
  refl, sym, ap, ◌∙◌, subst, fun_ext, ◌≢◌, ◌↔◌, ◌⊎◌, inl, inr, Bool, true, false, not, ◌&&◌, ◌||◌,
  Option, none, some, List, [], ◌∷◌, ◌++◌, map, append-nil, append_assoc, arith, tests, to_number,
  to_number_from,
}
use canonizr_hda.World.Actions.{
  redirect, SessionUser, Env, World, Action, ◌>>=◌, pure, raise, gets, catch,
}
use canonizr_hda.Tables.UserPermissions.{get_current_permissions}
use canonizr_hda.Jobs.Table.{Pages}
use canonizr_hda.Jobs.Row.{ArtefactEntry}
use canonizr_hda.Jobs.Pages.{RecentError, get_recent_error}
pub mod Laws
pub mod Overdue

-- `isAdmin`, `blocked` and `delinquent`.
pub record Flags : Type 0 where
  pub is_admin : Bool
  pub blocked : Bool
  pub delinquent : Bool

pub record DashboardLayout : Type 0 where
  pub email : Text
  pub flags : Flags
  pub recent_error : Option RecentError

abbrev pub no_flags : Flags
no_flags = record { is_admin = false; blocked = false; delinquent = false }

module _ {env : Env} where
  -- The flags of a user; none of them if they cannot be read.
  unfoldable pub read_flags : Text → Action env Flags
  read_flags user =
      catch
        (do
          perms ← get_current_permissions user
          pure (record {
            is_admin = perms.is_admin;
            blocked = perms.blocked;
            delinquent = perms.delinquent;
          }))
        (λ e. pure no_flags)

  module _ (date_ms : Text → Option ℕ) (json_array : Text → Option (List ArtefactEntry))
      (pages : Pages) where
    unfoldable pub layout_for : Option SessionUser → Action env DashboardLayout
    layout_for none = raise (redirect (text "/auth"))
    layout_for (some user) = do
      error ← get_recent_error date_ms json_array pages
      flags ← read_flags (get_or user.id [])
      pure (record { email = get_or user.email []; flags = flags; recent_error = error })

    unfoldable pub dashboard_layout : Action env DashboardLayout
    dashboard_layout = do session ← gets (λ w. w.session); layout_for session
