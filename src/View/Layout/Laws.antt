-- ===== src/View/Layout/Laws.antt =====
-- The flags that surround every page of the dashboard, portal/app/dashboard/layout.tsx.
use canonizr_hda.Prelude.{ℕ, get_or, Text, ◌≡◌, refl, sym, ap, ◌∙◌, Option, none, some, List, []}
use canonizr_hda.World.Actions.{ok, pure, SessionUser, Env, World}
use canonizr_hda.Tables.UserPermissions.Laws.{permissions, get_current_permissions_lem}
use canonizr_hda.Auth.Session.Laws.{>>=-eq-ok}
use canonizr_hda.Jobs.Table.{Pages}
use canonizr_hda.Jobs.Row.{ArtefactEntry}
use canonizr_hda.Jobs.Pages.{RecentError, get_recent_error}
use canonizr_hda.View.Layout.{Flags, DashboardLayout, read_flags, layout_for, dashboard_layout}

module _ {env : Env} where
  abbrev pub flags_in : World env → Text → Flags
  flags_in w user = record {
    is_admin = (permissions w user).is_admin;
    blocked = (permissions w user).blocked;
    delinquent = (permissions w user).delinquent;
  }

  read_flags_lem : (user : Text) (w : World env) → read_flags user w ≡ (ok (flags_in w user), w)
  unfolding read_flags
  read_flags_lem user w = rw (get_current_permissions_lem user w) refl

  result_inj : (k l : DashboardLayout) (w v : World env) → pure k w ≡ (ok l, v) → (k ≡ l) × (w ≡ v)
  result_inj k l w v h = (cc, cc)

  module _ (date_ms : Text → Option ℕ) (json_array : Text → Option (List ArtefactEntry))
      (pages : Pages) where
    pub layout_for_lem :
        (s : SessionUser) (error : Option RecentError) (w : World env)
        → get_recent_error date_ms json_array pages w ≡ (ok error, w)
        → layout_for date_ms json_array pages (some s) w ≡ (
          ok (record {
            email = get_or s.email [];
            flags = flags_in w (get_or s.id []);
            recent_error = error;
          }),
          w,
        )
    unfolding layout_for
    layout_for_lem s error w h = rw (h, read_flags_lem (get_or s.id []) w) refl

    layout_for_sound :
        (session : Option SessionUser) (l : DashboardLayout) (w v : World env)
        → layout_for date_ms json_array pages session w ≡ (ok l, v)
        → (s : SessionUser) × (session ≡ some s)
          × (l.email ≡ get_or s.email [])
          × (l.flags ≡ flags_in v (get_or s.id []))
    unfolding layout_for
    layout_for_sound none l w v h = cc
    layout_for_sound (some s) l w v h =
        let (error, x, first, second) =
          >>=-eq-ok (get_recent_error date_ms json_array pages w) _ l v h in
        let built : DashboardLayout = record {
          email = get_or s.email [];
          flags = flags_in x (get_or s.id []);
          recent_error = error;
        } in
        let (same, last) =
          result_inj built l x v (rw (read_flags_lem (get_or s.id []) x) at second) in
        (
          s,
          refl,
          sym (ap (λ k. k.email) same),
          sym (ap (λ k. k.flags) same) ∙ ap (λ u. flags_in u (get_or s.id [])) last,
        )

    -- Whoever is shown a page of the dashboard is a user of the session, and what surrounds it has this
    -- user's address and the flags that the tables hold for this user.
    dashboard_layout_sound :
        (l : DashboardLayout) (w v : World env)
        → dashboard_layout date_ms json_array pages w ≡ (ok l, v)
        → (s : SessionUser) × (w.session ≡ some s)
          × (l.email ≡ get_or s.email [])
          × (l.flags ≡ flags_in v (get_or s.id []))
    unfolding dashboard_layout
    dashboard_layout_sound l w v h = layout_for_sound w.session l w v h
