-- ===== src/Tables/UserPermissions/History.antt =====
-- The append-only table of permissions, portal/lib/data/tables/user-permissions.ts, against what it
-- stands for: a record for each user that is changed in place.
use canonizr_hda.Prelude.{
  ℕ, ◌+◌, ◌≤◌, if◌then◌else◌, Bool-cases, filter, All, Text, text_eq, text_eq_iff, ◌≡◌, refl, ap,
  ◌∙◌, fun_ext, inl, inr, Bool, List, [], ◌∷◌, arith,
}
use canonizr_hda.Storage.Rows.{Row, in_partition}
use canonizr_hda.Storage.Partitions.{filter-put_row_other}
use canonizr_hda.World.Time.{iso_string}
use canonizr_hda.World.Actions.{list_entities, Env, World, random_uuid, upsert_entity}
use canonizr_hda.Tables.TableName
use canonizr_hda.Tables.AppendOnly.{get_latest, max_ms, row_key_at, inverted_timestamp_rk}
use canonizr_hda.Tables.AppendOnly.Laws.{IsBefore, IsHistory, IsHistory-IsNewest, rows_upserted}
use canonizr_hda.Tables.UserPermissions.{
  get_current_permissions, UserPermissionsRecord, permissions_entity, append_permissions,
  set_user_blocked, set_user_delinquent,
}
use canonizr_hda.Tables.UserPermissions.Laws.{
  permissions, permissions-append_permissions, permissions-append_permissions_other,
}

-- A call that changes permissions.
pub data Change : Type 0 where
  appending : (user : Text) (p : UserPermissionsRecord) → Change
  blocking : (user : Text) (blocked : Bool) (by : Text) → Change
  flagging : (user : Text) (delinquent : Bool) (by : Text) → Change

-- The permissions of every user.
abbrev pub Permissions : Type 0
Permissions = Text → UserPermissionsRecord

-- Whose permissions a change sets, and to what but for the time.
unfoldable pub entry : Change → Permissions → Text × UserPermissionsRecord
entry (appending user p) m = (user, p)
entry (blocking user blocked by) m = (user, record (m user) { blocked = blocked; changed_by = by })
entry (flagging user delinquent by) m =
    (user, record (m user) { delinquent = delinquent; changed_by = by })

-- A change at a time, in place.
unfoldable pub apply : ℕ → Text × UserPermissionsRecord → Permissions → Permissions
apply now (user, p) m u = if text_eq u user then record p { timestamp = iso_string now } else m u

unfoldable pub replay : List (ℕ × Change) → Permissions → Permissions
replay [] m = m
replay ((now, change) ∷ changes) m = replay changes (apply now (entry change m) m)

-- Times that increase from `from` on, before the year 2286.
unfoldable pub InOrder : ℕ → List (ℕ × Change) → Type 0
InOrder from [] = Unit {0}
InOrder from ((now, change) ∷ changes) = (from ≤ now) × (now ≤ max_ms) × InOrder (now + 1) changes

weaken :
    (from now : ℕ) (xs : List Row) → from ≤ now → All (IsBefore from) xs → All (IsBefore now) xs
weaken from now [] k h = tt
weaken from now (x ∷ xs) k (b, h) = (
  record {
    time = b.time;
    uuid = b.uuid;
    keyed = b.keyed;
    earlier = let e = b.earlier in omega arith;
  },
  weaken from now xs k h,
)

module _ {env : Env} where
  abbrev pub at_time : ℕ → World env → World env
  at_time t w = record w { now = t }

  unfoldable pub change_at : ℕ → Change → World env → World env
  change_at now (appending user p) w = (append_permissions user p (at_time now w)).1
  change_at now (blocking user blocked by) w = (set_user_blocked user blocked by (at_time now w)).1
  change_at now (flagging user delinquent by) w =
      (set_user_delinquent user delinquent by (at_time now w)).1

  unfoldable pub run : List (ℕ × Change) → World env → World env
  run [] w = w
  run ((now, change) ∷ changes) w = run changes (change_at now change w)

  -- Every row was appended before a time.
  abbrev pub IsLog : ℕ → World env → Type 0
  IsLog from w =
      (user : Text)
      → All (IsBefore from)
          (filter (in_partition user) (env.storage.rows w.tables TableName.user_permissions))

  permissions-at_time :
      (t : ℕ) (w : World env) (u : Text) → permissions (at_time t w) u ≡ permissions w u
  unfolding permissions
  permissions-at_time t w u = refl

  -- Every change appends one record.
  change_at-append :
      (now : ℕ) (change : Change) (w : World env)
      → change_at now change w
        ≡ (append_permissions
            (entry change (permissions w)).0
            (entry change (permissions w)).1
            (at_time now w)).1
  unfolding change_at entry set_user_blocked set_user_delinquent permissions get_current_permissions
      get_latest list_entities
  change_at-append now (appending user p) w = refl
  change_at-append now (blocking user blocked by) w = refl
  change_at-append now (flagging user delinquent by) w = refl

  module _ (now from : ℕ) (w : World env) (log : IsLog from w) (later : from ≤ now)
      (bound : now ≤ max_ms) where
    history : (user : Text) → IsHistory TableName.user_permissions user (at_time now w)
    history user = (bound, weaken from now _ later (log user))

    append-IsLog :
        (user : Text) (p : UserPermissionsRecord)
        → IsLog (now + 1) (append_permissions user p (at_time now w)).1
    unfolding append_permissions inverted_timestamp_rk random_uuid upsert_entity
    append-IsLog user p u = elim (Bool-cases (text_eq u user)) [
      | inl same ↦
          rw
            (
              (text_eq_iff u user).0 same,
              rows_upserted TableName.user_permissions user (row_key_at now (env.uuid w.drawn))
                  (permissions_entity (iso_string now) p) (at_time now w)
                  (IsHistory-IsNewest TableName.user_permissions user (env.uuid w.drawn)
                    (at_time now w) (history user)),
            )
            (
              record { time = now; uuid = env.uuid w.drawn; keyed = refl; earlier = omega arith },
              weaken from (now + 1) _ (omega arith) (log user),
            )
      | inr other ↦
          rw
            (
              env.storage.rows-upsert_entity w.tables TableName.user_permissions user
                  (row_key_at now (env.uuid w.drawn)) (permissions_entity (iso_string now) p)
                  TableName.user_permissions,
              filter-put_row_other user (row_key_at now (env.uuid w.drawn)) u
                  (permissions_entity (iso_string now) p)
                  (env.storage.rows w.tables TableName.user_permissions) other,
            )
            (weaken from (now + 1) _ (omega arith) (log u))
    ]

    append-apply :
        (user : Text) (p : UserPermissionsRecord) (u : Text)
        → permissions (append_permissions user p (at_time now w)).1 u
          ≡ apply now (user, p) (permissions w) u
    unfolding apply
    append-apply user p u = elim (Bool-cases (text_eq u user)) [
      | inl same ↦ rw same (
          rw ((text_eq_iff u user).0 same)
            (permissions-append_permissions user p (at_time now w) (history user)))
      | inr other ↦ rw other (
          permissions-append_permissions_other user p (at_time now w) u other
          ∙ permissions-at_time now w u)
    ]

    change_at-IsLog : (change : Change) → IsLog (now + 1) (change_at now change w)
    change_at-IsLog change =
        rw (change_at-append now change w)
          (append-IsLog (entry change (permissions w)).0 (entry change (permissions w)).1)

    permissions-change_at :
        (change : Change)
        → permissions (change_at now change w)
          ≡ apply now (entry change (permissions w)) (permissions w)
    permissions-change_at change = fun_ext (λ u.
        rw (change_at-append now change w)
          (append-apply (entry change (permissions w)).0 (entry change (permissions w)).1 u))

  -- After changes at increasing times, through the append-only table, every user has the permissions
  -- that the changes would have made in place: what is read is the last record of each user, and no
  -- change touches the record of another user.
  pub permissions-run :
      (changes : List (ℕ × Change)) (from : ℕ) (w : World env)
      → IsLog from w
      → InOrder from changes
      → permissions (run changes w) ≡ replay changes (permissions w)
  unfolding run replay InOrder
  permissions-run [] from w log order = refl
  permissions-run ((now, change) ∷ changes) from w log (later, bound, order) =
      permissions-run changes (now + 1) (change_at now change w)
        (change_at-IsLog now from w log later bound change) order
      ∙ ap (replay changes) (permissions-change_at now from w log later bound change)
