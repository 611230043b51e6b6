-- ===== src/Tables/UserConfig.antt =====
-- The UserConfig table, portal/lib/data/tables/user-config.ts: billing and quota settings, append-only.
-- Numbers are whole; `null` is `none`.
use canonizr_hda.Prelude.{max, get_or, Text, text, Bool, false, Option, none, some, [], ◌∷◌, map}
use canonizr_hda.Prelude.Int.{ℤ, pos, negsuc}
use canonizr_hda.Storage.Entity.{
  Value, str, num, bool, Entity, prop, nullable, str_or, num_or, bool_or, num?,
}
use canonizr_hda.World.Time.{iso_string}
use canonizr_hda.World.Actions.{
  Outcome, ok, err, Fault, failure, Env, World, Action, ◌>>=◌, ◌>>◌, pure, raise, gets,
  upsert_entity,
}
use canonizr_hda.Tables.TableName
use canonizr_hda.Tables.AppendOnly.{inverted_timestamp_rk, get_latest}
use mathlib.Core.Option
pub mod Laws

pub record UserConfigRecord : Type 0 where
  pub free_units : Option ℤ
  pub max_keys : ℤ
  pub spend_cap_units : Option ℤ
  pub admin_cap_units : Option ℤ
  pub paid_enabled : Bool
  pub comp : Bool
  pub changed_by : Text
  pub timestamp : Text

-- The record that is stored; a null setting leaves no property behind.
abbrev pub config_entity : Text → UserConfigRecord → Entity
config_entity stamp c =
    ("timestamp", str stamp)
    ∷ ("maxKeys", num c.max_keys)
    ∷ ("paidEnabled", bool c.paid_enabled)
    ∷ ("comp", bool c.comp)
    ∷ ("changedBy", str c.changed_by)
    ∷ nullable "freeUnits" (Option.map num c.free_units) (
        nullable "spendCapUnits" (Option.map num c.spend_cap_units)
          (nullable "adminCapUnits" (Option.map num c.admin_cap_units) []))

module _ {env : Env} where
  -- `getDefaults`: the settings of a user with no record; it throws if the variable is not set.
  unfoldable pub get_defaults : Action env UserConfigRecord
  get_defaults = elim env.default_free_units [
    | none ↦ raise (failure (text "Missing or invalid env var: DEFAULT_FREE_UNITS"))
    | some n ↦ pure (record {
      free_units = some (pos n);
      max_keys = pos 100;
      spend_cap_units = none;
      admin_cap_units = none;
      paid_enabled = false;
      comp = false;
      changed_by = text "system";
      timestamp = [];
    })
  ]

  -- `x ?? getDefaults().f`: the defaults are read only where the property is missing.
  unfoldable pub or_default : Option ℤ → (UserConfigRecord → Option ℤ) → Action env (Option ℤ)
  or_default (some n) f = pure (some n)
  or_default none f = do d ← get_defaults; pure (f d)

  unfoldable pub config_of : Option Entity → Action env UserConfigRecord
  config_of none = get_defaults
  config_of (some row) = do
    free ← or_default (num? (prop "freeUnits" row)) (λ d. d.free_units)
    max ← or_default (num? (prop "maxKeys" row)) (λ d. some d.max_keys)
    pure (record {
      free_units = free;
      max_keys = get_or max (pos 100);
      spend_cap_units = num? (prop "spendCapUnits" row);
      admin_cap_units = num? (prop "adminCapUnits" row);
      paid_enabled = bool_or (prop "paidEnabled" row) false;
      comp = bool_or (prop "comp" row) false;
      changed_by = str_or (prop "changedBy" row) (text "system");
      timestamp = str_or (prop "timestamp" row) [];
    })

  unfoldable pub get_current_config : Text → Action env UserConfigRecord
  get_current_config user = do row ← get_latest TableName.user_config user; config_of row

  unfoldable pub append_config : Text → UserConfigRecord → Action env Unit
  append_config user c = do
    key ← inverted_timestamp_rk
    now ← gets (λ w. w.now)
    upsert_entity TableName.user_config user key (config_entity (iso_string now) c)
