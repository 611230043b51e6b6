-- ===== src/Tables/UserConfig/Laws.antt =====
-- What is read back after settings were appended.
use canonizr_hda.Prelude.{ℕ, get_or, Text, ◌≡◌, refl, some, arith}
use canonizr_hda.Prelude.Int.{pos}
use canonizr_hda.Storage.Entity.{prop}
use canonizr_hda.World.Time.{iso_string}
use canonizr_hda.World.Actions.{ok, Env, World, random_uuid, upsert_entity}
use canonizr_hda.Tables.TableName
use canonizr_hda.Tables.AppendOnly.{inverted_timestamp_rk, row_key_at}
use canonizr_hda.Tables.AppendOnly.Laws.{IsHistory, IsHistory-IsNewest, get_latest-upsert_entity}
use canonizr_hda.Tables.UserConfig.{
  UserConfigRecord, config_entity, get_defaults, or_default, config_of, get_current_config,
  append_config,
}

-- The settings as they are read back: stamped, and with the default where no allowance was stored.
unfoldable pub stored : ℕ → UserConfigRecord → ℕ → UserConfigRecord
stored default c now = record c {
  free_units = some (get_or c.free_units (pos default));
  timestamp = iso_string now;
}

module _ {env : Env} where
  config_of-config_entity :
      (default now : ℕ) (c : UserConfigRecord) (w : World env)
      → env.default_free_units ≡ some default
      → config_of (some (config_entity (iso_string now) c)) w ≡ (ok (stored default c now), w)
  unfolding config_of or_default get_defaults stored prop
  config_of-config_entity default now c w h = ground arith

  -- Settings that were appended are the current ones, but for an allowance of null, which is read
  -- back as the default allowance; the time of the append is their timestamp.
  pub get_current_config-append_config :
      (default : ℕ) (user : Text) (c : UserConfigRecord) (w : World env)
      → env.default_free_units ≡ some default
      → IsHistory TableName.user_config user w
      → get_current_config user (append_config user c w).1
        ≡ (ok (stored default c w.now), (append_config user c w).1)
  unfolding get_current_config append_config inverted_timestamp_rk random_uuid upsert_entity
  get_current_config-append_config default user c w h k =
      let key : Text = row_key_at w.now (env.uuid w.drawn) in
      let newest = IsHistory-IsNewest TableName.user_config user (env.uuid w.drawn) w k in
      rw
        (get_latest-upsert_entity TableName.user_config user key
          (config_entity (iso_string w.now) c) w (append_config user c w).1 newest refl)
        (config_of-config_entity default w.now c (append_config user c w).1 h)
