-- ===== src/Auth/Setup/Once.antt =====
-- Setting an account up provides settings, and happens once, also where the process has forgotten it.
use canonizr_hda.Prelude.{
  ℕ, Bool-cases, head?, filter, any, get_or, Text, text, text_eq, ◌≡◌, refl, sym, ap, ◌∙◌, inl, inr,
  true, false, Option, none, some, List, [], ◌∷◌, ◌++◌,
}
use canonizr_hda.Prelude.Int.{ℤ, pos}
use canonizr_hda.Storage.Entity.{Entity, prop, num?, str_or, bool_or}
use canonizr_hda.Storage.Rows.{in_partition}
use canonizr_hda.World.Time.{iso_string}
use canonizr_hda.World.Actions.{ok, Env, World, list_entities, random_uuid, upsert_entity}
use canonizr_hda.Tables.TableName
use canonizr_hda.Tables.AppendOnly.{entity_of, get_latest, inverted_timestamp_rk}
use canonizr_hda.Tables.AppendOnly.Laws.{IsHistory}
use canonizr_hda.Tables.UserConfig.{
  UserConfigRecord, get_defaults, or_default, config_of, get_current_config, append_config,
}
use canonizr_hda.Tables.UserConfig.Laws.{stored, get_current_config-append_config}
use canonizr_hda.Keys.Store.{ApiKey, create, write_key}
use canonizr_hda.Keys.Listing.{keys_in, list_lem}
use canonizr_hda.Auth.Setup.{
  is_blank, first_key, provision, complete, ensure_from, ensure_user_setup,
}

abbrev either : Option ℤ → Option ℤ → Option ℤ
either none o = o
either (some n) o = some n

-- The settings that a row holds, and those without a row.
abbrev config_at : ℕ → Option Entity → UserConfigRecord
config_at default none = record {
  free_units = some (pos default);
  max_keys = pos 100;
  spend_cap_units = none;
  admin_cap_units = none;
  paid_enabled = false;
  comp = false;
  changed_by = text "system";
  timestamp = [];
}
config_at default (some row) = record {
  free_units = either (num? (prop "freeUnits" row)) (some (pos default));
  max_keys = get_or (either (num? (prop "maxKeys" row)) (some (pos 100))) (pos 100);
  spend_cap_units = num? (prop "spendCapUnits" row);
  admin_cap_units = num? (prop "adminCapUnits" row);
  paid_enabled = bool_or (prop "paidEnabled" row) false;
  comp = bool_or (prop "comp" row) false;
  changed_by = str_or (prop "changedBy" row) (text "system");
  timestamp = str_or (prop "timestamp" row) [];
}

is_blank-append : (u s : Text) → u ≡ s ++ text "Z" → is_blank u ≡ false
unfolding text
is_blank-append u [] h = rw h refl
is_blank-append u (c ∷ s) h = rw h refl

is_blank-iso_string : (now : ℕ) → is_blank (iso_string now) ≡ false
unfolding iso_string
is_blank-iso_string now = is_blank-append (iso_string now) _ refl

module _ {env : Env} (default : ℕ) (configured : env.default_free_units ≡ some default) where
  latest_in : World env → Text → Option Entity
  latest_in w user =
      entity_of
        (head? (filter (in_partition user) (env.storage.rows w.tables TableName.user_config)))

  config_in : World env → Text → UserConfigRecord
  config_in w user = config_at default (latest_in w user)

  get_defaults_lem : (w : World env) → get_defaults w ≡ (ok (config_at default none), w)
  unfolding get_defaults
  get_defaults_lem w = rw configured refl

  or_default_lem :
      (o : Option ℤ) (f : UserConfigRecord → Option ℤ) (w : World env)
      → or_default o f w ≡ (ok (either o (f (config_at default none))), w)
  unfolding or_default
  or_default_lem none f w = rw (get_defaults_lem w) refl
  or_default_lem (some n) f w = refl

  config_of_lem :
      (o : Option Entity) (w : World env) → config_of o w ≡ (ok (config_at default o), w)
  unfolding config_of
  config_of_lem none w = get_defaults_lem w
  config_of_lem (some row) w =
      rw
        (
          or_default_lem (num? (prop "freeUnits" row)) (λ d. d.free_units) w,
          or_default_lem (num? (prop "maxKeys" row)) (λ d. some d.max_keys) w,
        )
        refl

  get_current_config_lem :
      (user : Text) (w : World env) → get_current_config user w ≡ (ok (config_in w user), w)
  unfolding get_current_config get_latest list_entities config_in latest_in
  get_current_config_lem user w = config_of_lem (latest_in w user) w

  -- Where a user has settings, setting up writes nothing, whoever the process remembers.
  settled :
      (user : Text) (memo : List Text) (v : World env)
      → is_blank (config_in v user).timestamp ≡ false
      → (ensure_user_setup user (record v { setup_complete = memo })).1.tables ≡ v.tables
  unfolding ensure_user_setup ensure_from provision complete config_in latest_in
  settled user memo v h = elim (Bool-cases (any (text_eq user) memo)) [
    | inl known ↦ rw known refl
    | inr new ↦ rw (new, get_current_config_lem user (record v { setup_complete = memo }), h) refl
  ]

  -- A key that is made for a user without keys leaves the settings alone.
  rows-first_key :
      (user : Text) (keys : List ApiKey) (w : World env)
      → env.storage.rows (first_key user keys w).1.tables TableName.user_config
        ≡ env.storage.rows w.tables TableName.user_config
  unfolding first_key create write_key random_uuid upsert_entity
  rows-first_key user [] w =
      rw
        (
          env.storage.rows-upsert_entity _ TableName.gw_api_keys _ _ _ TableName.user_config,
          env.storage.rows-upsert_entity _ TableName.gw_subscriptions _ _ _ TableName.user_config,
          env.storage.rows-upsert_entity w.tables TableName.api_keys _ _ _ TableName.user_config,
        )
        refl
  rows-first_key user (k ∷ ks) w = refl

  first_key_ok :
      (user : Text) (keys : List ApiKey) (w : World env)
      → first_key user keys w ≡ (ok tt, (first_key user keys w).1)
  unfolding first_key create write_key random_uuid upsert_entity
  first_key_ok user [] w = refl
  first_key_ok user (k ∷ ks) w = refl

  abbrev appended : Text → World env → World env
  appended user w =
      (append_config user (record (config_at default none) { changed_by = text "system" }) w).1

  abbrev provisioned : Text → World env → World env
  provisioned user w = (first_key user (keys_in (appended user w) user) (appended user w)).1

  append_config_ok :
      (user : Text) (c : UserConfigRecord) (w : World env)
      → append_config user c w ≡ (ok tt, (append_config user c w).1)
  unfolding append_config inverted_timestamp_rk random_uuid upsert_entity
  append_config_ok user c w = refl

  provision_lem :
      (user : Text) (c : UserConfigRecord) (w : World env)
      → is_blank c.timestamp ≡ true
      → provision user c w ≡ (ok tt, provisioned user w)
  unfolding provision
  provision_lem user c w h =
      rw
        (
          h,
          get_defaults_lem w,
          append_config_ok user (record (config_at default none) { changed_by = text "system" }) w,
          list_lem user (appended user w),
          first_key_ok user (keys_in (appended user w) user) (appended user w),
        )
        refl

  config_in_rows :
      (user : Text) (v w : World env)
      → env.storage.rows v.tables TableName.user_config
        ≡ env.storage.rows w.tables TableName.user_config
      → config_in v user ≡ config_in w user
  unfolding config_in latest_in
  config_in_rows user v w h =
      ap (λ xs. config_at default (entity_of (head? (filter (in_partition user) xs)))) h

  config_in-appended :
      (user : Text) (w : World env)
      → IsHistory TableName.user_config user w
      → is_blank (config_in (appended user w) user).timestamp ≡ false
  unfolding stored
  config_in-appended user w h =
      let c : UserConfigRecord = record (config_at default none) { changed_by = text "system" } in
      let read = get_current_config-append_config default user c w configured h in
      let same : ok (config_in (appended user w) user) ≡ ok (stored default c w.now) =
        ap (λ r. r.0) (sym (get_current_config_lem user (appended user w)) ∙ read) in
      let e : config_in (appended user w) user ≡ stored default c w.now = cc in
      rw e (is_blank-iso_string w.now)

  config_in-provisioned :
      (user : Text) (w : World env)
      → IsHistory TableName.user_config user w
      → is_blank (config_in (provisioned user w) user).timestamp ≡ false
  config_in-provisioned user w h =
      rw
        (config_in_rows user (provisioned user w) (appended user w)
          (rows-first_key user (keys_in (appended user w) user) (appended user w)))
        (config_in-appended user w h)

  -- Where the default allowance is configured and the user's settings were all stored before now:
  -- setting up an account that this process has not set up yet succeeds, and the user then has settings
  -- that are stamped with a time. Setting it up again writes nothing, whichever accounts the process
  -- remembers by then.
  pub ensure_user_setup_once :
      (user : Text) (memo : List Text) (w : World env)
      → IsHistory TableName.user_config user w
      → any (text_eq user) w.setup_complete ≡ false
      → (v : World env) × (ensure_user_setup user w ≡ (ok tt, v))
        × (config : UserConfigRecord) × (get_current_config user v ≡ (ok config, v))
        × (is_blank config.timestamp ≡ false)
        × ((ensure_user_setup user (record v { setup_complete = memo })).1.tables ≡ v.tables)
  unfolding ensure_user_setup ensure_from complete
  ensure_user_setup_once user memo w h new =
      elim (Bool-cases (is_blank (config_in w user).timestamp)) [
        | inl blank ↦
            let v : World env = record (provisioned user w) {
              setup_complete = user ∷ (provisioned user w).setup_complete;
            } in
            let same = config_in_rows user v (provisioned user w) refl in
            let full : is_blank (config_in v user).timestamp ≡ false =
              rw same (config_in-provisioned user w h) in
            (
              v,
              rw (new, get_current_config_lem user w, provision_lem user (config_in w user) w blank)
                  refl,
              config_in v user,
              get_current_config_lem user v,
              full,
              settled user memo v full,
            )
        | inr full ↦
            let v : World env = record w { setup_complete = user ∷ w.setup_complete } in
            let same = config_in_rows user v w refl in
            let still : is_blank (config_in v user).timestamp ≡ false = rw same full in
            (
              v,
              rw (new, get_current_config_lem user w) (unfold provision in rw full refl),
              config_in v user,
              get_current_config_lem user v,
              still,
              settled user memo v still,
            )
      ]
