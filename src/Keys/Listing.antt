-- ===== src/Keys/Listing.antt =====
-- Listing the keys of a user succeeds and changes nothing.
use canonizr_hda.Prelude.{
  ℕ, Option-cases, filter, Text, text, ◌≡◌, refl, inl, inr, Option, none, some, List, [], ◌∷◌, map,
}
use canonizr_hda.Storage.Entity.{Entity}
use canonizr_hda.Storage.Rows.{Row, in_partition}
use canonizr_hda.World.Time.{utc_date}
use canonizr_hda.World.Actions.{
  ok, Env, World, for_each, get_entity, list_entities, redis_get, value_in,
}
use canonizr_hda.Tables.TableName
use canonizr_hda.Usage.Period.{current_period_start, quota_usage_key}
use canonizr_hda.Keys.Store.{
  ApiKey, string_of, shown_date, anchor_of, quota_of, usage_of, to_api_key, get_entity?,
  billing_anchor, load_key, list,
}
use Prim.Native.String.{String}

abbrev anchor_or : Option Entity → ℕ
anchor_or none = 1
anchor_or (some e) = anchor_of e

module _ {env : Env} where
  pub get_entity?_lem :
      (t : String) (p r : Text) (w : World env)
      → get_entity? t p r w ≡ (ok (env.storage.get_entity w.tables t p r), w)
  unfolding get_entity? get_entity
  get_entity?_lem t p r w = elim (Option-cases (env.storage.get_entity w.tables t p r)) [
    | inl gone ↦ rw gone refl
    | inr (e, there) ↦ rw there refl
  ]

  -- The day on which the periods of a user start, as the tables have it.
  unfoldable pub anchor_in : World env → Text → ℕ
  anchor_in w user =
      anchor_or (env.storage.get_entity w.tables TableName.gw_billing (text "billing") user)

  billing_anchor_lem :
      (user : Text) (w : World env) → billing_anchor user w ≡ (ok (anchor_in w user), w)
  unfolding billing_anchor anchor_in get_entity
  billing_anchor_lem user w =
      elim (Option-cases
        (env.storage.get_entity w.tables TableName.gw_billing (text "billing") user)) [
          | inl gone ↦ rw gone refl
          | inr (e, there) ↦ rw there refl
        ]

  -- A key as it is listed.
  unfoldable pub key_in : World env → Text → Row → ApiKey
  key_in w period row = record {
    id = row.row_key;
    display_name = string_of "displayName" row.entity;
    key = string_of "primaryKey" row.entity;
    created_date = shown_date env.locale_date (string_of "createdDate" row.entity);
    last_used = text "—";
    usage_kb = usage_of (value_in env w.redis w.now (quota_usage_key row.row_key period));
    quota_kb = quota_of (
        env.storage.get_entity w.tables TableName.gw_subscriptions (text "subscription")
          row.row_key);
  }

  load_key_lem :
      (period : Text) (row : Row) (w : World env)
      → load_key period row w ≡ (ok (key_in w period row), w)
  unfolding load_key to_api_key key_in redis_get
  load_key_lem period row w =
      rw (get_entity?_lem TableName.gw_subscriptions (text "subscription") row.row_key w) refl

  load_all :
      (period : Text) (rows : List Row) (w : World env)
      → for_each (load_key period) rows w ≡ (ok (map (key_in w period) rows), w)
  unfolding for_each
  load_all period [] w = refl
  load_all period (row ∷ rows) w = rw (load_key_lem period row w, load_all period rows w) refl

  unfoldable pub period_in : World env → Text → Text
  period_in w user = current_period_start (anchor_in w user) (utc_date w.now)

  -- The keys of a user that the tables hold.
  unfoldable pub keys_in : World env → Text → List ApiKey
  keys_in w user =
      map (key_in w (period_in w user))
        (filter (in_partition user) (env.storage.rows w.tables TableName.api_keys))

  -- Listing the keys of a user returns a key for each row of the user, and changes nothing.
  pub list_lem : (user : Text) (w : World env) → list user w ≡ (ok (keys_in w user), w)
  unfolding list list_entities keys_in period_in
  list_lem user w =
      rw
        (
          billing_anchor_lem user w,
          load_all (current_period_start (anchor_in w user) (utc_date w.now))
              (filter (in_partition user) (env.storage.rows w.tables TableName.api_keys)) w,
        )
        refl
