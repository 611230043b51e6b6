-- ===== src/Keys/Lifecycle.antt =====
-- Creating, rotating and deleting a key, and what each does to the access of this key and of others.
use canonizr_hda.Storage.Entity.{Entity}
use canonizr_hda.Prelude.{
  ℕ, text, Option, Option-cases, none, ◌⊎◌, ◌+◌, if◌then◌else◌, Bool-cases, is_some, Text, text_eq,
  ◌≡◌, refl, ap, inl, inr, some, text,
}
use canonizr_hda.World.Actions.{
  get_entity, found, redis_set, ok, Env, World, random_uuid, upsert_entity, delete_entity,
  redis_del,
}
use canonizr_hda.Tables.TableName
use canonizr_hda.World.Time.{iso_string}
use canonizr_hda.Keys.Store.{
  quota_entity, set_quota, cache_quota, key_entity, subscription_entity, CreatedKey, primary_key_of,
  key_id, write_key, create, try_delete,
}
use canonizr_hda.Keys.Access.{holder, access_in, holder-upsert_other, holder-upsert_hash}
use Prim.Native.String.{String}

module _ {env : Env} where
  pub try_delete_ok :
      (t : String) (p r : Text) (w : World env)
      → try_delete t p r w ≡ (ok tt, (try_delete t p r w).1)
  unfolding try_delete delete_entity
  try_delete_ok t p r w = elim (Bool-cases (is_some (env.storage.get_entity w.tables t p r))) [
    | inl there ↦ rw there refl
    | inr gone ↦ rw gone refl
  ]

  pub redis_del_ok :
      (k : Text) (w : World env)
      → (redis_del k w ≡ (ok tt, (redis_del k w).1)) × ((redis_del k w).1.tables ≡ w.tables)
  unfolding redis_del
  redis_del_ok k w = (refl, refl)

  -- Setting a quota writes at most the row of the subscription.
  pub set_quota_tables :
      (id : Text) (kb : Option ℕ) (w : World env)
      → ((set_quota id kb w).1.tables ≡ w.tables)
        ⊎ ((e : Entity) × ((set_quota id kb w).1.tables
              ≡ env.storage.upsert_entity w.tables TableName.gw_subscriptions
                  (text "subscription")
                  id
                  e))
  unfolding set_quota get_entity found upsert_entity cache_quota redis_set redis_del
  set_quota_tables id kb w =
      elim (Option-cases
        (env.storage.get_entity w.tables TableName.gw_subscriptions (text "subscription") id)) [
          | inl h ↦ inl (rw h refl)
          | inr (e, h) ↦ inr (quota_entity e kb, written e kb h)
        ]
    where
      written :
          (e : Entity) (kb : Option ℕ)
          → env.storage.get_entity w.tables TableName.gw_subscriptions (text "subscription") id
            ≡ some e
          → (set_quota id kb w).1.tables
            ≡ env.storage.upsert_entity w.tables TableName.gw_subscriptions
                (text "subscription")
                id
                (quota_entity e kb)
      written e none h = rw h refl
      written e (some n) h = rw h refl

  -- The key that a creation makes.
  abbrev pub made_by : World env → CreatedKey
  made_by w = record {
    id = key_id w.now (env.uuid w.drawn);
    primary_key = primary_key_of (env.uuid (w.drawn + 1));
  }

  pub create_lem :
      (user name : Text) (w : World env)
      → create user name w ≡ (ok (made_by w), (create user name w).1)
  unfolding create write_key random_uuid upsert_entity
  create_lem user name w = refl

  pub holder_created :
      (user name at : Text) (w : World env)
      → holder env (create user name w).1.tables at ≡ (
          if text_eq (env.sha256_hex (made_by w).primary_key) at
          then some ((made_by w).id, user)
          else holder env w.tables at)
  unfolding create write_key random_uuid upsert_entity
  holder_created user name at w =
      rw
        (
          holder-upsert_hash env _ at (env.sha256_hex (made_by w).primary_key) (made_by w).id user
              (iso_string w.now),
          holder-upsert_other env _ at TableName.gw_subscriptions (text "subscription")
              (made_by w).id (subscription_entity user name) refl,
          holder-upsert_other env w.tables at TableName.api_keys user (made_by w).id
              (key_entity name (made_by w).primary_key (iso_string w.now)) refl,
        )
        refl

  -- Creating a key succeeds; the new key admits its subscription and user, and every key with another
  -- hash admits what it did.
  pub create-access :
      (user name key : Text) (w : World env)
      → (made : CreatedKey) × ((create user name w).0 ≡ ok made)
        × (access_in env (create user name w).1.tables key ≡ (
            if text_eq (env.sha256_hex made.primary_key) (env.sha256_hex key)
            then some (made.id, user)
            else access_in env w.tables key))
  unfolding access_in
  create-access user name key w = (
    made_by w,
    ap (λ r. r.0) (create_lem user name w),
    holder_created user name (env.sha256_hex key) w,
  )
