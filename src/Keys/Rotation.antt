-- ===== src/Keys/Rotation.antt =====
-- Rotating a key: the old key is revoked and the new one admits in its place.
use canonizr_hda.Prelude.{
  ◌+◌, if◌then◌else◌, head?, filter, Text, text, text_eq, ◌≡◌, refl, none, some,
}
use canonizr_hda.Storage.Rows.{Row}
use canonizr_hda.World.Time.{iso_string}
use canonizr_hda.World.Actions.{
  ok, Env, World, random_uuid, upsert_entity, list_entities, redis_del,
}
use canonizr_hda.Tables.TableName
use canonizr_hda.Keys.Store.{
  string_of, primary_key_of, with_row_key, auth_cache_key, rotate_from, rotate, try_delete,
  key_entity, hash_entity,
}
use canonizr_hda.Keys.Access.{
  holder, holder-upsert_other, holder-upsert_hash, holder-try_delete_hash,
}
use canonizr_hda.Keys.Lifecycle.{try_delete_ok, redis_del_ok}

-- The worlds that a rotation passes through.
module _ (env : Env) (id : Text) (row : Row) (w : World env) where
  abbrev pub new_key : Text
  new_key = primary_key_of (env.uuid w.drawn)

  abbrev pub old_hash : Text
  old_hash = env.sha256_hex (string_of "primaryKey" row.entity)

  abbrev pub replaced : World env
  replaced = record w {
    tables = env.storage.upsert_entity w.tables TableName.api_keys row.partition_key row.row_key (
        key_entity (string_of "displayName" row.entity) new_key
          (string_of "createdDate" row.entity));
    drawn = w.drawn + 1;
  }

  abbrev pub revoked : World env
  revoked = (try_delete TableName.gw_api_keys (text "key") old_hash replaced).1

  abbrev pub admitted : World env
  admitted = record revoked {
    tables =
        env.storage.upsert_entity revoked.tables TableName.gw_api_keys (text "key")
          (env.sha256_hex new_key) (hash_entity id row.partition_key (iso_string w.now));
  }

  abbrev pub rotated : World env
  rotated = (redis_del (auth_cache_key old_hash) admitted).1

  rotate_from_lem : rotate_from id (some row) w ≡ (ok new_key, rotated)
  unfolding rotate_from random_uuid upsert_entity
  rotate_from_lem =
      rw
        (
          try_delete_ok TableName.gw_api_keys (text "key") old_hash replaced,
          (redis_del_ok (auth_cache_key old_hash) admitted).0,
        )
        refl

  pub holder_rotated :
      (at : Text)
      → holder env rotated.tables at ≡ (
          if text_eq (env.sha256_hex new_key) at
          then some (id, row.partition_key)
          else if text_eq old_hash at
          then none
          else holder env w.tables at)
  holder_rotated at =
      rw
        (
          (redis_del_ok (auth_cache_key old_hash) admitted).1,
          holder-upsert_hash env revoked.tables at (env.sha256_hex new_key) id row.partition_key
              (iso_string w.now),
          holder-try_delete_hash env replaced at old_hash,
          holder-upsert_other env w.tables at TableName.api_keys row.partition_key row.row_key
              (key_entity (string_of "displayName" row.entity) new_key
                (string_of "createdDate" row.entity))
              refl,
        )
        refl

pub rotate_lem :
    {env : Env} (id : Text) (row : Row) (w : World env)
    → head? (filter (with_row_key id) (env.storage.rows w.tables TableName.api_keys)) ≡ some row
    → rotate id w ≡ (ok (new_key env id row w), rotated env id row w)
unfolding rotate list_entities
rotate_lem {env} id row w h = rw h (rotate_from_lem env id row w)
