-- ===== src/Keys/Deletion.antt =====
-- Deleting a key: it admits nothing any more.
use canonizr_hda.Prelude.{
  if◌then◌else◌, Bool-cases, head?, filter, is_some, Text, text, text_eq, text_eq_refl, ◌≡◌, refl,
  inl, inr, Bool, true, none, some, List, [], ◌∷◌, arith,
}
use canonizr_hda.Storage.Rows.{Row, find_row}
use canonizr_hda.World.Actions.{ok, Env, World, delete_entity, list_entities, redis_del}
use canonizr_hda.Tables.TableName
use canonizr_hda.Keys.Store.{
  string_of, with_row_key, auth_cache_key, delete_from, delete, try_delete,
}
use canonizr_hda.Keys.Access.{
  holder, holder-delete_other, holder-try_delete_hash, holder-try_delete_other,
}
use canonizr_hda.Keys.Lifecycle.{try_delete_ok, redis_del_ok}

-- A row that a filter finds can be read by its key.
find_row_of_listed :
    (p : Row → Bool) (xs : List Row) (row : Row)
    → head? (filter p xs) ≡ some row
    → is_some (find_row row.partition_key row.row_key xs) ≡ true
unfolding find_row
find_row_of_listed p [] row h = ground arith
find_row_of_listed p (x ∷ xs) row h = elim (Bool-cases (p x)) [
  | inl hit ↦
      let e : some x ≡ some row = rw hit at h in
      let same : x ≡ row = cc in
      rw (← same, text_eq_refl x.partition_key, text_eq_refl x.row_key) refl
  | inr miss ↦ let ih = find_row_of_listed p xs row (rw miss at h) in ground (arith, ih)
]

-- The worlds that a deletion passes through.
module _ (env : Env) (id : Text) (row : Row) (w : World env) where
  abbrev pub old_hash : Text
  old_hash = env.sha256_hex (string_of "primaryKey" row.entity)

  abbrev pub removed : World env
  removed = record w {
    tables = env.storage.delete_entity w.tables TableName.api_keys row.partition_key row.row_key;
  }

  abbrev pub unsubscribed : World env
  unsubscribed = (try_delete TableName.gw_subscriptions (text "subscription") id removed).1

  abbrev pub revoked : World env
  revoked = (try_delete TableName.gw_api_keys (text "key") old_hash unsubscribed).1

  abbrev pub deleted : World env
  deleted = (redis_del (auth_cache_key old_hash) revoked).1

  delete_from_lem :
      is_some (env.storage.get_entity w.tables TableName.api_keys row.partition_key row.row_key)
        ≡ true
      → delete_from id (some row) w ≡ (ok tt, deleted)
  unfolding delete_from delete_entity
  delete_from_lem h =
      rw
        (
          h,
          try_delete_ok TableName.gw_subscriptions (text "subscription") id removed,
          try_delete_ok TableName.gw_api_keys (text "key") old_hash unsubscribed,
          (redis_del_ok (auth_cache_key old_hash) revoked).0,
        )
        refl

  pub holder_deleted :
      (at : Text)
      → holder env deleted.tables at
        ≡ (if text_eq old_hash at then none else holder env w.tables at)
  holder_deleted at =
      rw
        (
          (redis_del_ok (auth_cache_key old_hash) revoked).1,
          holder-try_delete_hash env unsubscribed at old_hash,
          holder-try_delete_other env removed at TableName.gw_subscriptions (text "subscription") id
              refl,
          holder-delete_other env w.tables at TableName.api_keys row.partition_key row.row_key refl,
        )
        refl

pub delete_lem :
    {env : Env} (id : Text) (row : Row) (w : World env)
    → head? (filter (with_row_key id) (env.storage.rows w.tables TableName.api_keys)) ≡ some row
    → delete id w ≡ (ok tt, deleted env id row w)
unfolding delete list_entities
delete_lem {env} id row w h =
    let there : is_some
          (env.storage.get_entity w.tables TableName.api_keys row.partition_key row.row_key)
        ≡ true =
      rw (env.storage.get_entity-rows w.tables TableName.api_keys row.partition_key row.row_key) (
        find_row_of_listed (with_row_key id) (env.storage.rows w.tables TableName.api_keys) row
          h) in
    rw h (delete_from_lem env id row w there)
