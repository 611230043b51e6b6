-- ===== src/Keys/Index/Laws.antt =====
-- The operations on keys keep the tables of portal/lib/services/keys-table.ts in step.
use canonizr_hda.Prelude.{
  ℕ, if◌then◌else◌, Option-cases, Text, text, text_eq, text_eq_iff, ◌≡◌, refl, ◌↔◌, inl, inr, Bool,
  true, ◌&&◌, Option, none, some, List, [], ◌∷◌, arith,
}
use canonizr_hda.Storage.Rows.{Row}
use canonizr_hda.World.Actions.{Env, World, random_uuid, upsert_entity, found}
use canonizr_hda.World.Time.{iso_string}
use canonizr_hda.Tables.TableName
use canonizr_hda.Keys.Store.{
  auth_cache_key, string_of, primary_key_of, hash_entity, subscription_entity, write_key, create,
  rotate, delete, set_quota,
}
use canonizr_hda.Keys.Access.{holder, holder-upsert_other}
use canonizr_hda.Keys.Lifecycle.{set_quota_tables, made_by, holder_created, redis_del_ok}
use canonizr_hda.Keys.Rotation
use canonizr_hda.Keys.Deletion
use canonizr_hda.Keys.Resolve.Kept.{tables-resolve_api_key}
use canonizr_hda.Keys.Journal.{
  lookup, Op, creation, rotation, deletion, quota, step, run, stored, rotate_missing,
  delete_missing,
}
use canonizr_hda.Keys.Index.{
  hash_of_key, IsIndex, hash_of_key-upsert_key, hash_of_key-delete_key, hash_of_key-upsert_other,
  hash_of_key-try_delete_other, hash_of_key_listed,
}
use canonizr_hda.Storage.Inverse.{
  same-IsInverse, insert-IsInverse, erase-IsInverse, replace-IsInverse,
}

-- A key is known by its id and its owner.
abbrev same_key : Text × Text → Text × Text → Bool
same_key b c = text_eq b.1 c.1 && text_eq b.0 c.0

same_key_iff : (b c : Text × Text) → (same_key b c ≡ true) ↔ (b ≡ c)
same_key_iff b c = ground (arith, text_eq_iff b.0 c.0, text_eq_iff b.1 c.1)

module _ (env : Env) where
  -- What is drawn for an operation is new: the hash of its key stands for nothing, and so does its id.
  unfoldable pub IsFresh : Op → World env → Type 0
  IsFresh (creation user name) w =
      (holder env w.tables (env.sha256_hex (made_by w).primary_key) ≡ none)
      × (hash_of_key env w.tables user (made_by w).id ≡ none)
  IsFresh (rotation id) w =
      holder env w.tables (env.sha256_hex (primary_key_of (env.uuid w.drawn))) ≡ none
  IsFresh (deletion id) w = Unit {0}
  IsFresh (quota id kb) w = Unit {0}
  IsFresh (lookup key) w = Unit {0}

  unfoldable pub AreFresh : List Op → World env → Type 0
  AreFresh [] w = Unit {0}
  AreFresh (op ∷ ops) w = IsFresh op w × AreFresh ops (step env op w)

  module _ (w : World env) (index : IsIndex env w) where
    hash_of_key_created :
        (user name u i : Text)
        → hash_of_key env (create user name w).1.tables u i ≡ (
            if text_eq user u && text_eq (made_by w).id i
            then some (env.sha256_hex (made_by w).primary_key)
            else hash_of_key env w.tables u i)
    unfolding create write_key random_uuid upsert_entity
    hash_of_key_created user name u i =
        rw
          (
            hash_of_key-upsert_other env _ u i TableName.gw_api_keys (text "key")
                (env.sha256_hex (made_by w).primary_key)
                (hash_entity (made_by w).id user (iso_string w.now)) refl,
            hash_of_key-upsert_other env _ u i TableName.gw_subscriptions (text "subscription")
                (made_by w).id (subscription_entity user name) refl,
          )
          (hash_of_key-upsert_key env w.tables u i user (made_by w).id name (made_by w).primary_key
            (iso_string w.now))

    create-IsIndex :
        (user name : Text) → IsFresh (creation user name) w → IsIndex env (create user name w).1
    unfolding IsFresh
    create-IsIndex user name fresh =
        insert-IsInverse index same_key same_key_iff (env.sha256_hex (made_by w).primary_key)
          ((made_by w).id, user) fresh.0 fresh.1 (λ g. holder_created user name g w)
          (λ k. hash_of_key_created user name k.1 k.0)

    module _ (id : Text) (row : Row) (found : stored env id w ≡ some row) where
      hash_of_key-rotated :
          (u i : Text)
          → hash_of_key env (Rotation.rotated env id row w).tables u i ≡ (
              if text_eq row.partition_key u && text_eq id i
              then some (env.sha256_hex (Rotation.new_key env id row w))
              else hash_of_key env w.tables u i)
      hash_of_key-rotated u i =
          rw
            (
              (redis_del_ok (auth_cache_key (Rotation.old_hash env id row w))
                  (Rotation.admitted env id row w)).1,
              hash_of_key-upsert_other env (Rotation.revoked env id row w).tables u i
                  TableName.gw_api_keys (text "key")
                  (env.sha256_hex (Rotation.new_key env id row w))
                  (hash_entity id row.partition_key (iso_string w.now)) refl,
              hash_of_key-try_delete_other env TableName.gw_api_keys (text "key")
                  (Rotation.old_hash env id row w) u i (Rotation.replaced env id row w) refl,
              hash_of_key-upsert_key env w.tables u i row.partition_key row.row_key
                  (string_of "displayName" row.entity) (Rotation.new_key env id row w)
                  (string_of "createdDate" row.entity),
              (hash_of_key_listed env id row w found).0,
            )
            refl

      rotate-IsIndex : IsFresh (rotation id) w → IsIndex env (rotate id w).1
      unfolding IsFresh
      rotate-IsIndex fresh = rw (Rotation.rotate_lem id row w found) (
          replace-IsInverse index same_key same_key_iff
            (env.sha256_hex (Rotation.new_key env id row w)) (Rotation.old_hash env id row w)
            (id, row.partition_key) fresh (hash_of_key_listed env id row w found).1
            (Rotation.holder_rotated env id row w) (λ k. hash_of_key-rotated k.1 k.0))

      hash_of_key-deleted :
          (u i : Text)
          → hash_of_key env (Deletion.deleted env id row w).tables u i ≡ (
              if text_eq row.partition_key u && text_eq id i
              then none
              else hash_of_key env w.tables u i)
      hash_of_key-deleted u i =
          rw
            (
              (redis_del_ok (auth_cache_key (Deletion.old_hash env id row w))
                  (Deletion.revoked env id row w)).1,
              hash_of_key-try_delete_other env TableName.gw_api_keys (text "key")
                  (Deletion.old_hash env id row w) u i (Deletion.unsubscribed env id row w) refl,
              hash_of_key-try_delete_other env TableName.gw_subscriptions (text "subscription") id u
                  i (Deletion.removed env id row w) refl,
              hash_of_key-delete_key env w.tables u i row.partition_key row.row_key,
              (hash_of_key_listed env id row w found).0,
            )
            refl

      delete-IsIndex : IsIndex env (delete id w).1
      delete-IsIndex = rw (Deletion.delete_lem id row w found) (
          erase-IsInverse index same_key same_key_iff (Deletion.old_hash env id row w)
            (id, row.partition_key) (hash_of_key_listed env id row w found).1
            (Deletion.holder_deleted env id row w) (λ k. hash_of_key-deleted k.1 k.0))

  quota-IsIndex :
      (w : World env) (id : Text) (kb : Option ℕ)
      → IsIndex env w
      → IsIndex env (set_quota id kb w).1
  quota-IsIndex w id kb index = elim (set_quota_tables id kb w) [
    | inl same ↦ rw same index
    | inr (e, changed) ↦ rw changed (
        same-IsInverse index
          (λ g.
            holder-upsert_other env w.tables g TableName.gw_subscriptions (text "subscription") id e
              refl)
          (λ k.
            hash_of_key-upsert_other env w.tables k.1 k.0 TableName.gw_subscriptions
              (text "subscription") id e refl))
  ]

  step-IsIndex :
      (op : Op) (w : World env) → IsIndex env w → IsFresh op w → IsIndex env (step env op w)
  unfolding step
  step-IsIndex (creation user name) w index fresh = create-IsIndex w index user name fresh
  step-IsIndex (rotation id) w index fresh = elim (Option-cases (stored env id w)) [
    | inl missing ↦ rw (rotate_missing env id w missing) index
    | inr (row, found) ↦ rotate-IsIndex w index id row found fresh
  ]
  step-IsIndex (deletion id) w index fresh = elim (Option-cases (stored env id w)) [
    | inl missing ↦ rw (delete_missing env id w missing) index
    | inr (row, found) ↦ delete-IsIndex w index id row found
  ]
  step-IsIndex (quota id kb) w index fresh = quota-IsIndex w id kb index
  step-IsIndex (lookup key) w index fresh = rw (tables-resolve_api_key env key w) index

  -- Any operations on keys, failed ones included, keep the two tables in step, if what is drawn for them
  -- is new: a hash admits a subscription for a user exactly if the user has the key of this hash under
  -- this id.
  pub run-IsIndex :
      (ops : List Op) (w : World env) → IsIndex env w → AreFresh ops w → IsIndex env (run env ops w)
  unfolding run AreFresh
  run-IsIndex [] w index fresh = index
  run-IsIndex (op ∷ ops) w index fresh =
      run-IsIndex ops (step env op w) (step-IsIndex op w index fresh.0) fresh.1
