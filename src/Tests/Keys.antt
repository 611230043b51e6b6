-- ===== src/Tests/Keys.antt =====
-- The life of a key at concrete inputs.
use canonizr_hda.Prelude.{
  ℕ, ◌+◌, ◌%◌, ◌≤◌, ◌<◌, if◌then◌else◌, Text, text, text_eq, text_lt, decimal, decimal_from, ◌≡◌,
  refl, some, List, [], ◌∷◌, arith,
}
use canonizr_hda.Storage.Rows.{Row, find_row, put_row, insert_row, merge_row}
use canonizr_hda.World.Actions.{random_uuid, upsert_entity, ok, World, get_entity}
use canonizr_hda.Tables.TableName
use canonizr_hda.Keys.Store.{create, write_key, key_entity, hash_entity}
use canonizr_hda.Keys.Access.{holder}
use canonizr_hda.Keys.Store.{subscription_entity, set_quota}
use canonizr_hda.Keys.Listing.{key_in}
use canonizr_hda.Keys.Quota.{key_in-set_quota}
use canonizr_hda.Keys.Index.{hash_of_key, IsIndex}
use canonizr_hda.Keys.Index.Laws.{AreFresh, run-IsIndex, IsFresh}
use canonizr_hda.Keys.Journal.{step, Op, creation, rotation, deletion, quota, lookup, run}
use canonizr_hda.Keys.Resolve.{resolve_api_key}
use canonizr_hda.Tests.Memory.{memory_env, no_rows, world_on}
use Prim.Native.String.{String}
use package.text.Mathlib.Text.{◌==◌ as str_eq}

abbrev stored_key : Row
stored_key = record {
  partition_key = text "u1";
  row_key = text "key-1";
  entity = key_entity (text "first") (text "pk_old") (text "2024-01-01T00:00:00.000Z");
}

abbrev stored_hash : Row
stored_hash = record {
  partition_key = text "key";
  row_key = text "pk_old";
  entity = hash_entity (text "key-1") (text "u1") (text "2024-01-01T00:00:00.000Z");
}

abbrev with_key : String → List Row
with_key t =
    if str_eq t TableName.api_keys
    then stored_key ∷ []
    else if str_eq t TableName.gw_api_keys
    then stored_hash ∷ []
    else []

abbrev before : World (memory_env (text "active"))
before = world_on (text "active") with_key

-- A key is used and rotated, and its limit is set.
abbrev key_changes : List Op
key_changes =
    lookup (text "pk_old")
    ∷ rotation (text "key-1")
    ∷ quota (text "key-1") (some 100)
    ∷ deletion (text "none")
    ∷ []

-- The gateway has the old key in Redis.
abbrev cached_before : World (memory_env (text "active"))
cached_before = (resolve_api_key (text "pk_old") before).1

abbrev empty : World (memory_env (text "active"))
empty = world_on (text "active") no_rows

empty-IsIndex : IsIndex (memory_env (text "active")) empty
unfolding holder hash_of_key get_entity find_row
empty-IsIndex = record { stored = λ h k e. cc; admitted = λ h k e. cc }

-- Two users make a key each; the first one is rotated, the second one deleted.
abbrev two_keys : List Op
two_keys =
    creation (text "u1") (text "first")
    ∷ creation (text "u2") (text "second")
    ∷ rotation (text "key-1709210096789-0f3a-0")
    ∷ quota (text "key-1709210096789-0f3a-0") (some 100)
    ∷ deletion (text "key-1709210096789-0f3a-2")
    ∷ []

two_keys-AreFresh : AreFresh (memory_env (text "active")) two_keys empty
unfolding AreFresh IsFresh holder find_row hash_of_key step create random_uuid write_key
    upsert_entity put_row text_eq text decimal decimal_from text_lt insert_row merge_row
two_keys-AreFresh = ((refl, refl), ((refl, refl), (refl, (tt, (tt, tt)))))

run-IsIndex_example :
    IsIndex (memory_env (text "active")) (run (memory_env (text "active")) two_keys empty)
run-IsIndex_example =
    run-IsIndex (memory_env (text "active")) two_keys empty empty-IsIndex two_keys-AreFresh

abbrev with_subscription : String → List Row
with_subscription t =
    if str_eq t TableName.gw_subscriptions
    then record {
      partition_key = text "subscription";
      row_key = text "key-1";
      entity = subscription_entity (text "u1") (text "first");
    }
      ∷ []
    else []

abbrev subscribed : World (memory_env (text "active"))
subscribed = world_on (text "active") with_subscription

key_in-set_quota_example :
    ((set_quota (text "key-1") (some 250) subscribed).0 ≡ ok tt)
    × (shown : ℕ) × ((key_in {env = memory_env (text "active")}
          (set_quota (text "key-1") (some 250) subscribed).1
          (text "2024-02-01")
          stored_key).quota_kb
        ≡ some shown)
    × (shown % 100 ≡ 0)
    × (250 ≤ shown)
    × (shown < 250 + 100)
unfolding text text_eq find_row
key_in-set_quota_example =
    key_in-set_quota stored_key (text "2024-02-01") 250
      (subscription_entity (text "u1") (text "first")) subscribed refl (omega arith)
