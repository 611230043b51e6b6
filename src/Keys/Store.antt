-- ===== src/Keys/Store.antt =====
-- `TableKeyStore` of portal/lib/services/keys-table.ts. A key is a row of ApiKeys (by user and id), a
-- row of GwSubscriptions (by id) and a row of GwApiKeys (by the hash of the key), by which the gateway
-- admits requests. Properties that the portal wrote as strings are read as strings; a missing one is
-- the empty text.
use canonizr_hda.Prelude.{
  ℕ, ◌*◌, ◌==◌, if◌then◌else◌, take, head?, filter, Text, text, text_eq, decimal, Bool, not, Option,
  none, some, List, [], ◌∷◌, ◌++◌, to_number,
}
use canonizr_hda.Prelude.Int.{ℤ, pos, negsuc, is_positive, to_ℕ}
use canonizr_hda.Storage.Entity.{str, num, Entity, prop, str_or, num_or, num?}
use canonizr_hda.Storage.Rows.{Row, in_partition}
use canonizr_hda.World.Time.{iso_string, utc_date}
use canonizr_hda.World.Actions.{
  Env, Action, ◌>>=◌, ◌>>◌, pure, raise, failure, catch, gets, for_each, random_uuid, get_entity,
  upsert_entity, delete_entity, list_entities, redis_get, redis_set, redis_del,
}
use canonizr_hda.Tables.TableName
use Prim.Native.String.{String}
use canonizr_hda.Usage.Format.{to_billable_kb}
use canonizr_hda.Usage.Period.{current_period_start, quota_usage_key}

pub record ApiKey : Type 0 where
  pub id : Text
  pub display_name : Text
  pub key : Text
  pub created_date : Text
  pub last_used : Text
  pub usage_kb : ℕ
  pub quota_kb : Option ℕ

abbrev pub string_of : String → Entity → Text
string_of name e = str_or (prop name e) []

-- `{ id, primaryKey }`.
pub record CreatedKey : Type 0 where
  pub id : Text
  pub primary_key : Text

abbrev pub quota_of_bytes : Option ℤ → Option ℕ
quota_of_bytes none = none
quota_of_bytes (some n) = if is_positive n then some (to_billable_kb (to_ℕ n)) else none

-- The quota in KB: absent, or the sentinel -1, for no quota.
unfoldable pub quota_of : Option Entity → Option ℕ
quota_of none = none
quota_of (some sub) = quota_of_bytes (num? (prop "quota_bytes" sub))

-- A counter that is missing or empty counts as no usage.
unfoldable pub usage_of : Option Text → ℕ
usage_of none = 0
usage_of (some []) = 0
usage_of (some (c ∷ s)) = to_billable_kb (to_number (c ∷ s))

-- Without the dashes of a UUID.
abbrev pub strip_dashes : Text → Text
strip_dashes s = filter (λ c. not (c == 45)) s

abbrev pub key_id : ℕ → Text → Text
key_id now uuid = text "key-" ++ (decimal now ++ (text "-" ++ take 8 uuid))

abbrev pub primary_key_of : Text → Text
primary_key_of uuid = text "pk_" ++ strip_dashes uuid

-- The rows that a key is written to.
abbrev pub key_entity : Text → Text → Text → Entity
key_entity name key created =
    ("displayName", str name) ∷ ("primaryKey", str key) ∷ ("createdDate", str created) ∷ []

abbrev pub subscription_entity : Text → Text → Entity
subscription_entity user name = ("user_id", str user) ∷ ("key_name", str name) ∷ []

abbrev pub hash_entity : Text → Text → Text → Entity
hash_entity sub_id user created =
    ("sub_id", str sub_id) ∷ ("user_id", str user) ∷ ("created_at", str created) ∷ []

-- The Redis keys that the gateway reads.
abbrev pub auth_cache_key : Text → Text
auth_cache_key hash = text "apikey:" ++ (hash ++ text ":sub_id")

abbrev pub quota_key : Text → Text
quota_key sub_id = text "sub:" ++ (sub_id ++ text ":quota:bytes")

abbrev pub no_such_key : Text → Text
no_such_key id = text "Key " ++ (id ++ text " not found")

-- A creation date as it is shown; a missing one is not.
abbrev pub shown_date : (Text → Text) → Text → Text
shown_date show [] = []
shown_date show (c ∷ s) = show (c ∷ s)

abbrev pub anchor_of : Entity → ℕ
anchor_of e = to_ℕ (num_or (prop "billing_anchor_day" e) (pos 1))

-- The filter `RowKey eq 'id'`.
abbrev pub with_row_key : Text → Row → Bool
with_row_key id row = text_eq id row.row_key

-- `quotaKB * 1000`, or the sentinel.
abbrev pub quota_bytes : Option ℕ → ℤ
quota_bytes none = negsuc 0
quota_bytes (some kb) = pos (kb * 1000)

-- The row of a subscription with a quota.
abbrev pub quota_entity : Entity → Option ℕ → Entity
quota_entity sub quota =
    ("user_id", str (string_of "user_id" sub))
    ∷ ("key_name", str (string_of "key_name" sub))
    ∷ ("quota_bytes", num (quota_bytes quota))
    ∷ []

abbrev pub hash_api_key : Env → Text → Text
hash_api_key env key = env.sha256_hex key

module _ {env : Env} where
  unfoldable pub to_api_key : Row → Option ℕ → ℕ → Action env ApiKey
  to_api_key row quota usage = pure (record {
    id = row.row_key;
    display_name = string_of "displayName" row.entity;
    key = string_of "primaryKey" row.entity;
    created_date = shown_date env.locale_date (string_of "createdDate" row.entity);
    last_used = text "—";
    usage_kb = usage;
    quota_kb = quota;
  })

  -- `client.getEntity(…).catch(() => null)`.
  unfoldable pub get_entity? : String → Text → Text → Action env (Option Entity)
  get_entity? t p r = catch (do e ← get_entity t p r; pure (some e)) (λ _. pure none)

  -- The day of the month on which the user's billing periods start; 1 without a billing record.
  unfoldable pub billing_anchor : Text → Action env ℕ
  billing_anchor user =
      catch (do e ← get_entity TableName.gw_billing (text "billing") user; pure (anchor_of e))
        (λ _. pure 1)

  unfoldable pub load_key : Text → Row → Action env ApiKey
  load_key period row = do
    sub ← get_entity? TableName.gw_subscriptions (text "subscription") row.row_key
    usage ← redis_get (quota_usage_key row.row_key period)
    to_api_key row (quota_of sub) (usage_of usage)

  unfoldable pub list : Text → Action env (List ApiKey)
  list user = do
    rows ← list_entities TableName.api_keys (in_partition user)
    anchor ← billing_anchor user
    now ← gets (λ w. w.now)
    for_each (load_key (current_period_start anchor (utc_date now))) rows

  -- The three writes of `create`, for the values that were drawn.
  unfoldable pub write_key : Text → Text → Text → Text → Action env CreatedKey
  write_key user name id key = do
    now ← gets (λ w. w.now)
    upsert_entity TableName.api_keys user id (key_entity name key (iso_string now))
    upsert_entity TableName.gw_subscriptions (text "subscription") id
        (subscription_entity user name)
    upsert_entity TableName.gw_api_keys (text "key") (hash_api_key env key)
        (hash_entity id user (iso_string now))
    pure (record { id = id; primary_key = key })

  unfoldable pub create : Text → Text → Action env CreatedKey
  create user name = do
    u ← random_uuid
    v ← random_uuid
    now ← gets (λ w. w.now)
    write_key user name (key_id now u) (primary_key_of v)

  unfoldable pub get_from : Text → Option Row → Action env Text
  get_from id none = raise (failure (no_such_key id))
  get_from id (some row) = pure (string_of "primaryKey" row.entity)

  unfoldable pub get : Text → Action env Text
  get id = do rows ← list_entities TableName.api_keys (with_row_key id); get_from id (head? rows)

  -- `gwApiKeys.deleteEntity("key", hash).catch(() => {})`, and the same for another table.
  unfoldable pub try_delete : String → Text → Text → Action env Unit
  try_delete t p r = catch (delete_entity t p r) (λ _. pure tt)

  unfoldable pub rotate_from : Text → Option Row → Action env Text
  rotate_from id none = raise (failure (no_such_key id))
  rotate_from id (some row) = do
    u ← random_uuid
    now ← gets (λ w. w.now)
    let old = hash_api_key env (string_of "primaryKey" row.entity)
    upsert_entity TableName.api_keys row.partition_key row.row_key (
        key_entity (string_of "displayName" row.entity) (primary_key_of u)
          (string_of "createdDate" row.entity))
    try_delete TableName.gw_api_keys (text "key") old
    upsert_entity TableName.gw_api_keys (text "key") (hash_api_key env (primary_key_of u))
        (hash_entity id row.partition_key (iso_string now))
    redis_del (auth_cache_key old)
    pure (primary_key_of u)

  unfoldable pub rotate : Text → Action env Text
  rotate id = do
    rows ← list_entities TableName.api_keys (with_row_key id)
    rotate_from id (head? rows)

  unfoldable pub delete_from : Text → Option Row → Action env Unit
  delete_from id none = pure tt
  delete_from id (some row) = do
    let hash = hash_api_key env (string_of "primaryKey" row.entity)
    delete_entity TableName.api_keys row.partition_key row.row_key
    try_delete TableName.gw_subscriptions (text "subscription") id
    try_delete TableName.gw_api_keys (text "key") hash
    redis_del (auth_cache_key hash)

  unfoldable pub delete : Text → Action env Unit
  delete id = do
    rows ← list_entities TableName.api_keys (with_row_key id)
    delete_from id (head? rows)

  unfoldable pub cache_quota : Text → Option ℕ → Action env Unit
  cache_quota id none = redis_del (quota_key id)
  cache_quota id (some kb) = redis_set (quota_key id) (decimal (kb * 1000))

  unfoldable pub set_quota : Text → Option ℕ → Action env Unit
  set_quota id quota = do
    sub ← get_entity TableName.gw_subscriptions (text "subscription") id
    upsert_entity TableName.gw_subscriptions (text "subscription") id (quota_entity sub quota)
    cache_quota id quota
