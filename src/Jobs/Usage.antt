-- ===== src/Jobs/Usage.antt =====
-- The usage of the running period: `getCurrentUsageUnits` and `reconstructUsageFromTable` of
-- portal/lib/data/user-page-data.ts. The counters are in Redis; where there are none, they are added up
-- from the jobs and written back.
use canonizr_hda.Prelude.{
  ℕ, ◌+◌, ltb, if◌then◌else◌, get_or, sum, Text, text, text_eq, text_lt, decimal, Bool, true, false,
  not, ◌&&◌, Option, none, some, List, [], ◌∷◌, ◌++◌, map, to_number,
}
use canonizr_hda.Prelude.Int.{ℤ}
use canonizr_hda.Storage.Entity.{Entity, prop, str_or, str?}
use canonizr_hda.Storage.Rows.{Row, in_partition}
use canonizr_hda.World.Time.{utc_date}
use canonizr_hda.World.Actions.{
  Env, Action, ◌>>=◌, ◌>>◌, pure, gets, for_each, list_entities, redis_get, redis_set,
}
use canonizr_hda.Tables.TableName
use canonizr_hda.Usage.Format.{ceil_div}
use canonizr_hda.Usage.Period.{current_period_start, quota_usage_key}
use canonizr_hda.Keys.Store.{string_of, billing_anchor}
use canonizr_hda.Jobs.Table.{number_of}
pub mod Laws

-- Bytes for each key, `Map<string, number>`; a key is listed where it was first added.
abbrev pub PerKey : Type 0
PerKey = List (Text × ℕ)

unfoldable pub add_bytes : Text → ℕ → PerKey → PerKey
add_bytes key bytes [] = (key, bytes) ∷ []
add_bytes key bytes ((k, b) ∷ m) =
    let rest = add_bytes key bytes m in if text_eq k key then (k, b + bytes) ∷ m else (k, b) ∷ rest

abbrev pub has_name : Text → Bool
has_name [] = false
has_name (c ∷ s) = true

-- The key and the bytes of a job, where both are there.
abbrev pub counts : Row → Bool
counts row =
    has_name (string_of "key_id" row.entity) && ltb 0 (number_of (prop "input_bytes" row.entity))

unfoldable pub per_key_from : List Row → PerKey → PerKey
per_key_from [] m = m
per_key_from (row ∷ rows) m = per_key_from rows (
    if counts row
    then add_bytes (string_of "key_id" row.entity) (number_of (prop "input_bytes" row.entity)) m
    else m)

unfoldable pub total_bytes : PerKey → ℕ
total_bytes m = sum (map (λ kb. kb.1) m)

abbrev is_text : Option Text → Text → Bool
is_text none t = false
is_text (some s) t = text_eq s t

abbrev not_before : Text → Option Text → Bool
not_before since none = false
not_before since (some at) = not (text_lt at since)

-- The filter `PartitionKey eq '…' and status eq 'ok' and completed_at ge '…T00:00:00Z'`.
abbrev pub is_completed_since : Text → Text → Row → Bool
is_completed_since user start row =
    in_partition user row
    && (is_text (str? (prop "status" row.entity)) (text "ok")
        && not_before (start ++ text "T00:00:00Z") (str? (prop "completed_at" row.entity)))

-- The counters that were found, added up; `none` if there was none.
unfoldable pub sum_found : List (Option Text) → Option ℕ
sum_found [] = none
sum_found (none ∷ cs) = sum_found cs
sum_found (some c ∷ cs) = some (to_number c + get_or (sum_found cs) 0)

module _ {env : Env} where
  unfoldable pub seed : Text → PerKey → Action env Unit
  seed start m = do
    for_each (λ kb. redis_set (quota_usage_key kb.0 start) (decimal kb.1)) m
    pure tt

  unfoldable pub reconstruct_usage_from_table : Text → Text → Action env ℕ
  reconstruct_usage_from_table user start = do
    rows ← list_entities TableName.gw_user_jobs (is_completed_since user start)
    seed start (per_key_from rows [])
    pure (total_bytes (per_key_from rows []))

  unfoldable pub units_from : Text → Text → Option ℕ → Action env ℕ
  units_from user start (some bytes) = pure (ceil_div bytes 100000)
  units_from user start none = do
    bytes ← reconstruct_usage_from_table user start
    pure (ceil_div bytes 100000)

  unfoldable pub usage_since : Text → Text → Action env ℕ
  usage_since user start = do
    keys ← list_entities TableName.api_keys (in_partition user)
    counters ← for_each (λ row. redis_get (quota_usage_key row.row_key start)) keys
    units_from user start (sum_found counters)

  unfoldable pub get_current_usage_units : Text → Action env ℕ
  get_current_usage_units user = do
    anchor ← billing_anchor user
    now ← gets (λ w. w.now)
    usage_since user (current_period_start anchor (utc_date now))
