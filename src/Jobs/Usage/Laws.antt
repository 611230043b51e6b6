-- ===== src/Jobs/Usage/Laws.antt =====
-- What is added up from the jobs.
use canonizr_hda.Prelude.{
  ℕ, ◌+◌, Bool-cases, filter, sum, Text, text_eq, decimal, ◌≡◌, refl, ap, inl, inr, List, [], ◌∷◌,
  map, arith,
}
use canonizr_hda.Storage.Entity.{prop}
use canonizr_hda.Storage.Rows.{Row}
use canonizr_hda.World.Actions.{ok, Env, World, for_each, list_entities, redis_set}
use canonizr_hda.Tables.TableName
use canonizr_hda.Usage.Period.{quota_usage_key}
use canonizr_hda.Keys.Store.{string_of}
use canonizr_hda.Jobs.Table.{number_of}
use canonizr_hda.Jobs.Usage.{
  PerKey, add_bytes, counts, per_key_from, total_bytes, is_completed_since, seed,
  reconstruct_usage_from_table,
}

abbrev pub bytes_of : Row → ℕ
bytes_of row = number_of (prop "input_bytes" row.entity)

total_bytes-add_bytes :
    (k : Text) (b : ℕ) (m : PerKey) → total_bytes (add_bytes k b m) ≡ total_bytes m + b
unfolding total_bytes add_bytes
total_bytes-add_bytes k b [] = omega arith
total_bytes-add_bytes k b ((j, c) ∷ m) =
    let ih = total_bytes-add_bytes k b m in
    elim (Bool-cases (text_eq j k)) [
      | inl same ↦ rw same (omega arith)
      | inr other ↦ rw other (omega (arith, ih))
    ]

total_nil : total_bytes [] ≡ 0
unfolding total_bytes
total_nil = refl

total_bytes-per_key_from :
    (rows : List Row) (m : PerKey)
    → total_bytes (per_key_from rows m) ≡ total_bytes m + sum (map bytes_of (filter counts rows))
unfolding per_key_from
total_bytes-per_key_from [] m = omega arith
total_bytes-per_key_from (row ∷ rows) m = elim (Bool-cases (counts row)) [
  | inl yes_counts ↦
      let ih =
        total_bytes-per_key_from rows
          (add_bytes (string_of "key_id" row.entity) (bytes_of row) m) in
      let step = total_bytes-add_bytes (string_of "key_id" row.entity) (bytes_of row) m in
      rw yes_counts (omega (arith, ih, step))
  | inr no_counts ↦ rw no_counts (total_bytes-per_key_from rows m)
]

module _ {env : Env} where
  seed_each :
      (start : Text) (m : PerKey) (w : World env)
      → (ys : List Unit) × (v : World env) × (for_each
            (λ kb. redis_set {env = env} (quota_usage_key kb.0 start) (decimal kb.1))
            m
            w
          ≡ (ok ys, v))
  unfolding for_each redis_set
  seed_each start [] w = ([], w, refl)
  seed_each start (kb ∷ m) w =
      let (ys, v, h) =
        seed_each start m (redis_set (quota_usage_key kb.0 start) (decimal kb.1) w).1 in
      (tt ∷ ys, v, rw h refl)

  seeded :
      (start : Text) (m : PerKey) (w : World env) → (v : World env) × (seed start m w ≡ (ok tt, v))
  unfolding seed
  seeded start m w = let (ys, v, h) = seed_each start m w in (v, rw h refl)

  -- Without counters, the usage is the sum of the bytes of the user's jobs that were completed in the
  -- period, and that name a key and have a size.
  pub reconstruct_usage_from_table_lem :
      (user start : Text) (w : World env)
      → (reconstruct_usage_from_table user start w).0
        ≡ ok (
            sum (
              map bytes_of (
                filter counts (
                  filter
                    (is_completed_since user start)
                    (env.storage.rows w.tables TableName.gw_user_jobs)))))
  unfolding reconstruct_usage_from_table list_entities
  reconstruct_usage_from_table_lem user start w =
      let rows : List Row =
        filter (is_completed_since user start) (env.storage.rows w.tables TableName.gw_user_jobs) in
      let (v, h) = seeded start (per_key_from rows []) w in
      let total : total_bytes (per_key_from rows []) ≡ sum (map bytes_of (filter counts rows)) =
        omega (arith, total_bytes-per_key_from rows [], total_nil) in
      rw h (ap ok total)
