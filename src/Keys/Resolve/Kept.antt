-- ===== src/Keys/Resolve/Kept.antt =====
-- What leaves the answers of the gateway as they are: setting a quota, and looking a key up.
use canonizr_hda.Prelude.{
  ℕ, ◌+◌, ◌*◌, ltb, lt→ltb, Bool-cases, Option-cases, Text, text, text_eq, text_eq_iff, decimal,
  ◌≡◌, refl, ◌∙◌, inl, inr, true, false, Option, none, some, [], ◌∷◌, arith,
}
use canonizr_hda.Storage.Entity.{Entity}
use canonizr_hda.World.Actions.{
  Env, World, value_in, redis_del, redis_set, redis_set_ex, redis_get, get_entity, found,
  upsert_entity,
}
use canonizr_hda.Tables.TableName
use canonizr_hda.Keys.Store.{
  string_of, auth_cache_key, quota_key, quota_entity, set_quota, cache_quota,
}
use canonizr_hda.Keys.Access.{holder, holder-upsert_other}
use canonizr_hda.Keys.Lifecycle.{set_quota_tables}
use canonizr_hda.Keys.Listing.{get_entity?_lem}
use canonizr_hda.Keys.Resolve.{
  via, sub_of, cache_sub_id, look_up, on_cached, resolve_api_key, entry_of, admits, auth_cache_ttl,
}
use canonizr_hda.Keys.Resolve.Laws.{auth_cache_key-inj, value_in_deleted}
use mathlib.Core.Option

quota_key-other : (id hash : Text) → text_eq (quota_key id) (auth_cache_key hash) ≡ false
unfolding text text_eq
quota_key-other id hash = refl

via_same : (s : Text) → via (some s) (some s) ≡ some s
via_same [] = refl
via_same (c ∷ s) = refl

module _ (env : Env) where
  value_in_set :
      (o : Option env.cache.State) (now : ℕ) (k v j : Text)
      → text_eq k j ≡ false
      → value_in env (Option.map (λ r. env.cache.set r k v) o) now j ≡ value_in env o now j
  value_in_set none now k v j h = refl
  value_in_set (some r) now k v j h = env.cache.get-set r k v now j ∙ rw h refl

  entry_of_quota_cached :
      (id at : Text) (kb : Option ℕ) (w : World env)
      → entry_of env (cache_quota id kb w).1 at ≡ entry_of env w at
  unfolding cache_quota redis_del redis_set
  entry_of_quota_cached id at none w =
      value_in_deleted env w.redis w.now (quota_key id) (auth_cache_key at)
      ∙ rw (quota_key-other id at) refl
  entry_of_quota_cached id at (some kb) w =
      value_in_set w.redis w.now (quota_key id) (decimal (kb * 1000)) (auth_cache_key at)
        (quota_key-other id at)

  entry_of_quota :
      (id at : Text) (kb : Option ℕ) (w : World env)
      → entry_of env (set_quota id kb w).1 at ≡ entry_of env w at
  unfolding set_quota get_entity found upsert_entity
  entry_of_quota id at kb w =
      elim (Option-cases
        (env.storage.get_entity w.tables TableName.gw_subscriptions (text "subscription") id)) [
          | inl h ↦ rw h refl
          | inr (e, h) ↦ rw h (entry_of_quota_cached id at kb (upserted e))
        ]
    where
      upserted : Entity → World env
      upserted e = record w {
        tables =
            env.storage.upsert_entity w.tables TableName.gw_subscriptions (text "subscription") id
              (quota_entity e kb);
      }

  pub admits-quota :
      (id at : Text) (kb : Option ℕ) (w : World env)
      → admits env (set_quota id kb w).1 at ≡ admits env w at
  unfolding admits
  admits-quota id at kb w =
      let same : holder env (set_quota id kb w).1.tables at ≡ holder env w.tables at =
        elim (set_quota_tables id kb w) [
          | inl kept ↦ rw kept refl
          | inr (e, changed) ↦ rw changed (
              holder-upsert_other env w.tables at TableName.gw_subscriptions (text "subscription")
                id e refl)
        ] in
      rw (entry_of_quota id at kb w, same) refl

  -- An entry that says what the table says changes no answer.
  value_in_kept :
      (o : Option env.cache.State) (now : ℕ) (hash at sub : Text) (t : Option Text)
      → (text_eq hash at ≡ true
          → (t ≡ some sub) × (via (value_in env o now (auth_cache_key at)) t ≡ t))
      → via
          (value_in env
            (Option.map (λ r. env.cache.set_ex r now (auth_cache_key hash) sub auth_cache_ttl) o)
            now
            (auth_cache_key at))
          t
        ≡ via (value_in env o now (auth_cache_key at)) t
  value_in_kept none now hash at sub t h = refl
  value_in_kept (some r) now hash at sub t h =
      rw
        (
          env.cache.get-set_ex r now (auth_cache_key hash) sub auth_cache_ttl now
              (auth_cache_key at),
          auth_cache_key-inj hash at,
        )
        (elim (Bool-cases (text_eq hash at)) [
          | inl same ↦
              let (row, empty) = h same in
              let early : ltb now (now + auth_cache_ttl * 1000) ≡ true =
                lt→ltb now (now + auth_cache_ttl * 1000) (omega arith) in
              rw (same, early, empty, row) (via_same sub)
          | inr other ↦ rw other refl
        ])

  admits-cache_sub_id :
      (hash at : Text) (w : World env)
      → via (entry_of env w hash) (sub_of (holder env w.tables hash))
        ≡ sub_of (holder env w.tables hash)
      → admits env (look_up hash w).1 at ≡ admits env w at
  unfolding look_up cache_sub_id admits redis_set_ex holder
  admits-cache_sub_id hash at w empty =
      rw (get_entity?_lem TableName.gw_api_keys (text "key") hash w)
        (elim (Option-cases
          (env.storage.get_entity w.tables TableName.gw_api_keys (text "key") hash)) [
            | inl gone ↦ rw gone refl
            | inr (e, there) ↦ rw there (
                value_in_kept w.redis w.now hash at (string_of "sub_id" e)
                  (sub_of (holder env w.tables at))
                  (λ same.
                    let row : sub_of (holder env w.tables hash) ≡ some (string_of "sub_id" e) =
                      rw there refl in
                    let eq : hash ≡ at = (text_eq_iff hash at).0 same in
                    (rw (← eq) row, rw (← eq) empty)))
          ])

  admits-on_cached :
      (hash at : Text) (o : Option Text) (w : World env)
      → entry_of env w hash ≡ o
      → admits env (on_cached hash o w).1 at ≡ admits env w at
  unfolding on_cached
  admits-on_cached hash at none w h = admits-cache_sub_id hash at w (rw h refl)
  admits-on_cached hash at (some []) w h = admits-cache_sub_id hash at w (rw h refl)
  admits-on_cached hash at (some (c ∷ s)) w h = refl

  -- What the gateway keeps in Redis when it looks a key up changes no answer.
  pub admits-resolve_api_key :
      (key at : Text) (w : World env) → admits env (resolve_api_key key w).1 at ≡ admits env w at
  unfolding resolve_api_key redis_get
  admits-resolve_api_key key at w =
      admits-on_cached (env.sha256_hex key) at (entry_of env w (env.sha256_hex key)) w refl

  tables-look_up : (hash : Text) (w : World env) → (look_up hash w).1.tables ≡ w.tables
  unfolding look_up cache_sub_id redis_set_ex
  tables-look_up hash w =
      rw (get_entity?_lem TableName.gw_api_keys (text "key") hash w)
        (elim (Option-cases
          (env.storage.get_entity w.tables TableName.gw_api_keys (text "key") hash)) [
            | inl gone ↦ rw gone refl
            | inr (e, there) ↦ rw there refl
          ])

  tables-on_cached :
      (hash : Text) (o : Option Text) (w : World env) → (on_cached hash o w).1.tables ≡ w.tables
  unfolding on_cached
  tables-on_cached hash none w = tables-look_up hash w
  tables-on_cached hash (some []) w = tables-look_up hash w
  tables-on_cached hash (some (c ∷ s)) w = refl

  pub tables-resolve_api_key :
      (key : Text) (w : World env) → (resolve_api_key key w).1.tables ≡ w.tables
  unfolding resolve_api_key redis_get
  tables-resolve_api_key key w =
      tables-on_cached (env.sha256_hex key) (entry_of env w (env.sha256_hex key)) w
