-- ===== src/Keys/Resolve.antt =====
-- Whom the gateway admits by a key, `resolve_api_key` of gateway/app/auth.py: it reads the Redis entry
-- of the key's hash first, and the row of the hash in GwApiKeys where there is none, which it then
-- keeps in Redis for an hour. The portal and the gateway share one Redis.
use canonizr_hda.Prelude.{
  ℕ, zero, suc, ◌+◌, ◌-◌, ◌*◌, ◌/◌, ◌%◌, ◌^◌, ◌≤◌, ◌<◌, min, max, ltb, leb, ◌==◌, if◌then◌else◌,
  ltb→lt, lt→ltb, leb→le, le→leb, ==_iff, Bool-cases, Option-cases, &&-eq-true, length,
  length-append, replicate, take, head?, filter, any, all, find?, get_or, is_some, filter-append,
  All, sum, sum-append, Text, text, text_eq, text_eq_iff, text_eq_refl, text_lt, text_lt_irrefl,
  text_lt_asymm, text_lt-append_left, text_lt-append_right, decimal, decimal_from, pad_start, ◌≡◌,
  refl, sym, ap, ◌∙◌, subst, fun_ext, ◌≢◌, ◌↔◌, ◌⊎◌, inl, inr, Bool, true, false, not, ◌&&◌, ◌||◌,
  Option, none, some, List, [], ◌∷◌, ◌++◌, map, append-nil, append_assoc, arith, tests, to_number,
  to_number_from,
}
use canonizr_hda.Storage.Entity.{Entity}
use canonizr_hda.World.Actions.{
  ok, Env, World, Action, ◌>>=◌, ◌>>◌, pure, redis_get, redis_set_ex, value_in,
}
use canonizr_hda.Tables.TableName
use canonizr_hda.Keys.Store.{string_of, auth_cache_key, hash_api_key, get_entity?}
use canonizr_hda.Keys.Access.{holder}
use canonizr_hda.Keys.Listing.{get_entity?_lem}
use mathlib.Core.Option
pub mod Laws
pub mod Kept

-- CACHE_TTL
abbrev pub auth_cache_ttl : ℕ
auth_cache_ttl = 3600

module _ {env : Env} where
  unfoldable pub cache_sub_id : Text → Option Entity → Action env (Option Text)
  cache_sub_id hash none = pure none
  cache_sub_id hash (some entity) = do
    redis_set_ex (auth_cache_key hash) (string_of "sub_id" entity) auth_cache_ttl
    pure (some (string_of "sub_id" entity))

  unfoldable pub look_up : Text → Action env (Option Text)
  look_up hash = do
    entity ← get_entity? TableName.gw_api_keys (text "key") hash
    cache_sub_id hash entity

  -- An empty entry counts as none.
  unfoldable pub on_cached : Text → Option Text → Action env (Option Text)
  on_cached hash none = look_up hash
  on_cached hash (some []) = look_up hash
  on_cached hash (some (c ∷ s)) = pure (some (c ∷ s))

  unfoldable pub resolve_api_key : Text → Action env (Option Text)
  resolve_api_key key = do
    cached ← redis_get (auth_cache_key (hash_api_key env key))
    on_cached (hash_api_key env key) cached

-- A Redis entry goes before what the table has.
abbrev pub via : Option Text → Option Text → Option Text
via none t = t
via (some []) t = t
via (some (c ∷ s)) t = some (c ∷ s)

abbrev pub sub_of : Option (Text × Text) → Option Text
sub_of none = none
sub_of (some (sub, user)) = some sub

abbrev pub entry_of : (env : Env) → World env → Text → Option Text
entry_of env w hash = value_in env w.redis w.now (auth_cache_key hash)

-- The subscription that a hash stands for, in Redis and the table together.
unfoldable pub admits : (env : Env) → World env → Text → Option Text
admits env w hash = via (entry_of env w hash) (sub_of (holder env w.tables hash))

module _ {env : Env} where
  look_up_lem :
      (hash : Text) (w : World env) → (look_up hash w).0 ≡ ok (sub_of (holder env w.tables hash))
  unfolding look_up cache_sub_id holder redis_set_ex
  look_up_lem hash w =
      rw (get_entity?_lem TableName.gw_api_keys (text "key") hash w)
        (elim (Option-cases
          (env.storage.get_entity w.tables TableName.gw_api_keys (text "key") hash)) [
            | inl gone ↦ rw gone refl
            | inr (e, there) ↦ rw there refl
          ])

  on_cached_lem :
      (hash : Text) (w : World env) (o : Option Text)
      → (on_cached hash o w).0 ≡ ok (via o (sub_of (holder env w.tables hash)))
  unfolding on_cached
  on_cached_lem hash w none = look_up_lem hash w
  on_cached_lem hash w (some []) = look_up_lem hash w
  on_cached_lem hash w (some (c ∷ s)) = refl

  -- The gateway's answer is what Redis and the table hold.
  pub resolve_api_key_lem :
      (key : Text) (w : World env)
      → (resolve_api_key key w).0 ≡ ok (admits env w (env.sha256_hex key))
  unfolding resolve_api_key redis_get admits
  resolve_api_key_lem key w =
      on_cached_lem (env.sha256_hex key) w (entry_of env w (env.sha256_hex key))
