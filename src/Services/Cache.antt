-- ===== src/Services/Cache.antt =====
-- `cached` of portal/lib/services/billing-stripe.ts: answers of Stripe are kept in Redis for five
-- minutes. `encode` and `decode` stand for `JSON.stringify` and `JSON.parse` at the cached type.
pub mod Laws
use canonizr_hda.Prelude.{ℕ, Text, Option, none, some, [], ◌∷◌}
use canonizr_hda.World.Actions.{ok, Env, World, Action, ◌>>=◌, ◌>>◌, pure, redis_get, redis_set_ex}

abbrev pub cache_ttl : ℕ
cache_ttl = 300

module _ {env : Env} {T : Type 0} (encode : T → Text) (decode : Text → T) where
  unfoldable pub fetch_and_store : Text → Action env T → Action env T
  fetch_and_store key fetch = do
    result ← fetch
    redis_set_ex key (encode result) cache_ttl
    pure result

  -- An empty hit counts as none.
  unfoldable pub on_hit : Text → Action env T → Option Text → Action env T
  on_hit key fetch none = fetch_and_store key fetch
  on_hit key fetch (some []) = fetch_and_store key fetch
  on_hit key fetch (some (c ∷ s)) = pure (decode (c ∷ s))

  unfoldable pub cached : Text → Action env T → Action env T
  cached key fetch = do hit ← redis_get key; on_hit key fetch hit
