-- ===== src/World/Actions.antt =====
-- Asynchronous code that may throw, as a state monad with faults. What was written before a throw
-- stays written. The calls of one `Promise.all` are run in the order in which they are listed, and a
-- request runs at one instant of the clock.
use canonizr_hda.Prelude.{
  ℕ, ◌+◌, if◌then◌else◌, Text, text, Bool, Option, none, some, List, [], ◌∷◌, filter, is_some,
}
use canonizr_hda.Storage.Entity.{Entity}
use canonizr_hda.Storage.Rows.{Row}
use canonizr_hda.Storage.Service.{TableService}
use canonizr_hda.World.Redis.{RedisService}
use canonizr_hda.World.Stripe.{StripeApi}
use canonizr_hda.Auth.RateLimit.{Entries}
use mathlib.Core.Option
use Prim.Native.String.{String}

-- What can be thrown. `redirect` and `notFound` of Next.js throw too.
pub data Fault : Type 0 where
  auth_error : Text → Fault
  api_error : ℕ → Text → Fault
  rate_limit_error : Fault
  email_send_error : Text → Fault
  redirect : Text → Fault
  not_found : Fault
  failure : Text → Fault

pub data Outcome {ℓ} (A : Type ℓ) : Type ℓ where
  ok : A → Outcome A
  err : Fault → Outcome A

-- `session.user` as `auth()` returns it; a missing field or the empty string counts as absent.
pub record SessionUser : Type 0 where
  pub id : Option Text
  pub email : Option Text

-- The services and the configuration of one deployment.
pub record Env : Type 1 where
  pub storage : TableService
  pub cache : RedisService
  pub stripe : StripeApi
  -- the n-th draw of `randomUUID` and of `randomBytes(32).toString("hex")`
  pub uuid : ℕ → Text
  pub random_hex : ℕ → Text
  pub sha256_hex : Text → Text
  -- a stored creation date as `toLocaleDateString("en-GB", …)` shows it
  pub locale_date : Text → Text
  -- DEFAULT_FREE_UNITS; `none` if it is missing or spells no number
  pub default_free_units : Option ℕ
  -- USE_LOCAL_SERVICES
  pub use_local_services : Bool
  -- STRIPE_WEBHOOK_SECRET and AUTH_URL
  pub webhook_secret : Option Text
  pub auth_url : Option Text

-- `email` and `html` of a message that was handed to the transport.
pub record Mail : Type 0 where
  pub to : Text
  pub url : Text

pub record World (env : Env) : Type 0 where
  pub tables : env.storage.State
  -- `none` where REDIS_URL is not set
  pub redis : Option env.cache.State
  pub stripe : env.stripe.State
  pub now : ℕ
  -- how many random values have been drawn
  pub drawn : ℕ
  -- what `auth()` returns
  pub session : Option SessionUser
  -- memory of the process: rate-limit.ts and ensure-user-setup.ts
  pub email_entries : Entries
  pub ip_entries : Entries
  pub setup_complete : List Text
  pub outbox : List Mail
  -- names of the telemetry events emitted so far, the last one first
  pub events : List Text

abbrev pub Action : Env → Type 0 → Type 0
Action env A = World env → Outcome A × World env

-- What a read of a key finds; nothing where there is no Redis.
abbrev pub value_in : (env : Env) → Option env.cache.State → ℕ → Text → Option Text
value_in env none now k = none
value_in env (some r) now k = env.cache.get r now k

module _ {env : Env} where
  abbrev pub continue :
      {A B : Type 0} → Outcome A × World env → (A → Action env B) → Outcome B × World env
  continue (ok a, w) f = f a w
  continue (err e, w) f = (err e, w)

  infixl 5 ◌>>=◌ ◌>>◌
  abbrev pub ◌>>=◌ : {A B : Type 0} → Action env A → (A → Action env B) → Action env B
  ◌>>=◌ m f w = continue (m w) f

  abbrev pub ◌>>◌ : {A B : Type 0} → Action env A → Action env B → Action env B
  ◌>>◌ m n w = continue (m w) (λ _. n)

  abbrev pub pure : {A : Type 0} → A → Action env A
  pure a w = (ok a, w)

  abbrev pub raise : {A : Type 0} → Fault → Action env A
  raise e w = (err e, w)

  abbrev pub handle :
      {A : Type 0} → Outcome A × World env → (Fault → Action env A) → Outcome A × World env
  handle (ok a, w) k = (ok a, w)
  handle (err e, w) k = k e w

  -- `try { m } catch (e) { k(e) }`, and `m.catch(k)`.
  abbrev pub catch : {A : Type 0} → Action env A → (Fault → Action env A) → Action env A
  catch m k w = handle (m w) k

  abbrev pub gets : {A : Type 0} → (World env → A) → Action env A
  gets f w = (ok (f w), w)

  -- A loop over an array, one await after the other: `for await`, or `map` under `Promise.all`.
  unfoldable pub for_each : {A B : Type 0} → (A → Action env B) → List A → Action env (List B)
  for_each f [] = pure []
  for_each f (x ∷ xs) = do y ← f x; ys ← for_each f xs; pure (y ∷ ys)

  -- `emit(name)` of telemetry.ts; the payload is not modelled
  abbrev pub emit : Text → Action env Unit
  emit name w = (ok tt, record w { events = name ∷ w.events })

  -- `randomUUID()` and `randomBytes(32).toString("hex")`
  unfoldable pub random_uuid : Action env Text
  random_uuid w = (ok (env.uuid w.drawn), record w { drawn = w.drawn + 1 })

  unfoldable pub random_key : Action env Text
  random_key w = (ok (env.random_hex w.drawn), record w { drawn = w.drawn + 1 })

  unfoldable pub found : Option Entity → Action env Entity
  found none = raise (failure (text "ResourceNotFound"))
  found (some e) = pure e

  -- The calls of a `TableClient`.
  unfoldable pub get_entity : String → Text → Text → Action env Entity
  unfolding found
  get_entity t p r w = found (env.storage.get_entity w.tables t p r) w

  unfoldable pub upsert_entity : String → Text → Text → Entity → Action env Unit
  upsert_entity t p r e w =
      (ok tt, record w { tables = env.storage.upsert_entity w.tables t p r e })

  unfoldable pub delete_entity : String → Text → Text → Action env Unit
  delete_entity t p r w =
      if is_some (env.storage.get_entity w.tables t p r)
      then (ok tt, record w { tables = env.storage.delete_entity w.tables t p r })
      else (err (failure (text "ResourceNotFound")), w)

  unfoldable pub list_entities : String → (Row → Bool) → Action env (List Row)
  list_entities t p w = (ok (filter p (env.storage.rows w.tables t)), w)

  -- The calls of the Redis client, where there is one.
  unfoldable pub redis_get : Text → Action env (Option Text)
  redis_get k w = (ok (value_in env w.redis w.now k), w)

  unfoldable pub redis_set : Text → Text → Action env Unit
  redis_set k v w = (ok tt, record w { redis = Option.map (λ r. env.cache.set r k v) w.redis })

  unfoldable pub redis_set_ex : Text → Text → ℕ → Action env Unit
  redis_set_ex k v ttl w =
      (ok tt, record w { redis = Option.map (λ r. env.cache.set_ex r w.now k v ttl) w.redis })

  unfoldable pub redis_del : Text → Action env Unit
  redis_del k w = (ok tt, record w { redis = Option.map (λ r. env.cache.del r k) w.redis })
