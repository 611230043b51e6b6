-- ===== src/Services/Cache/Laws.antt =====
-- A cached answer is returned until it expires.
use canonizr_hda.Prelude.{
  ℕ, ◌+◌, ◌≤◌, ◌<◌, ltb, ltb→lt, Bool-cases, Text, text_eq_refl, ◌≡◌, refl, ap, ◌∙◌, ◌⊎◌, inl, inr,
  Option, none, some, ◌∷◌, arith,
}
use mathlib.Core.Option
use canonizr_hda.World.Actions.{value_in, ok, Env, World, Action, redis_get, redis_set_ex}
use canonizr_hda.Services.Cache.{cache_ttl, fetch_and_store, on_hit, cached}

module _ {env : Env} {T : Type 0} (encode : T → Text) (decode : Text → T) where
  redis_get_lem :
      (k : Text) (w : World env) (r : env.cache.State)
      → w.redis ≡ some r
      → redis_get k w ≡ (ok (env.cache.get r w.now k), w)
  unfolding redis_get
  redis_get_lem k w r h = ap (λ (o : Option env.cache.State). (ok (value_in env o w.now k), w)) h

  redis_set_ex_lem :
      (k v : Text) (ttl : ℕ) (w : World env) (r : env.cache.State)
      → w.redis ≡ some r
      → redis_set_ex k v ttl w
        ≡ (ok tt, record w { redis = some (env.cache.set_ex r w.now k v ttl) })
  unfolding redis_set_ex
  redis_set_ex_lem k v ttl w r h =
      ap
        (λ (o : Option env.cache.State).
          (ok tt, record w { redis = Option.map (λ q. env.cache.set_ex q w.now k v ttl) o }))
        h

  cached_miss :
      (key : Text) (fetch : Action env T) (w v : World env) (result : T) (r s : env.cache.State)
      → w.redis ≡ some r
      → env.cache.get r w.now key ≡ none
      → fetch w ≡ (ok result, v)
      → v.redis ≡ some s
      → cached encode decode key fetch w ≡ (
        ok result,
        record v { redis = some (env.cache.set_ex s v.now key (encode result) cache_ttl) },
      )
  unfolding cached on_hit fetch_and_store
  cached_miss key fetch w v result r s hw hm hf hv =
      rw (redis_get_lem key w r hw, hm, hf, redis_set_ex_lem key (encode result) cache_ttl v s hv)
        refl

  cached_hit :
      (key : Text) (fetch : Action env T) (w : World env) (r : env.cache.State) (c : ℕ) (t : Text)
      → w.redis ≡ some r
      → env.cache.get r w.now key ≡ some (c ∷ t)
      → cached encode decode key fetch w ≡ (ok (decode (c ∷ t)), w)
  unfolding cached on_hit
  cached_hit key fetch w r c t h k = rw (redis_get_lem key w r h, k) refl

cached_again :
    {env : Env} {T : Type 0} (encode : T → Text) (decode : Text → T) (key : Text)
    (again : Action env T) (w : World env) (r : env.cache.State)
    → w.redis ≡ some r
    → env.cache.get r w.now key ≡ none
    → cached encode decode key again w ≡ fetch_and_store encode decode key again w
unfolding cached on_hit
cached_again encode decode key again w r h k = rw (redis_get_lem encode decode key w r h, k) refl

-- The answer of a fetch that was stored, in the world as it stands later.
abbrev pub kept_until :
    {env : Env} {T : Type 0}
    → (T → Text)
    → (Text → T)
    → Text
    → Action env T
    → World env
    → ℕ
    → World env
kept_until encode decode key fetch w later = record (cached encode decode key fetch w).1 {
  now = later;
}

-- After a miss and a successful fetch, a read returns the fetched answer and changes nothing, whatever
-- a new fetch would do, exactly in the next 300 seconds; from then on it fetches and stores again.
-- Here the encoding is not empty and is read back.
pub cached_lem :
    {env : Env} {T : Type 0} (encode : T → Text) (decode : Text → T) (key : Text)
    (fetch again : Action env T) (w v : World env) (result : T) (r s : env.cache.State) (c : ℕ)
    (t : Text) (later : ℕ)
    → w.redis ≡ some r
    → env.cache.get r w.now key ≡ none
    → fetch w ≡ (ok result, v)
    → v.redis ≡ some s
    → encode result ≡ c ∷ t
    → decode (c ∷ t) ≡ result
    → ((cached encode decode key fetch w).0 ≡ ok result)
      × (((later < v.now + 300000)
            × (cached encode decode key again (kept_until encode decode key fetch w later)
                ≡ (ok result, kept_until encode decode key fetch w later)))
          ⊎ ((v.now + 300000 ≤ later)
              × (cached encode decode key again (kept_until encode decode key fetch w later)
                  ≡ fetch_and_store encode decode key again
                      (kept_until encode decode key fetch w later))))
cached_lem {env} encode decode key fetch again w v result r s c t later hw hm hf hv he hd =
    let s' : env.cache.State = env.cache.set_ex s v.now key (encode result) cache_ttl in
    let kept : World env = record v { redis = some s'; now = later } in
    rw (cached_miss encode decode key fetch w v result r s hw hm hf hv) (
      refl,
      elim (Bool-cases (ltb later (v.now + 300000))) [
        | inl early ↦
            let held : env.cache.get s' later key ≡ some (c ∷ t) =
              rw
                (
                  env.cache.get-set_ex s v.now key (encode result) cache_ttl later key,
                  text_eq_refl key,
                  early,
                  he,
                )
                refl in
            inl (
              ltb→lt later (v.now + 300000) early,
              cached_hit encode decode key again kept s' c t refl held ∙ ap (λ x. (ok x, kept)) hd,
            )
        | inr late ↦
            let gone : env.cache.get s' later key ≡ none =
              rw
                (
                  env.cache.get-set_ex s v.now key (encode result) cache_ttl later key,
                  text_eq_refl key,
                  late,
                )
                refl in
            inr (ground arith, cached_again encode decode key again kept s' refl gone)
      ],
    )
