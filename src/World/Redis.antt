-- ===== src/World/Redis.antt =====
-- Redis (`ioredis`), as far as the portal relies on it: string values under string keys, with an
-- expiry in seconds where `set` is given one. Times are in milliseconds.
use canonizr_hda.Prelude.{ℕ, ◌+◌, ◌*◌, ltb, if◌then◌else◌, Text, text_eq, Option, none, some, ◌≡◌}

pub record RedisService : Type 1 where
  pub State : Type 0
  -- `get key` at a time; `none` is null
  pub get : State → ℕ → Text → Option Text
  -- `set key value`
  pub set : State → Text → Text → State
  -- `set key value "EX" seconds` at a time
  pub set_ex : State → ℕ → Text → Text → ℕ → State
  -- `del key`
  pub del : State → Text → State
  pub get-set :
      (s : State) (k v : Text) (now : ℕ) (j : Text)
      → get (set s k v) now j ≡ (if text_eq k j then some v else get s now j)
  pub get-set_ex :
      (s : State) (at : ℕ) (k v : Text) (ttl now : ℕ) (j : Text)
      → get (set_ex s at k v ttl) now j ≡ (
          if text_eq k j then (if ltb now (at + ttl * 1000) then some v else none) else get s now j)
  pub get-del :
      (s : State) (k : Text) (now : ℕ) (j : Text)
      → get (del s k) now j ≡ (if text_eq k j then none else get s now j)
