-- ===== src/Auth/RateLimit.antt =====
-- The rate limiter of portal/lib/auth/rate-limit.ts: one window for each key, kept in memory.
pub mod Laws
use canonizr_hda.Prelude.{
  ℕ, ◌+◌, ltb, leb, if◌then◌else◌, Text, text_eq, Bool, Option, none, some, List, [], ◌∷◌,
}

pub record RateLimitConfig : Type 0 where
  pub max : ℕ
  pub window_ms : ℕ

pub record Entry : Type 0 where
  pub count : ℕ
  pub expires_at : ℕ

-- `Map<string, Entry>`: the entry of a key is the first one listed for it.
abbrev pub Entries : Type 0
Entries = List (Text × Entry)

unfoldable pub get : Text → Entries → Option Entry
get k [] = none
get k ((j, e) ∷ es) = if text_eq j k then some e else get k es

unfoldable pub set : Text → Entry → Entries → Entries
set k e [] = (k, e) ∷ []
set k e ((j, d) ∷ es) = let rest = set k e es in if text_eq j k then (j, e) ∷ es else (j, d) ∷ rest

-- The window that is open for a key, if there is one.
abbrev pub open_window : ℕ → Option Entry → Option Entry
open_window now none = none
open_window now (some e) = if ltb now e.expires_at then some e else none

-- The rest of `check`: count in the open window, or open a new one.
unfoldable pub check_from : RateLimitConfig → Option Entry → Text → ℕ → Entries → Bool × Entries
check_from cfg (some e) k now es =
    (leb (e.count + 1) cfg.max, set k (record e { count = e.count + 1 }) es)
check_from cfg none k now es =
    (leb 1 cfg.max, set k (record { count = 1; expires_at = now + cfg.window_ms }) es)

-- `RateLimiter.check`: whether the request is allowed, and the entries after it.
unfoldable pub check : RateLimitConfig → Text → ℕ → Entries → Bool × Entries
unfolding check_from get
check cfg k now es = check_from cfg (open_window now (get k es)) k now es
