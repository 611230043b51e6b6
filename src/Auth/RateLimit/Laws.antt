-- ===== src/Auth/RateLimit/Laws.antt =====
-- How many requests a window lets through.
use canonizr_hda.Prelude.{
  ℕ, ◌+◌, ◌-◌, ◌<◌, min, leb, if◌then◌else◌, lt→ltb, Option-cases, length, All, Text, text_eq,
  text_eq_iff, text_eq_refl, ◌≡◌, refl, inl, inr, false, none, some, List, [], ◌∷◌, arith,
}
use canonizr_hda.Auth.RateLimit.{
  RateLimitConfig, Entry, Entries, get, set, open_window, check_from, check,
}

pub get-set :
    (k j : Text) (e : Entry) (es : Entries)
    → get j (set k e es) ≡ (if text_eq k j then some e else get j es)
unfolding get set
get-set k j e [] = refl
get-set k j e ((i, d) ∷ es) =
    ground (arith, get-set k j e es, text_eq_iff k j, text_eq_iff i k, text_eq_iff i j)

-- A check of one key leaves the windows of the others alone.
pub get-check :
    (cfg : RateLimitConfig) (k j : Text) (now : ℕ) (es : Entries)
    → text_eq k j ≡ false
    → get j (check cfg k now es).1 ≡ get j es
unfolding check check_from
get-check cfg k j now es h = elim (Option-cases (open_window now (get k es))) [
  | inl closed ↦ rw (closed, get-set k j _ es, h) refl
  | inr (e, open_) ↦ rw (open_, get-set k j _ es, h) refl
]

-- The checks of one key at the given times: how many were allowed, and the entries after them.
pub allowed : RateLimitConfig → Text → List ℕ → Entries → ℕ × Entries
allowed cfg k [] es = (0, es)
allowed cfg k (t ∷ ts) es =
    let (yes?, es') = check cfg k t es in
    let (n, last) = allowed cfg k ts es' in ((if yes? then 1 else 0) + n, last)

pub check_open :
    (cfg : RateLimitConfig) (k : Text) (t : ℕ) (es : Entries) (c end : ℕ)
    → get k es ≡ some (record { count = c; expires_at = end })
    → t < end
    → check cfg k t es
      ≡ (leb (c + 1) cfg.max, set k (record { count = c + 1; expires_at = end }) es)
unfolding check check_from
check_open cfg k t es c end h b = rw (h, lt→ltb t end b) refl

check_closed :
    (cfg : RateLimitConfig) (k : Text) (t : ℕ) (es : Entries)
    → open_window t (get k es) ≡ none
    → check cfg k t es
      ≡ (leb 1 cfg.max, set k (record { count = 1; expires_at = t + cfg.window_ms }) es)
unfolding check check_from
check_closed cfg k t es h = rw h refl

get-set_self : (k : Text) (e : Entry) (es : Entries) → get k (set k e es) ≡ some e
get-set_self k e es = rw (get-set k k e es, text_eq_refl k) refl

-- In an open window that has counted `c` requests, those that follow are allowed up to the maximum.
allowed_open :
    (cfg : RateLimitConfig) (k : Text) (ts : List ℕ) (es : Entries) (c end : ℕ)
    → get k es ≡ some (record { count = c; expires_at = end })
    → All (λ t. t < end) ts
    → (allowed cfg k ts es).0 ≡ min (length ts) (cfg.max - c)
unfolding allowed
allowed_open cfg k [] es c end h b = omega arith
allowed_open cfg k (t ∷ ts) es c end h (b, bs) =
    let e : Entry = record { count = c + 1; expires_at = end } in
    let ih = allowed_open cfg k ts (set k e es) (c + 1) end (get-set_self k e es) bs in
    rw (check_open cfg k t es c end h b) (ground (arith, ih))

-- Of the requests of one key that come while the window of the first one is open, exactly the first
-- `max` are allowed, however many there are.
pub allowed_lem :
    (cfg : RateLimitConfig) (k : Text) (t : ℕ) (ts : List ℕ) (es : Entries)
    → open_window t (get k es) ≡ none
    → All (λ u. u < t + cfg.window_ms) ts
    → (allowed cfg k (t ∷ ts) es).0 ≡ min (length (t ∷ ts)) cfg.max
unfolding allowed
allowed_lem cfg k t ts es h b =
    let e : Entry = record { count = 1; expires_at = t + cfg.window_ms } in
    let rest = allowed_open cfg k ts (set k e es) 1 (t + cfg.window_ms) (get-set_self k e es) b in
    rw (check_closed cfg k t es h) (ground (arith, rest))
