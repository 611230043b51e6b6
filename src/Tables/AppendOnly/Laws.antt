-- ===== src/Tables/AppendOnly/Laws.antt =====
-- The key of a later time sorts first, so that the row appended last is the one that is read.
use canonizr_hda.Prelude.{
  ℕ, ◌-◌, ◌≤◌, ◌<◌, le→leb, length, filter, All, Text, text, text_lt, decimal, pad_start, ◌≡◌, sym,
  ◌∙◌, true, some, List, [], ◌∷◌, arith, text_lt-append_left, ◌++◌, take,
}
use canonizr_hda.Prelude.Decimal.{pad_start-decimal, pad_start-decimal_lt, length-fixed}
use canonizr_hda.Storage.Entity.{Entity}
use canonizr_hda.Storage.Rows.{Row, in_partition}
use canonizr_hda.Storage.Partitions.{IsNewest, filter-put_row_newest}
use canonizr_hda.World.Actions.{ok, Env, World}
use canonizr_hda.Tables.AppendOnly.{max_ms, inverted, row_key_at, get_latest}
use Prim.Native.String.{String}
use package.text.Mathlib.TextPositions.{eq_refl}

padded :
    (t : ℕ) → t ≤ max_ms → pad_start 13 48 (inverted t) ≡ pad_start 13 48 (decimal (max_ms - t))
unfolding inverted
padded t h = rw (le→leb t max_ms h)

length-padded : (t : ℕ) → t ≤ max_ms → length (pad_start 13 48 (inverted t)) ≡ 13
length-padded t h =
    rw (padded t h, pad_start-decimal 12 (max_ms - t) (omega arith)) (length-fixed 13 (max_ms - t))

-- Of two times before the year 2286 the later one has the lesser row key, whatever the UUIDs are.
pub row_key_at_lt :
    (earlier later : ℕ) (u v : Text)
    → earlier < later
    → later ≤ max_ms
    → text_lt (row_key_at later v) (row_key_at earlier u) ≡ true
unfolding row_key_at
row_key_at_lt earlier later u v h k =
    text_lt-append_left (pad_start 13 48 (inverted later)) (pad_start 13 48 (inverted earlier))
      (text "_" ++ take 8 v) (text "_" ++ take 8 u)
      (length-padded later k ∙ sym (length-padded earlier (omega arith)))
      (rw (padded later k, padded earlier (omega arith))
        (pad_start-decimal_lt 12 (max_ms - later) (max_ms - earlier) (omega arith) (omega arith)))

-- A row that was appended before a time.
pub record IsBefore (now : ℕ) (row : Row) : Type 0 where
  pub time : ℕ
  pub uuid : Text
  pub keyed : row.row_key ≡ row_key_at time uuid
  pub earlier : time < now

All-IsBefore :
    (now : ℕ) (u : Text) (xs : List Row)
    → now ≤ max_ms
    → All (IsBefore now) xs
    → All (λ x. text_lt (row_key_at now u) x.row_key ≡ true) xs
All-IsBefore now u [] k h = tt
All-IsBefore now u (x ∷ xs) k (b, h) =
    (rw b.keyed (row_key_at_lt b.time now b.uuid u b.earlier k), All-IsBefore now u xs k h)

module _ {env : Env} where
  -- Every row of a partition was appended before the present time of the world.
  abbrev pub IsHistory : String → Text → World env → Type 0
  IsHistory t p w =
      (w.now ≤ max_ms)
      × All (IsBefore w.now) (filter (in_partition p) (env.storage.rows w.tables t))

  pub IsHistory-IsNewest :
      (t : String) (p u : Text) (w : World env)
      → IsHistory t p w
      → IsNewest p (row_key_at w.now u) (env.storage.rows w.tables t)
  IsHistory-IsNewest t p u w (k, h) = All-IsBefore w.now u _ k h

  pub rows_upserted :
      (t : String) (p r : Text) (e : Entity) (w : World env)
      → IsNewest p r (env.storage.rows w.tables t)
      → filter (in_partition p) (env.storage.rows (env.storage.upsert_entity w.tables t p r e) t)
        ≡ record { partition_key = p; row_key = r; entity = e }
          ∷ filter (in_partition p) (env.storage.rows w.tables t)
  rows_upserted t p r e w h =
      rw (env.storage.rows-upsert_entity w.tables t p r e t, eq_refl t)
        (filter-put_row_newest p r e (env.storage.rows w.tables t) h)

  -- The row that was upserted under the newest key is the one that `getLatest` returns.
  pub get_latest-upsert_entity :
      (t : String) (p r : Text) (e : Entity) (w v : World env)
      → IsNewest p r (env.storage.rows w.tables t)
      → v.tables ≡ env.storage.upsert_entity w.tables t p r e
      → get_latest t p v ≡ (ok (some e), v)
  unfolding get_latest
  get_latest-upsert_entity t p r e w v h same = rw (same, rows_upserted t p r e w h)
