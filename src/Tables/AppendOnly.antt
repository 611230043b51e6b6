-- ===== src/Tables/AppendOnly.antt =====
-- Append-only tables, portal/lib/data/tables/append-only.ts: the row key is an inverted timestamp and
-- part of a UUID, so that the newest row of a partition sorts first.
use canonizr_hda.Prelude.{
  ℕ, ◌-◌, leb, if◌then◌else◌, take, head?, Text, text, decimal, pad_start, Option, none, some, ◌++◌,
}
use canonizr_hda.Storage.Entity.{Entity}
use canonizr_hda.Storage.Rows.{Row, in_partition}
use canonizr_hda.World.Actions.{
  Outcome, ok, Env, World, Action, ◌>>=◌, ◌>>◌, pure, random_uuid, upsert_entity, list_entities,
}
use Prim.Native.String.{String}
pub mod Laws

abbrev pub max_ms : ℕ
max_ms = 9999999999999

-- `String(9_999_999_999_999 - now)`, with its sign.
unfoldable pub inverted : ℕ → Text
inverted now = if leb now max_ms then decimal (max_ms - now) else text "-" ++ decimal (now - max_ms)

unfoldable pub row_key_at : ℕ → Text → Text
row_key_at now uuid = pad_start 13 48 (inverted now) ++ (text "_" ++ take 8 uuid)

abbrev pub entity_of : Option Row → Option Entity
entity_of none = none
entity_of (some row) = some row.entity

module _ {env : Env} where
  unfoldable pub inverted_timestamp_rk : Action env Text
  unfolding random_uuid
  inverted_timestamp_rk w = (random_uuid >>= λ u. pure (row_key_at w.now u)) w

  -- The first row of a partition in the listing order.
  unfoldable pub get_latest : String → Text → Action env (Option Entity)
  unfolding list_entities
  get_latest t p = do rows ← list_entities t (in_partition p); pure (entity_of (head? rows))
