-- ===== src/Storage/Service.antt =====
-- Azure Table Storage (`@azure/data-tables`), as far as the portal relies on it. The portal reads
-- and writes one storage account; its state is abstract, and what can be read of a table is the list
-- of its rows in the order of partition key and row key.
use canonizr_hda.Prelude.{Text, Option, List, ◌≡◌, if◌then◌else◌}
use canonizr_hda.Storage.Entity.{Entity}
use canonizr_hda.Storage.Rows.{Row, find_row, put_row, drop_row}
use Prim.Native.String.{String}
use text.Mathlib.Text.{◌==◌}

pub record TableService : Type 1 where
  pub State : Type 0
  -- `listEntities` with no filter
  pub rows : State → String → List Row
  -- `getEntity`; `none` is the error 404
  pub get_entity : State → String → Text → Text → Option Entity
  -- `upsertEntity` in its default mode, Merge
  pub upsert_entity : State → String → Text → Text → Entity → State
  -- `deleteEntity`
  pub delete_entity : State → String → Text → Text → State
  pub get_entity-rows :
      (s : State) (t : String) (p r : Text) → get_entity s t p r ≡ find_row p r (rows s t)
  pub rows-upsert_entity :
      (s : State) (t : String) (p r : Text) (e : Entity) (u : String)
      → rows (upsert_entity s t p r e) u ≡ (if t == u then put_row p r e (rows s u) else rows s u)
  pub rows-delete_entity :
      (s : State) (t : String) (p r : Text) (u : String)
      → rows (delete_entity s t p r) u ≡ (if t == u then drop_row p r (rows s u) else rows s u)
