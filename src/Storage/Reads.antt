-- ===== src/Storage/Reads.antt =====
-- Point reads after writes, for the storage service.
use canonizr_hda.Prelude.{
  is_some, refl, Bool, true, false, Option, if◌then◌else◌, Text, text, text_eq, ◌≡◌, ◌&&◌, none,
  some, arith,
}
use canonizr_hda.Storage.Entity.{Entity}
use canonizr_hda.Storage.Rows.{merged}
use canonizr_hda.Storage.Service.{TableService}
use canonizr_hda.Storage.Laws.{find_row-put_row, find_row-drop_row}
use mathlib.Core.Option
use Prim.Native.String.{String}
use package.text.Mathlib.Text.{◌==◌ as str_eq}

-- A value that is taken from what a read finds, where a write may have hit it.
pub map-if :
    {B : Type 0} (f : Entity → B) (hit : Bool) (x y : Option Entity)
    → Option.map f (if hit then x else y) ≡ (if hit then Option.map f x else Option.map f y)
map-if f true x y = refl
map-if f false x y = refl

pub map-is_some :
    {B : Type 0} (f : Entity → B) (o : Option Entity) → is_some o ≡ false → Option.map f o ≡ none
map-is_some f none h = refl
map-is_some f (some e) h = ground arith

module _ (az : TableService) where
  pub get_entity-upsert_entity :
      (s : az.State) (t : String) (p r : Text) (e : Entity) (u : String) (q v : Text)
      → az.get_entity (az.upsert_entity s t p r e) u q v ≡ (
          if str_eq t u && (text_eq p q && text_eq r v)
          then some (merged (az.get_entity s u p r) e)
          else az.get_entity s u q v)
  get_entity-upsert_entity s t p r e u q v = ground (
    arith,
    az.get_entity-rows (az.upsert_entity s t p r e) u q v,
    az.get_entity-rows s u p r,
    az.get_entity-rows s u q v,
    az.rows-upsert_entity s t p r e u,
    find_row-put_row p r q v e (az.rows s u),
  )

  pub get_entity-delete_entity :
      (s : az.State) (t : String) (p r : Text) (u : String) (q v : Text)
      → az.get_entity (az.delete_entity s t p r) u q v
        ≡ (if str_eq t u && (text_eq p q && text_eq r v) then none else az.get_entity s u q v)
  get_entity-delete_entity s t p r u q v = ground (
    arith,
    az.get_entity-rows (az.delete_entity s t p r) u q v,
    az.get_entity-rows s u q v,
    az.rows-delete_entity s t p r u,
    find_row-drop_row p r q v (az.rows s u),
  )
