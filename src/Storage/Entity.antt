-- ===== src/Storage/Entity.antt =====
-- Entities of Azure Table Storage as the code sees them: property bags (`Record<string, unknown>`)
-- read with a cast, `e.name as T`, and a default, `?? d`.
use canonizr_hda.Prelude.{Text, Bool, Option, none, some, List, [], ◌∷◌, if◌then◌else◌}
use canonizr_hda.Prelude.Int.{ℤ}
use Prim.Native.String.{String}
use text.Mathlib.Text.{◌==◌}

pub data Value : Type 0 where
  str : Text → Value
  num : ℤ → Value
  bool : Bool → Value

abbrev pub Entity : Type 0
Entity = List (String × Value)

-- `e.name`; `none` is `undefined`.
unfoldable pub prop : String → Entity → Option Value
prop name [] = none
prop name ((k, v) ∷ e) = if k == name then some v else prop name e

-- A null property is not stored ("Table Storage ignores null on upsert").
abbrev pub nullable : String → Option Value → Entity → Entity
nullable name none e = e
nullable name (some v) e = (name, v) ∷ e

-- `(e.name as string) ?? d`, and the same at the other types.
abbrev pub str_or : Option Value → Text → Text
str_or (some (str s)) d = s
str_or _ d = d

abbrev pub num_or : Option Value → ℤ → ℤ
num_or (some (num n)) d = n
num_or _ d = d

abbrev pub bool_or : Option Value → Bool → Bool
bool_or (some (bool b)) d = b
bool_or _ d = d

-- `(e.name as number) ?? null`.
abbrev pub num? : Option Value → Option ℤ
num? (some (num n)) = some n
num? _ = none

abbrev pub str? : Option Value → Option Text
str? (some (str s)) = some s
str? _ = none
