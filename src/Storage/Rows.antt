-- ===== src/Storage/Rows.antt =====
-- A table as its rows in the order of the keys: what a point read, a merge and a delete do to them.
use canonizr_hda.Prelude.{
  Text, text_eq, text_lt, Bool, ◌&&◌, ◌||◌, Option, none, some, List, [], ◌∷◌, ◌++◌, if◌then◌else◌,
}
use canonizr_hda.Storage.Entity.{Entity}

pub record Row : Type 0 where
  pub partition_key : Text
  pub row_key : Text
  pub entity : Entity

abbrev pub has_key : Text → Text → Row → Bool
has_key p r row = text_eq p row.partition_key && text_eq r row.row_key

-- The row keyed (p, r) stands before the row in the listing order.
abbrev pub key_before : Text → Text → Row → Bool
key_before p r row =
    text_lt p row.partition_key || (text_eq p row.partition_key && text_lt r row.row_key)

unfoldable pub find_row : Text → Text → List Row → Option Entity
find_row p r [] = none
find_row p r (x ∷ xs) = if has_key p r x then some x.entity else find_row p r xs

-- A new row goes before the first row with a greater key.
unfoldable pub insert_row : Text → Text → Entity → List Row → List Row
insert_row p r e [] = record { partition_key = p; row_key = r; entity = e } ∷ []
insert_row p r e (x ∷ xs) =
    let rest = insert_row p r e xs in
    if key_before p r x
    then record { partition_key = p; row_key = r; entity = e } ∷ x ∷ xs
    else x ∷ rest

-- A merge into a row that is there: the properties that the update does not name stay.
unfoldable pub merge_row : Text → Text → Entity → List Row → List Row
merge_row p r e [] = []
merge_row p r e (x ∷ xs) =
    let rest = merge_row p r e xs in
    if has_key p r x then record x { entity = e ++ x.entity } ∷ xs else x ∷ rest

abbrev put_of : Option Entity → Text → Text → Entity → List Row → List Row
put_of none p r e xs = insert_row p r e xs
put_of (some _) p r e xs = merge_row p r e xs

-- `upsertEntity` in its default mode, Merge.
unfoldable pub put_row : Text → Text → Entity → List Row → List Row
unfolding insert_row merge_row find_row
put_row p r e xs = put_of (find_row p r xs) p r e xs

unfoldable pub drop_row : Text → Text → List Row → List Row
drop_row p r [] = []
drop_row p r (x ∷ xs) = let rest = drop_row p r xs in if has_key p r x then rest else x ∷ rest

-- The rows of one partition: the filter `PartitionKey eq 'p'`.
abbrev pub in_partition : Text → Row → Bool
in_partition p row = text_eq p row.partition_key

-- The entity that an upsert leaves under its key.
abbrev pub merged : Option Entity → Entity → Entity
merged none e = e
merged (some old) e = e ++ old
