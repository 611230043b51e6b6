-- ===== src/Storage/Laws.antt =====
-- Reads after writes, on the rows of one table.
use canonizr_hda.Prelude.{
  if◌then◌else◌, Option-cases, Text, text_eq, text_eq_iff, ◌≡◌, inl, inr, ◌&&◌, none, some, List,
  [], ◌∷◌, ◌++◌, arith,
}
use canonizr_hda.Storage.Entity.{Entity}
use canonizr_hda.Storage.Rows.{Row, find_row, insert_row, merge_row, put_row, drop_row, merged}

find_row-insert_row :
    (p r q u : Text) (e : Entity) (xs : List Row)
    → find_row p r xs ≡ none
    → find_row q u (insert_row p r e xs)
      ≡ (if text_eq p q && text_eq r u then some e else find_row q u xs)
unfolding find_row insert_row
find_row-insert_row p r q u e [] h =
    ground (arith, text_eq_iff p q, text_eq_iff r u, text_eq_iff q p, text_eq_iff u r)
find_row-insert_row p r q u e (x ∷ xs) h = ground (
  arith,
  find_row-insert_row p r q u e xs,
  text_eq_iff p q,
  text_eq_iff r u,
  text_eq_iff q p,
  text_eq_iff u r,
  text_eq_iff p x.partition_key,
  text_eq_iff r x.row_key,
  text_eq_iff q x.partition_key,
  text_eq_iff u x.row_key,
)

find_row-merge_row :
    (p r q u : Text) (e old : Entity) (xs : List Row)
    → find_row p r xs ≡ some old
    → find_row q u (merge_row p r e xs)
      ≡ (if text_eq p q && text_eq r u then some (e ++ old) else find_row q u xs)
unfolding find_row merge_row
find_row-merge_row p r q u e old [] h = ground arith
find_row-merge_row p r q u e old (x ∷ xs) h = ground (
  arith,
  find_row-merge_row p r q u e old xs,
  text_eq_iff p q,
  text_eq_iff r u,
  text_eq_iff p x.partition_key,
  text_eq_iff r x.row_key,
  text_eq_iff q x.partition_key,
  text_eq_iff u x.row_key,
)

-- A point read after an upsert.
pub find_row-put_row :
    (p r q u : Text) (e : Entity) (xs : List Row)
    → find_row q u (put_row p r e xs)
      ≡ (if text_eq p q && text_eq r u then some (merged (find_row p r xs) e) else find_row q u xs)
unfolding put_row
find_row-put_row p r q u e xs = elim (Option-cases (find_row p r xs)) [
  | inl fresh ↦ rw fresh (find_row-insert_row p r q u e xs fresh)
  | inr (old, found) ↦ rw found (find_row-merge_row p r q u e old xs found)
]

-- A point read after a delete.
pub find_row-drop_row :
    (p r q u : Text) (xs : List Row)
    → find_row q u (drop_row p r xs)
      ≡ (if text_eq p q && text_eq r u then none else find_row q u xs)
unfolding find_row drop_row
find_row-drop_row p r q u [] = ground arith
find_row-drop_row p r q u (x ∷ xs) = ground (
  arith,
  find_row-drop_row p r q u xs,
  text_eq_iff p q,
  text_eq_iff r u,
  text_eq_iff p x.partition_key,
  text_eq_iff r x.row_key,
  text_eq_iff q x.partition_key,
  text_eq_iff u x.row_key,
)
