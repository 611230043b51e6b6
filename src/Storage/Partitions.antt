-- ===== src/Storage/Partitions.antt =====
-- The rows of one partition after a write: the filter `PartitionKey eq 'q'` of a listing.
use canonizr_hda.Prelude.{
  Bool-cases, filter, All, Text, text_eq, text_eq_iff, text_eq_refl, text_lt, text_lt_irrefl, ◌≡◌,
  refl, inl, inr, true, false, none, List, [], ◌∷◌, arith,
}
use canonizr_hda.Storage.Entity.{Entity}
use canonizr_hda.Storage.Rows.{
  Row, find_row, insert_row, merge_row, put_row, drop_row, in_partition,
}

-- The rows of another partition are left alone by an upsert.
filter-insert_row_other :
    (p r q : Text) (e : Entity) (xs : List Row)
    → text_eq q p ≡ false
    → filter (in_partition q) (insert_row p r e xs) ≡ filter (in_partition q) xs
unfolding insert_row
filter-insert_row_other p r q e [] h = ground arith
filter-insert_row_other p r q e (x ∷ xs) h = ground (arith, filter-insert_row_other p r q e xs)

filter-merge_row_other :
    (p r q : Text) (e : Entity) (xs : List Row)
    → text_eq q p ≡ false
    → filter (in_partition q) (merge_row p r e xs) ≡ filter (in_partition q) xs
unfolding merge_row
filter-merge_row_other p r q e [] h = refl
filter-merge_row_other p r q e (x ∷ xs) h = ground (
  arith,
  filter-merge_row_other p r q e xs,
  text_eq_iff p x.partition_key,
  text_eq_iff q x.partition_key,
  text_eq_iff q p,
)

pub filter-put_row_other :
    (p r q : Text) (e : Entity) (xs : List Row)
    → text_eq q p ≡ false
    → filter (in_partition q) (put_row p r e xs) ≡ filter (in_partition q) xs
unfolding put_row
filter-put_row_other p r q e xs h =
    ground (arith, filter-insert_row_other p r q e xs h, filter-merge_row_other p r q e xs h)

pub filter-drop_row_other :
    (p r q : Text) (xs : List Row)
    → text_eq q p ≡ false
    → filter (in_partition q) (drop_row p r xs) ≡ filter (in_partition q) xs
unfolding drop_row
filter-drop_row_other p r q [] h = refl
filter-drop_row_other p r q (x ∷ xs) h = ground (
  arith,
  filter-drop_row_other p r q xs,
  text_eq_iff p x.partition_key,
  text_eq_iff q x.partition_key,
  text_eq_iff q p,
)

-- A row key below all those of its partition.
abbrev pub IsNewest : Text → Text → List Row → Type 0
IsNewest p r xs = All (λ x. text_lt r x.row_key ≡ true) (filter (in_partition p) xs)

IsNewest-tail : (p r : Text) (x : Row) (xs : List Row) → IsNewest p r (x ∷ xs) → IsNewest p r xs
IsNewest-tail p r x xs h = elim (Bool-cases (text_eq p x.partition_key)) [
  | inl same ↦ (rw same at h).1
  | inr other ↦ rw other at h
]

IsNewest-head :
    (p r : Text) (x : Row) (xs : List Row)
    → IsNewest p r (x ∷ xs)
    → text_eq p x.partition_key ≡ true
    → text_lt r x.row_key ≡ true
IsNewest-head p r x xs h same = (rw same at h).0

lt_ne : (r s : Text) → text_lt r s ≡ true → text_eq r s ≡ false
lt_ne r s h = ground (arith, text_eq_iff r s, text_lt_irrefl s)

find_row_newest : (p r : Text) (xs : List Row) → IsNewest p r xs → find_row p r xs ≡ none
unfolding find_row
find_row_newest p r [] h = refl
find_row_newest p r (x ∷ xs) h = ground (
  arith,
  find_row_newest p r xs (IsNewest-tail p r x xs h),
  IsNewest-head p r x xs h,
  lt_ne r x.row_key,
)

filter-insert_row_newest :
    (p r : Text) (e : Entity) (xs : List Row)
    → IsNewest p r xs
    → filter (in_partition p) (insert_row p r e xs)
      ≡ record { partition_key = p; row_key = r; entity = e } ∷ filter (in_partition p) xs
unfolding insert_row
filter-insert_row_newest p r e [] h = rw (text_eq_refl p)
filter-insert_row_newest p r e (x ∷ xs) h = ground (
  arith,
  text_eq_refl p,
  IsNewest-head p r x xs h,
  filter-insert_row_newest p r e xs (IsNewest-tail p r x xs h),
)

-- An upsert under such a key puts its row at the head of the partition.
pub filter-put_row_newest :
    (p r : Text) (e : Entity) (xs : List Row)
    → IsNewest p r xs
    → filter (in_partition p) (put_row p r e xs)
      ≡ record { partition_key = p; row_key = r; entity = e } ∷ filter (in_partition p) xs
unfolding put_row
filter-put_row_newest p r e xs h =
    rw (find_row_newest p r xs h) (filter-insert_row_newest p r e xs h)
