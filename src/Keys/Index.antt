-- ===== src/Keys/Index.antt =====
-- Two tables of portal/lib/services/keys-table.ts against each other: GwApiKeys, by which the gateway
-- admits a key, and ApiKeys, which holds the keys that are shown to their owners.
use canonizr_hda.Prelude.{
  ℕ, zero, suc, ◌+◌, ◌-◌, ◌*◌, ◌/◌, ◌%◌, ◌^◌, ◌≤◌, ◌<◌, min, max, ltb, leb, ◌==◌, if◌then◌else◌,
  ltb→lt, lt→ltb, leb→le, le→leb, ==_iff, Bool-cases, Option-cases, &&-eq-true, length,
  length-append, replicate, take, head?, filter, any, all, find?, get_or, is_some, filter-append,
  All, sum, sum-append, Text, text, text_eq, text_eq_iff, text_eq_refl, text_lt, text_lt_irrefl,
  text_lt_asymm, text_lt-append_left, text_lt-append_right, decimal, decimal_from, pad_start, ◌≡◌,
  refl, sym, ap, ◌∙◌, subst, fun_ext, ◌≢◌, ◌↔◌, ◌⊎◌, inl, inr, Bool, true, false, not, ◌&&◌, ◌||◌,
  Option, none, some, List, [], ◌∷◌, ◌++◌, map, append-nil, append_assoc, arith, tests, to_number,
  to_number_from,
}
use canonizr_hda.Storage.Entity.{Entity, prop}
use canonizr_hda.Storage.Rows.{Row, find_row, merged}
use canonizr_hda.Storage.Reads.{get_entity-upsert_entity, get_entity-delete_entity}
use canonizr_hda.World.Actions.{Env, World}
use canonizr_hda.Tables.TableName
use canonizr_hda.Keys.Store.{string_of, with_row_key, key_entity, try_delete}
use canonizr_hda.Keys.Access.{holder, tables-try_delete}
use canonizr_hda.Storage.Inverse.{IsInverse}
use mathlib.Core.Option
use Prim.Native.String.{String}
use package.text.Mathlib.Text.{◌==◌ as str_eq}
pub mod Laws

module _ (env : Env) where
  abbrev pub hash_in : Entity → Text
  hash_in e = env.sha256_hex (string_of "primaryKey" e)

  -- The hash of the key that a user has under an id.
  unfoldable pub hash_of_key : env.storage.State → Text → Text → Option Text
  hash_of_key s user id = Option.map hash_in (env.storage.get_entity s TableName.api_keys user id)

  -- GwApiKeys holds the hashes of the keys of ApiKeys, each with its subscription and owner, and no
  -- others.
  abbrev pub IsIndex : World env → Type 0
  IsIndex w = IsInverse (holder env w.tables) (λ k. hash_of_key w.tables k.1 k.0)

  map-hash_in_put :
      (hit : Bool) (old : Option Entity) (name key created : Text) (rest : Option Entity)
      → Option.map hash_in (if hit then some (merged old (key_entity name key created)) else rest)
        ≡ (if hit then some (env.sha256_hex key) else Option.map hash_in rest)
  unfolding prop
  map-hash_in_put true none name key created rest = refl
  map-hash_in_put true (some e) name key created rest = refl
  map-hash_in_put false old name key created rest = refl

  map-hash_in_drop :
      (hit : Bool) (rest : Option Entity)
      → Option.map hash_in (if hit then none else rest)
        ≡ (if hit then none else Option.map hash_in rest)
  map-hash_in_drop true rest = refl
  map-hash_in_drop false rest = refl

  module _ (s : env.storage.State) (u i : Text) where
    pub hash_of_key-upsert_key :
        (user id name key created : Text)
        → hash_of_key
            (env.storage.upsert_entity s TableName.api_keys user id (key_entity name key created))
            u
            i
          ≡ (if text_eq user u && text_eq id i
              then some (env.sha256_hex key)
              else hash_of_key s u i)
    unfolding hash_of_key
    hash_of_key-upsert_key user id name key created =
        rw
          (get_entity-upsert_entity env.storage s TableName.api_keys user id
            (key_entity name key created) TableName.api_keys u i)
          (map-hash_in_put (text_eq user u && text_eq id i) _ name key created _)

    pub hash_of_key-delete_key :
        (user id : Text)
        → hash_of_key (env.storage.delete_entity s TableName.api_keys user id) u i
          ≡ (if text_eq user u && text_eq id i then none else hash_of_key s u i)
    unfolding hash_of_key
    hash_of_key-delete_key user id =
        rw
          (get_entity-delete_entity env.storage s TableName.api_keys user id TableName.api_keys u i)
          (map-hash_in_drop (text_eq user u && text_eq id i) _)

    pub hash_of_key-upsert_other :
        (t : String) (p r : Text) (e : Entity)
        → str_eq t TableName.api_keys ≡ false
        → hash_of_key (env.storage.upsert_entity s t p r e) u i ≡ hash_of_key s u i
    unfolding hash_of_key
    hash_of_key-upsert_other t p r e h =
        rw (get_entity-upsert_entity env.storage s t p r e TableName.api_keys u i, h) refl

    hash_of_key-delete_other :
        (t : String) (p r : Text)
        → str_eq t TableName.api_keys ≡ false
        → hash_of_key (env.storage.delete_entity s t p r) u i ≡ hash_of_key s u i
    unfolding hash_of_key
    hash_of_key-delete_other t p r h =
        rw (get_entity-delete_entity env.storage s t p r TableName.api_keys u i, h) refl

  pub hash_of_key-try_delete_other :
      (t : String) (p r u i : Text) (w : World env)
      → str_eq t TableName.api_keys ≡ false
      → hash_of_key (try_delete t p r w).1.tables u i ≡ hash_of_key w.tables u i
  hash_of_key-try_delete_other t p r u i w h =
      rw (tables-try_delete env t p r w)
        (elim (Bool-cases (is_some (env.storage.get_entity w.tables t p r))) [
          | inl there ↦ rw there (hash_of_key-delete_other w.tables u i t p r h)
          | inr gone ↦ rw gone refl
        ])

  -- A row that is found by its id is the row of its owner and id.
  find_row_of_id :
      (id : Text) (xs : List Row) (row : Row)
      → head? (filter (with_row_key id) xs) ≡ some row
      → (id ≡ row.row_key) × (find_row row.partition_key id xs ≡ some row.entity)
  unfolding find_row
  find_row_of_id id [] row h = ground arith
  find_row_of_id id (x ∷ xs) row h = elim (Bool-cases (with_row_key id x)) [
    | inl hit ↦
        let e : some x ≡ some row = rw hit at h in
        let same : x ≡ row = cc in
        (
          (text_eq_iff id x.row_key).0 hit ∙ ap (λ y. y.row_key) same,
          rw (← same, text_eq_refl x.partition_key, hit) refl,
        )
    | inr miss ↦
        let ih = find_row_of_id id xs row (rw miss at h) in (ih.0, rw miss (ground (arith, ih.1)))
  ]

  pub hash_of_key_listed :
      (id : Text) (row : Row) (w : World env)
      → head? (filter (with_row_key id) (env.storage.rows w.tables TableName.api_keys)) ≡ some row
      → (id ≡ row.row_key) × (hash_of_key w.tables row.partition_key id ≡ some (hash_in row.entity))
  unfolding hash_of_key
  hash_of_key_listed id row w h =
      let (same, there) = find_row_of_id id (env.storage.rows w.tables TableName.api_keys) row h in
      (
        same,
        rw (env.storage.get_entity-rows w.tables TableName.api_keys row.partition_key id, there)
            refl,
      )
