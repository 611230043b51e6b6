-- ===== src/Keys/Access.antt =====
-- Whom a key admits: the gateway looks up the hash of a key in GwApiKeys and takes the subscription
-- and the user from that row.
use canonizr_hda.Prelude.{
  if◌then◌else◌, Bool-cases, is_some, Text, text, text_eq, text_eq_iff, text_eq_refl, ◌≡◌, refl, ap,
  inl, inr, Bool, true, false, Option, none, some,
}
use canonizr_hda.Storage.Entity.{Entity, prop}
use canonizr_hda.Storage.Rows.{merged}
use canonizr_hda.Storage.Reads.{map-is_some, get_entity-upsert_entity, get_entity-delete_entity}
use canonizr_hda.World.Actions.{Env, World, delete_entity}
use canonizr_hda.Tables.TableName
use canonizr_hda.Keys.Store.{string_of, hash_entity, try_delete}
use mathlib.Core.Option
use Prim.Native.String.{String}
use package.text.Mathlib.Text.{◌==◌ as str_eq}

abbrev credentials : Entity → Text × Text
credentials e = (string_of "sub_id" e, string_of "user_id" e)

-- The row of a hash names its subscription and user, merged into another one or not.
credentials-merged :
    (old : Option Entity) (id user created : Text)
    → credentials (merged old (hash_entity id user created)) ≡ (id, user)
unfolding prop
credentials-merged none id user created = refl
credentials-merged (some e) id user created = refl

-- Reading the credentials after a write under one hash.
map-credentials_put :
    (hit : Bool) (old : Option Entity) (id user created : Text) (rest : Option Entity)
    → Option.map credentials (if hit then some (merged old (hash_entity id user created)) else rest)
      ≡ (if hit then some (id, user) else Option.map credentials rest)
map-credentials_put true old id user created rest = ap some (credentials-merged old id user created)
map-credentials_put false old id user created rest = refl

map-credentials_drop :
    (hit : Bool) (rest : Option Entity)
    → Option.map credentials (if hit then none else rest)
      ≡ (if hit then none else Option.map credentials rest)
map-credentials_drop true rest = refl
map-credentials_drop false rest = refl

module _ (env : Env) where
  -- The subscription and the user that a hash stands for.
  unfoldable pub holder : env.storage.State → Text → Option (Text × Text)
  holder s hash =
      Option.map credentials (env.storage.get_entity s TableName.gw_api_keys (text "key") hash)

  -- The subscription and the user that a key stands for.
  unfoldable pub access_in : env.storage.State → Text → Option (Text × Text)
  access_in s key = holder s (env.sha256_hex key)

  module _ (s : env.storage.State) (at : Text) where
    pub holder-upsert_other :
        (t : String) (p r : Text) (e : Entity)
        → str_eq t TableName.gw_api_keys ≡ false
        → holder (env.storage.upsert_entity s t p r e) at ≡ holder s at
    unfolding holder
    holder-upsert_other t p r e h =
        rw (get_entity-upsert_entity env.storage s t p r e TableName.gw_api_keys (text "key") at, h)
          refl

    pub holder-delete_other :
        (t : String) (p r : Text)
        → str_eq t TableName.gw_api_keys ≡ false
        → holder (env.storage.delete_entity s t p r) at ≡ holder s at
    unfolding holder
    holder-delete_other t p r h =
        rw (get_entity-delete_entity env.storage s t p r TableName.gw_api_keys (text "key") at, h)
          refl

    pub holder-upsert_hash :
        (hash id user created : Text)
        → holder
            (env.storage.upsert_entity s TableName.gw_api_keys
              (text "key")
              hash
              (hash_entity id user created))
            at
          ≡ (if text_eq hash at then some (id, user) else holder s at)
    unfolding holder
    holder-upsert_hash hash id user created =
        rw
          (
            get_entity-upsert_entity env.storage s TableName.gw_api_keys (text "key") hash
                (hash_entity id user created) TableName.gw_api_keys (text "key") at,
            text_eq_refl (text "key"),
          )
          (map-credentials_put (text_eq hash at) _ id user created _)

    holder-delete_hash :
        (hash : Text)
        → holder (env.storage.delete_entity s TableName.gw_api_keys (text "key") hash) at
          ≡ (if text_eq hash at then none else holder s at)
    unfolding holder
    holder-delete_hash hash =
        rw
          (
            get_entity-delete_entity env.storage s TableName.gw_api_keys (text "key") hash
                TableName.gw_api_keys (text "key") at,
            text_eq_refl (text "key"),
          )
          (map-credentials_drop (text_eq hash at) _)

    holder_missing :
        (hash : Text)
        → is_some (env.storage.get_entity s TableName.gw_api_keys (text "key") hash) ≡ false
        → holder s at ≡ (if text_eq hash at then none else holder s at)
    unfolding holder
    holder_missing hash h = elim (Bool-cases (text_eq hash at)) [
      | inl same ↦
          let e : hash ≡ at = (text_eq_iff hash at).0 same in
          rw same (
            map-is_some credentials (env.storage.get_entity s TableName.gw_api_keys (text "key") at)
              (rw e at h))
      | inr other ↦ rw other refl
    ]

  -- The state after a delete whose failure is ignored.
  pub tables-try_delete :
      (t : String) (p r : Text) (w : World env)
      → (try_delete t p r w).1.tables ≡ (
          if is_some (env.storage.get_entity w.tables t p r)
          then env.storage.delete_entity w.tables t p r
          else w.tables)
  unfolding try_delete delete_entity
  tables-try_delete t p r w = elim (Bool-cases (is_some (env.storage.get_entity w.tables t p r))) [
    | inl there ↦ rw there refl
    | inr gone ↦ rw gone refl
  ]

  module _ (w : World env) (at : Text) where
    -- A delete whose failure is ignored revokes the hash in either case.
    pub holder-try_delete_hash :
        (hash : Text)
        → holder (try_delete TableName.gw_api_keys (text "key") hash w).1.tables at
          ≡ (if text_eq hash at then none else holder w.tables at)
    holder-try_delete_hash hash =
        rw (tables-try_delete TableName.gw_api_keys (text "key") hash w)
          (elim (Bool-cases
            (is_some (env.storage.get_entity w.tables TableName.gw_api_keys (text "key") hash))) [
              | inl there ↦ rw there (holder-delete_hash w.tables at hash)
              | inr gone ↦ rw gone (holder_missing w.tables at hash gone)
            ])

    pub holder-try_delete_other :
        (t : String) (p r : Text)
        → str_eq t TableName.gw_api_keys ≡ false
        → holder (try_delete t p r w).1.tables at ≡ holder w.tables at
    holder-try_delete_other t p r h =
        rw (tables-try_delete t p r w)
          (elim (Bool-cases (is_some (env.storage.get_entity w.tables t p r))) [
            | inl there ↦ rw there (holder-delete_other w.tables at t p r h)
            | inr gone ↦ rw gone refl
          ])
