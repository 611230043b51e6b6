-- ===== src/Services/AuthAdapter/Directory.antt =====
-- The users of portal/lib/services/auth-adapter.ts and the rows by which they are found by address: what
-- a write to the table of users does to each.
use canonizr_hda.Prelude.{
  ℕ, zero, suc, ◌+◌, ◌-◌, ◌*◌, ◌/◌, ◌%◌, ◌^◌, ◌≤◌, ◌<◌, min, max, ltb, leb, ◌==◌, if◌then◌else◌,
  ltb→lt, lt→ltb, leb→le, le→leb, ==_iff, Bool-cases, Option-cases, &&-eq-true, length,
  length-append, replicate, take, head?, filter, any, all, find?, get_or, is_some, filter-append,
  All, sum, sum-append, Text, text, text_eq, text_eq_iff, text_eq_refl, text_lt, text_lt_irrefl,
  text_lt_asymm, text_lt-append_left, text_lt-append_right, decimal, decimal_from, pad_start, ◌≡◌,
  refl, sym, ap, ◌∙◌, subst, fun_ext, ◌≢◌, ◌↔◌, ◌⊎◌, inl, inr, Bool, true, false, not, ◌&&◌, ◌||◌,
  Option, none, some, List, [], ◌∷◌, ◌++◌, map, append-nil, append_assoc, arith, tests, to_number,
  to_number_from,
}
use canonizr_hda.Storage.Entity.{str, Entity, prop}
use canonizr_hda.Storage.Rows.{merged}
use canonizr_hda.Storage.Inverse.{IsInverse}
use canonizr_hda.Storage.Reads.{
  map-is_some, get_entity-upsert_entity, get_entity-delete_entity, map-if,
}
use canonizr_hda.World.Actions.{Env, World}
use canonizr_hda.Tables.TableName
use canonizr_hda.Keys.Store.{string_of, try_delete}
use canonizr_hda.Keys.Access.{tables-try_delete}
use canonizr_hda.Services.AuthAdapter.{user_entity, changes}
use mathlib.Core.Option
use Prim.Native.String.{String}
use package.text.Mathlib.Text.{◌==◌ as str_eq}
pub mod TryDelete
pub mod Removal
pub mod Laws
pub mod Lookup

email-merged :
    (old : Option Entity) (email created : Text) (verified : Option Text)
    → string_of "email" (merged old (user_entity email verified created)) ≡ email
unfolding prop
email-merged none email created verified = refl
email-merged (some e) email created verified = refl

id-merged :
    (old : Option Entity) (id : Text)
    → string_of "userId" (merged old (("userId", str id) ∷ [])) ≡ id
unfolding prop
id-merged none id = refl
id-merged (some e) id = refl

module _ (env : Env) where
  -- The address of a user.
  unfoldable pub email_of : env.storage.State → Text → Option Text
  email_of s id =
      Option.map (string_of "email") (env.storage.get_entity s TableName.users (text "user") id)

  -- The user that an address is looked up as.
  unfoldable pub id_of : env.storage.State → Text → Option Text
  id_of s email =
      Option.map (string_of "userId")
        (env.storage.get_entity s TableName.users (text "email") email)

  -- Every user is looked up by their address, every address that is looked up is a user's, and no
  -- address is empty.
  abbrev pub IsDirectory : World env → Type 0
  IsDirectory w = IsInverse (id_of w.tables) (email_of w.tables) × (id_of w.tables [] ≡ none)

  module _ (s : env.storage.State) (at : Text) where
    pub email_of-upsert_user :
        (id email created : Text) (verified : Option Text)
        → email_of
            (env.storage.upsert_entity s TableName.users
              (text "user")
              id
              (user_entity email verified created))
            at
          ≡ (if text_eq id at then some email else email_of s at)
    unfolding email_of
    email_of-upsert_user id email created verified =
        rw
          (
            get_entity-upsert_entity env.storage s TableName.users (text "user") id
                (user_entity email verified created) TableName.users (text "user") at,
            text_eq_refl (text "user"),
          )
          (map-if (string_of "email") (text_eq id at) _ _
            ∙ ap (λ x. if text_eq id at then some x else email_of s at)
                (email-merged (env.storage.get_entity s TableName.users (text "user") id) email
                  created verified))

    pub id_of-upsert_email :
        (email id : Text)
        → id_of
            (env.storage.upsert_entity s TableName.users
              (text "email")
              email
              (("userId", str id) ∷ []))
            at
          ≡ (if text_eq email at then some id else id_of s at)
    unfolding id_of
    id_of-upsert_email email id =
        rw
          (
            get_entity-upsert_entity env.storage s TableName.users (text "email") email
                (("userId", str id) ∷ []) TableName.users (text "email") at,
            text_eq_refl (text "email"),
          )
          (map-if (string_of "userId") (text_eq email at) _ _
            ∙ ap (λ x. if text_eq email at then some x else id_of s at)
                (id-merged (env.storage.get_entity s TableName.users (text "email") email) id))

    pub id_of-upsert_user :
        (id : Text) (e : Entity)
        → id_of (env.storage.upsert_entity s TableName.users (text "user") id e) at ≡ id_of s at
    unfolding id_of text text_eq
    id_of-upsert_user id e =
        rw
          (get_entity-upsert_entity env.storage s TableName.users (text "user") id e TableName.users
            (text "email") at)
          refl

    pub email_of-upsert_email :
        (email : Text) (e : Entity)
        → email_of (env.storage.upsert_entity s TableName.users (text "email") email e) at
          ≡ email_of s at
    unfolding email_of text text_eq
    email_of-upsert_email email e =
        rw
          (get_entity-upsert_entity env.storage s TableName.users (text "email") email e
            TableName.users (text "user") at)
          refl

    pub email_of-delete_user :
        (id : Text)
        → email_of (env.storage.delete_entity s TableName.users (text "user") id) at
          ≡ (if text_eq id at then none else email_of s at)
    unfolding email_of
    email_of-delete_user id =
        rw
          (
            get_entity-delete_entity env.storage s TableName.users (text "user") id TableName.users
                (text "user") at,
            text_eq_refl (text "user"),
          )
          (map-if (string_of "email") (text_eq id at) _ _)

    pub id_of-delete_email :
        (email : Text)
        → id_of (env.storage.delete_entity s TableName.users (text "email") email) at
          ≡ (if text_eq email at then none else id_of s at)
    unfolding id_of
    id_of-delete_email email =
        rw
          (
            get_entity-delete_entity env.storage s TableName.users (text "email") email
                TableName.users (text "email") at,
            text_eq_refl (text "email"),
          )
          (map-if (string_of "userId") (text_eq email at) _ _)

    pub id_of-delete_user :
        (id : Text)
        → id_of (env.storage.delete_entity s TableName.users (text "user") id) at ≡ id_of s at
    unfolding id_of text text_eq
    id_of-delete_user id =
        rw
          (get_entity-delete_entity env.storage s TableName.users (text "user") id TableName.users
            (text "email") at)
          refl

    pub email_of-delete_email :
        (email : Text)
        → email_of (env.storage.delete_entity s TableName.users (text "email") email) at
          ≡ email_of s at
    unfolding email_of text text_eq
    email_of-delete_email email =
        rw
          (get_entity-delete_entity env.storage s TableName.users (text "email") email
            TableName.users (text "user") at)
          refl

    -- The rows of the encryption keys are those of another table.
    pub users-upsert_key :
        (r : Text) (e : Entity)
        → (id_of (env.storage.upsert_entity s TableName.gw_encryption_keys (text "key") r e) at
            ≡ id_of s at)
          × (email_of (env.storage.upsert_entity s TableName.gw_encryption_keys (text "key") r e) at
              ≡ email_of s at)
    unfolding id_of email_of
    users-upsert_key r e = (
      rw
          (get_entity-upsert_entity env.storage s TableName.gw_encryption_keys (text "key") r e
            TableName.users (text "email") at)
          refl,
      rw
          (get_entity-upsert_entity env.storage s TableName.gw_encryption_keys (text "key") r e
            TableName.users (text "user") at)
          refl,
    )

    pub users-delete_key :
        (r : Text)
        → (id_of (env.storage.delete_entity s TableName.gw_encryption_keys (text "key") r) at
            ≡ id_of s at)
          × (email_of (env.storage.delete_entity s TableName.gw_encryption_keys (text "key") r) at
              ≡ email_of s at)
    unfolding id_of email_of
    users-delete_key r = (
      rw
          (get_entity-delete_entity env.storage s TableName.gw_encryption_keys (text "key") r
            TableName.users (text "email") at)
          refl,
      rw
          (get_entity-delete_entity env.storage s TableName.gw_encryption_keys (text "key") r
            TableName.users (text "user") at)
          refl,
    )
