-- ===== src/Services/AuthAdapter/Laws.antt =====
-- What is read back of users.
use canonizr_hda.Prelude.{
  ◌+◌, Text, text, text_eq, text_eq_refl, ◌≡◌, refl, ap, ◌∙◌, Option, none, some, [], ◌∷◌,
}
use canonizr_hda.Storage.Entity.{Entity, str, prop}
use canonizr_hda.Storage.Rows.{merged}
use canonizr_hda.Storage.Service.{TableService}
use canonizr_hda.Storage.Reads.{get_entity-upsert_entity}
use canonizr_hda.World.Time.{iso_string}
use canonizr_hda.World.Actions.{ok, Env, World, random_uuid, random_key, upsert_entity}
use canonizr_hda.Tables.TableName
use canonizr_hda.Keys.Store.{string_of}
use canonizr_hda.Keys.Listing.{get_entity?_lem}
use canonizr_hda.Services.AuthAdapter.{
  AdapterUser, to_user, user_entity, create_user, user_found, user_looked_up, get_user,
  get_user_by_email,
}

to_user-merged :
    (id email created : Text) (verified : Option Text) (old : Option Entity)
    → to_user id (merged old (user_entity email verified created))
      ≡ to_user id (user_entity email verified created)
unfolding to_user prop
to_user-merged id email created verified none = refl
to_user-merged id email created verified (some old) = refl

user_id-merged :
    (id : Text) (old : Option Entity)
    → string_of "userId" (merged old (("userId", str id) ∷ [])) ≡ id
unfolding prop
user_id-merged id none = refl
user_id-merged id (some old) = refl

-- The tables after `create_user`.
module _ (az : TableService) (s : az.State) (id email hex created : Text)
    (verified : Option Text) where
  abbrev with_user : az.State
  with_user =
      az.upsert_entity s TableName.users (text "user") id (user_entity email verified created)

  abbrev with_email : az.State
  with_email =
      az.upsert_entity with_user TableName.users (text "email") email (("userId", str id) ∷ [])

  abbrev with_all : az.State
  with_all =
      az.upsert_entity with_email TableName.gw_encryption_keys (text "key") id
        (("key_hex", str hex) ∷ [])

  email_row :
      az.get_entity with_all TableName.users (text "email") email
      ≡ some (
          merged
            (az.get_entity with_user TableName.users (text "email") email)
            (("userId", str id) ∷ []))
  unfolding text
  email_row =
      rw
        (
          get_entity-upsert_entity az with_email TableName.gw_encryption_keys (text "key") id
              (("key_hex", str hex) ∷ []) TableName.users (text "email") email,
          get_entity-upsert_entity az with_user TableName.users (text "email") email
              (("userId", str id) ∷ []) TableName.users (text "email") email,
          text_eq_refl (text "email"),
          text_eq_refl email,
        )
        refl

  user_row :
      az.get_entity with_all TableName.users (text "user") id
      ≡ some (
          merged
            (az.get_entity s TableName.users (text "user") id)
            (user_entity email verified created))
  unfolding text text_eq
  user_row =
      rw
        (
          get_entity-upsert_entity az with_email TableName.gw_encryption_keys (text "key") id
              (("key_hex", str hex) ∷ []) TableName.users (text "user") id,
          get_entity-upsert_entity az with_user TableName.users (text "email") email
              (("userId", str id) ∷ []) TableName.users (text "user") id,
          get_entity-upsert_entity az s TableName.users (text "user") id
              (user_entity email verified created) TableName.users (text "user") id,
          text_eq_refl id,
        )
        refl

module _ {env : Env} where
  pub get_user_lem :
      (id : Text) (e : Entity) (w : World env)
      → env.storage.get_entity w.tables TableName.users (text "user") id ≡ some e
      → get_user id w ≡ (ok (some (to_user id e)), w)
  unfolding get_user user_found
  get_user_lem id e w h = rw (get_entity?_lem TableName.users (text "user") id w, h) refl

  pub get_user_by_email_lem :
      (email : Text) (lookup e : Entity) (w : World env)
      → env.storage.get_entity w.tables TableName.users (text "email") email ≡ some lookup
      → env.storage.get_entity w.tables TableName.users (text "user") (string_of "userId" lookup)
        ≡ some e
      → get_user_by_email email w ≡ (ok (some (to_user (string_of "userId" lookup) e)), w)
  unfolding get_user_by_email user_looked_up
  get_user_by_email_lem email lookup e w h k =
      rw (get_entity?_lem TableName.users (text "email") email w, h)
        (get_user_lem (string_of "userId" lookup) e w k)

  -- A user who was created is found under the id and under the email, as `create_user` returned it.
  pub get_user_by_email-create_user :
      (email : Text) (verified : Option Text) (w : World env)
      → (u : AdapterUser) × (u.email ≡ email)
        × ((create_user email verified w).0 ≡ ok u)
        × ((get_user u.id (create_user email verified w).1).0 ≡ ok (some u))
        × ((get_user_by_email email (create_user email verified w).1).0 ≡ ok (some u))
  unfolding create_user random_uuid random_key upsert_entity to_user prop
  get_user_by_email-create_user email verified w =
      let id : Text = env.uuid w.drawn in
      let created : Text = iso_string w.now in
      let old : Option Entity = env.storage.get_entity w.tables TableName.users (text "user") id in
      let before : Option Entity =
        env.storage.get_entity (with_user env.storage w.tables id email [] created verified)
          TableName.users (text "email") email in
      let v : World env = (create_user email verified w).1 in
      let user_there =
        user_row env.storage w.tables id email (env.random_hex (w.drawn + 1)) created verified in
      let email_there =
        email_row env.storage w.tables id email (env.random_hex (w.drawn + 1)) created verified in
      let named = user_id-merged id before in
      let same = to_user-merged id email created verified old in
      let e : Entity = merged old (user_entity email verified created) in
      let lookup : Entity = merged before (("userId", str id) ∷ []) in
      let entity_at : Text → Option Entity =
        (λ i. env.storage.get_entity v.tables TableName.users (text "user") i) in
      (
        to_user id (user_entity email verified created),
        refl,
        refl,
        ap (λ o. o.0) (get_user_lem id e v user_there) ∙ ap (λ x. ok (some x)) same,
        ap (λ o. o.0)
              (get_user_by_email_lem email lookup e v email_there (ap entity_at named ∙ user_there))
            ∙ (ap (λ i. ok (some (to_user i e))) named ∙ ap (λ x. ok (some x)) same),
      )
