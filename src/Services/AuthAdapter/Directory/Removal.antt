-- ===== src/Services/AuthAdapter/Directory/Removal.antt =====
-- The worlds that deleteUser of portal/lib/services/auth-adapter.ts passes through.
use canonizr_hda.Prelude.{
  if◌then◌else◌, Text, text, text_eq, ◌≡◌, refl, false, none, some, [], ◌∷◌, arith,
}
use canonizr_hda.World.Actions.{ok, Env, World, get_entity, found, delete_entity}
use canonizr_hda.Storage.Entity.{Entity}
use canonizr_hda.Tables.TableName
use canonizr_hda.Keys.Store.{string_of, try_delete}
use canonizr_hda.Keys.Lifecycle.{try_delete_ok}
use canonizr_hda.Services.AuthAdapter.{delete_email, delete_user}
use canonizr_hda.Services.AuthAdapter.Directory.{
  email_of, id_of, email_of-delete_user, id_of-delete_user,
}
use canonizr_hda.Services.AuthAdapter.Directory.TryDelete.{
  id_of-try_delete_email, email_of-try_delete_email, users-try_delete_key,
}

module _ (env : Env) where
  delete_email_lem :
      (email : Text) (w : World env)
      → text_eq email [] ≡ false
      → delete_email email w ≡ (ok tt, (try_delete TableName.users (text "email") email w).1)
  unfolding delete_email text_eq
  delete_email_lem [] w h = ground arith
  delete_email_lem (c ∷ email) w h = try_delete_ok TableName.users (text "email") (c ∷ email) w

  -- The worlds that the removal of a user passes through.
  module _ (id email : Text) (w : World env) where
    abbrev removed : World env
    removed = record w {
      tables = env.storage.delete_entity w.tables TableName.users (text "user") id;
    }

    abbrev unlisted : World env
    unlisted = (try_delete TableName.users (text "email") email removed).1

    abbrev pub forgotten : World env
    forgotten = (try_delete TableName.gw_encryption_keys (text "key") id unlisted).1

    pub id_of_forgotten :
        (at : Text)
        → id_of env forgotten.tables at ≡ (if text_eq email at then none else id_of env w.tables at)
    id_of_forgotten at =
        rw
          (
            (users-try_delete_key env unlisted at id).0,
            id_of-try_delete_email env removed at email,
            id_of-delete_user env w.tables at id,
          )
          refl

    pub email_of_forgotten :
        (at : Text)
        → email_of env forgotten.tables at
          ≡ (if text_eq id at then none else email_of env w.tables at)
    email_of_forgotten at =
        rw
          (
            (users-try_delete_key env unlisted at id).1,
            email_of-try_delete_email env removed at email,
            email_of-delete_user env w.tables at id,
          )
          refl

  delete_entity_lem :
      (id : Text) (e : Entity) (w : World env)
      → env.storage.get_entity w.tables TableName.users (text "user") id ≡ some e
      → delete_entity TableName.users (text "user") id w
        ≡ (ok tt, removed id (string_of "email" e) w)
  unfolding delete_entity
  delete_entity_lem id e w there = rw there refl

  pub delete_user_lem :
      (id : Text) (e : Entity) (w : World env)
      → env.storage.get_entity w.tables TableName.users (text "user") id ≡ some e
      → text_eq (string_of "email" e) [] ≡ false
      → delete_user id w ≡ (ok tt, forgotten id (string_of "email" e) w)
  unfolding delete_user get_entity found
  delete_user_lem id e w there named = rw there (
      rw (delete_entity_lem id e w there) (
        rw (delete_email_lem (string_of "email" e) (removed id (string_of "email" e) w) named) (
          rw
            (try_delete_ok TableName.gw_encryption_keys (text "key") id
              (unlisted id (string_of "email" e) w))
            refl)))
