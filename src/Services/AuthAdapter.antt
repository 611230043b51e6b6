-- ===== src/Services/AuthAdapter.antt =====
-- `AzureTableStorageAdapter` of portal/lib/services/auth-adapter.ts: the users and the tokens of sign-in
-- links. A date is its ISO text, as the tables keep it.
use canonizr_hda.Prelude.{
  get_or, Text, text, text_eq, Bool, true, false, Option, none, some, [], ◌∷◌, ◌++◌,
}
use canonizr_hda.Storage.Entity.{str, Entity, prop, str_or}
use canonizr_hda.World.Time.{iso_string}
use canonizr_hda.World.Actions.{
  Env, Action, ◌>>=◌, ◌>>◌, pure, gets, catch, random_uuid, random_key, get_entity, upsert_entity,
  delete_entity,
}
use canonizr_hda.Tables.TableName
use canonizr_hda.Keys.Store.{string_of, get_entity?, try_delete}
pub mod Laws
pub mod Tokens
pub mod Directory

-- The fields of `AdapterUser` that vary.
pub record AdapterUser : Type 0 where
  pub id : Text
  pub email : Text
  pub email_verified : Option Text

pub record VerificationToken : Type 0 where
  pub identifier : Text
  pub token : Text
  pub expires : Text

-- The empty text stands for an address that is not verified.
abbrev pub non_empty : Text → Option Text
non_empty [] = none
non_empty (c ∷ s) = some (c ∷ s)

unfoldable pub to_user : Text → Entity → AdapterUser
to_user id e = record {
  id = id;
  email = string_of "email" e;
  email_verified = non_empty (string_of "emailVerified" e);
}

abbrev pub user_entity : Text → Option Text → Text → Entity
user_entity email verified created =
    ("email", str email)
    ∷ ("emailVerified", str (get_or verified []))
    ∷ ("createdAt", str created)
    ∷ []

abbrev pub token_entity : VerificationToken → Entity
token_entity t = ("token", str t.token) ∷ ("expires", str t.expires) ∷ []

-- The properties that an update changes; `some none` unsets the verification.
unfoldable pub changes : Option Text → Option (Option Text) → Entity
changes none none = []
changes (some email) none = ("email", str email) ∷ []
changes none (some verified) = ("emailVerified", str (get_or verified [])) ∷ []
changes (some email) (some verified) =
    ("email", str email) ∷ ("emailVerified", str (get_or verified [])) ∷ []

abbrev pub token_of : Text → Entity → VerificationToken
token_of identifier e = record {
  identifier = identifier;
  token = string_of "token" e;
  expires = string_of "expires" e;
}

module _ {env : Env} where
  unfoldable pub create_user : Text → Option Text → Action env AdapterUser
  create_user email verified = do
    id ← random_uuid
    encryption_key ← random_key
    now ← gets (λ w. w.now)
    upsert_entity TableName.users (text "user") id (user_entity email verified (iso_string now))
    upsert_entity TableName.users (text "email") email (("userId", str id) ∷ [])
    upsert_entity TableName.gw_encryption_keys (text "key") id
        (("key_hex", str encryption_key) ∷ [])
    pure (to_user id (user_entity email verified (iso_string now)))

  unfoldable pub user_found : Text → Option Entity → Action env (Option AdapterUser)
  user_found id none = pure none
  user_found id (some e) = pure (some (to_user id e))

  unfoldable pub get_user : Text → Action env (Option AdapterUser)
  get_user id = do e ← get_entity? TableName.users (text "user") id; user_found id e

  unfoldable pub user_looked_up : Option Entity → Action env (Option AdapterUser)
  user_looked_up none = pure none
  user_looked_up (some lookup) = get_user (string_of "userId" lookup)

  unfoldable pub get_user_by_email : Text → Action env (Option AdapterUser)
  get_user_by_email email = do
    lookup ← get_entity? TableName.users (text "email") email
    user_looked_up lookup

  unfoldable pub update_user : Text → Option Text → Option (Option Text) → Action env AdapterUser
  update_user id email verified = do
    existing ← get_entity TableName.users (text "user") id
    upsert_entity TableName.users (text "user") id (changes email verified ++ existing)
    pure (to_user id (changes email verified ++ existing))

  unfoldable pub delete_email : Text → Action env Unit
  delete_email [] = pure tt
  delete_email (c ∷ email) = try_delete TableName.users (text "email") (c ∷ email)

  unfoldable pub delete_user : Text → Action env Unit
  delete_user id =
      catch
        (do
          e ← get_entity TableName.users (text "user") id
          delete_entity TableName.users (text "user") id
          delete_email (string_of "email" e)
          try_delete TableName.gw_encryption_keys (text "key") id)
        (λ _. pure tt)

  unfoldable pub create_verification_token : VerificationToken → Action env VerificationToken
  create_verification_token t = do
    upsert_entity TableName.verification_tokens (text "token") t.identifier (token_entity t)
    pure t

  unfoldable pub redeem : Text → Text → Entity → Bool → Action env (Option VerificationToken)
  redeem identifier token e false = pure none
  redeem identifier token e true = do
    delete_entity TableName.verification_tokens (text "token") identifier
    pure (some (token_of identifier e))

  unfoldable pub use_verification_token : Text → Text → Action env (Option VerificationToken)
  use_verification_token identifier token =
      catch
        (do
          e ← get_entity TableName.verification_tokens (text "token") identifier
          redeem identifier token e (text_eq (string_of "token" e) token))
        (λ _. pure none)
