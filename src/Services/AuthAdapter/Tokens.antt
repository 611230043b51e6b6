-- ===== src/Services/AuthAdapter/Tokens.antt =====
-- A token of a sign-in link is accepted once.
use canonizr_hda.Prelude.{
  Text, text, text_eq, text_eq_refl, ◌≡◌, refl, ap, true, false, Option, none, some,
}
use canonizr_hda.Storage.Entity.{Entity, prop}
use canonizr_hda.Storage.Rows.{merged}
use canonizr_hda.Storage.Service.{TableService}
use canonizr_hda.Storage.Reads.{get_entity-upsert_entity, get_entity-delete_entity}
use canonizr_hda.World.Actions.{ok, Env, World, get_entity, upsert_entity, delete_entity}
use canonizr_hda.Tables.TableName
use canonizr_hda.Keys.Store.{string_of}
use canonizr_hda.Services.AuthAdapter.{
  VerificationToken, token_entity, token_of, create_verification_token, redeem,
  use_verification_token,
}

token_of-merged :
    (t : VerificationToken) (old : Option Entity)
    → token_of t.identifier (merged old (token_entity t)) ≡ t
unfolding prop
token_of-merged t none = refl
token_of-merged t (some old) = refl

gone :
    (az : TableService) (identifier : Text) (s : az.State)
    → az.get_entity
        (az.delete_entity s TableName.verification_tokens (text "token") identifier)
        TableName.verification_tokens
        (text "token")
        identifier
      ≡ none
gone az identifier s =
    rw
      (
        get_entity-delete_entity az s TableName.verification_tokens (text "token") identifier
            TableName.verification_tokens (text "token") identifier,
        text_eq_refl (text "token"),
        text_eq_refl identifier,
      )
      refl

module _ {env : Env} where
  token_row :
      (t : VerificationToken) (w : World env)
      → (e : Entity) × (env.storage.get_entity
            (create_verification_token t w).1.tables
            TableName.verification_tokens
            (text "token")
            t.identifier
          ≡ some e)
        × (token_of t.identifier e ≡ t)
  unfolding create_verification_token upsert_entity
  token_row t w = (
    merged
        (env.storage.get_entity w.tables TableName.verification_tokens (text "token") t.identifier)
        (token_entity t),
    rw
        (
          get_entity-upsert_entity env.storage w.tables TableName.verification_tokens (text "token")
              t.identifier (token_entity t) TableName.verification_tokens (text "token")
              t.identifier,
          text_eq_refl (text "token"),
          text_eq_refl t.identifier,
        )
        refl,
    token_of-merged t _,
  )

  use_missing :
      (identifier token : Text) (w : World env)
      → env.storage.get_entity w.tables TableName.verification_tokens (text "token") identifier
        ≡ none
      → use_verification_token identifier token w ≡ (ok none, w)
  unfolding use_verification_token get_entity
  use_missing identifier token w h = rw h refl

  use_right :
      (identifier token : Text) (e : Entity) (w : World env)
      → env.storage.get_entity w.tables TableName.verification_tokens (text "token") identifier
        ≡ some e
      → text_eq (string_of "token" e) token ≡ true
      → use_verification_token identifier token w ≡ (
        ok (some (token_of identifier e)),
        record w {
          tables =
              env.storage.delete_entity w.tables TableName.verification_tokens
                (text "token")
                identifier;
        },
      )
  unfolding use_verification_token get_entity redeem delete_entity
  use_right identifier token e w h k = rw (h, k, h) refl

  use_wrong :
      (identifier token : Text) (e : Entity) (w : World env)
      → env.storage.get_entity w.tables TableName.verification_tokens (text "token") identifier
        ≡ some e
      → text_eq (string_of "token" e) token ≡ false
      → use_verification_token identifier token w ≡ (ok none, w)
  unfolding use_verification_token get_entity redeem
  use_wrong identifier token e w h k = rw (h, k) refl

  -- A token that was stored is accepted once: the stored token is returned, and after that no token is
  -- accepted for its identifier. Another token is refused, and refusing it changes nothing.
  pub use_verification_token_once :
      (t : VerificationToken) (other : Text) (w v : World env)
      → create_verification_token t w ≡ (ok t, v)
      → text_eq t.token other ≡ false
      → ((use_verification_token t.identifier t.token v).0 ≡ ok (some t))
        × ((token : Text)
            → (use_verification_token t.identifier token
                (use_verification_token t.identifier t.token v).1).0
              ≡ ok none)
        × (use_verification_token t.identifier other v ≡ (ok none, v))
  use_verification_token_once t other w v made h =
      let (e, there, same) = token_row t w in
      let there_v : env.storage.get_entity v.tables TableName.verification_tokens (text "token")
            t.identifier
          ≡ some e =
        rw (← ap (λ o. o.1) made) there in
      let is_token : string_of "token" e ≡ t.token = ap (λ x. x.token) same in
      let right : text_eq (string_of "token" e) t.token ≡ true =
        rw is_token (text_eq_refl t.token) in
      let wrong : text_eq (string_of "token" e) other ≡ false = rw is_token h in
      let accepted = use_right t.identifier t.token e v there_v right in
      (
        rw accepted (ap (λ x. ok (some x)) same),
        λ token. rw accepted (
            ap (λ o. o.0)
              (use_missing t.identifier token _ (gone env.storage t.identifier v.tables))),
        use_wrong t.identifier other e v there_v wrong,
      )
