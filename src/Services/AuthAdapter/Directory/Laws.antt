-- ===== src/Services/AuthAdapter/Directory/Laws.antt =====
-- The calls of the adapter of portal/lib/services/auth-adapter.ts keep users and addresses in step.
use canonizr_hda.Prelude.{
  ◌+◌, if◌then◌else◌, Bool-cases, Option-cases, Text, text, text_eq, text_eq_iff, text_eq_refl, ◌≡◌,
  refl, ap, ◌∙◌, inl, inr, false, Option, none, some, List, [], ◌∷◌, ◌++◌, arith,
}
use canonizr_hda.Storage.Entity.{str_or, str, Entity, prop}
use canonizr_hda.Storage.Rows.{merged}
use canonizr_hda.Storage.Inverse.{same-IsInverse, insert-IsInverse, erase-IsInverse}
use canonizr_hda.Storage.Reads.{get_entity-upsert_entity}
use canonizr_hda.World.Time.{iso_string}
use canonizr_hda.World.Actions.{
  Env, World, random_uuid, random_key, get_entity, found, upsert_entity,
}
use canonizr_hda.Tables.TableName
use canonizr_hda.Keys.Store.{string_of}
use canonizr_hda.Services.AuthAdapter.{user_entity, changes, create_user, update_user, delete_user}
use canonizr_hda.Services.AuthAdapter.Directory.{
  email_of, id_of, IsDirectory, email_of-upsert_user, id_of-upsert_email, id_of-upsert_user,
  email_of-upsert_email, users-upsert_key,
}
use canonizr_hda.Services.AuthAdapter.Directory.Removal.{
  id_of_forgotten, email_of_forgotten, delete_user_lem,
}
use Prim.Native.String.{String}

-- What Auth.js calls the adapter for: a first sign-in, a verified address, and the end of an account.
pub data Call : Type 0 where
  sign_up : (email : Text) (verified : Option Text) → Call
  verify : (id : Text) (verified : Option Text) → Call
  removal : (id : Text) → Call

or_else : {A : Type 0} → Option A → Option A → Option A
or_else none y = y
or_else (some x) y = some x

or_else_self : {A : Type 0} (x : Option A) → or_else x x ≡ x
unfolding or_else
or_else_self none = refl
or_else_self (some x) = refl

prop-append :
    (name : String) (xs ys : Entity) → prop name (xs ++ ys) ≡ or_else (prop name xs) (prop name ys)
unfolding prop or_else
prop-append name [] ys = refl
prop-append name ((k, v) ∷ xs) ys = ground (arith, prop-append name xs ys)

-- A row that is merged into itself with a verification has its address still.
email-verified :
    (e : Entity) (verified : Option Text)
    → string_of "email" (merged (some e) (changes none (some verified) ++ e)) ≡ string_of "email" e
unfolding changes prop
email-verified e verified =
    ap (λ v. str_or v []) (prop-append "email" e e ∙ or_else_self (prop "email" e))

module _ (env : Env) where
  unfoldable pub step : Call → World env → World env
  step (sign_up email verified) w = (create_user email verified w).1
  step (verify id verified) w = (update_user id none (some verified) w).1
  step (removal id) w = (delete_user id w).1

  unfoldable pub run : List Call → World env → World env
  run [] w = w
  run (call ∷ calls) w = run calls (step call w)

  -- Auth.js signs an address up that is not empty and finds no user, and the id that is drawn is new.
  unfoldable pub IsNew : Call → World env → Type 0
  IsNew (sign_up email verified) w =
      (text_eq email [] ≡ false)
      × (id_of env w.tables email ≡ none)
      × (email_of env w.tables (env.uuid w.drawn) ≡ none)
  IsNew (verify id verified) w = Unit {0}
  IsNew (removal id) w = Unit {0}

  unfoldable pub AreNew : List Call → World env → Type 0
  AreNew [] w = Unit {0}
  AreNew (call ∷ calls) w = IsNew call w × AreNew calls (step call w)

  email_of-verified :
      (id at : Text) (verified : Option Text) (e : Entity) (w : World env)
      → env.storage.get_entity w.tables TableName.users (text "user") id ≡ some e
      → email_of env
          (env.storage.upsert_entity w.tables TableName.users
            (text "user")
            id
            (changes none (some verified) ++ e))
          at
        ≡ email_of env w.tables at
  unfolding email_of
  email_of-verified id at verified e w there =
      rw
        (
          get_entity-upsert_entity env.storage w.tables TableName.users (text "user") id
              (changes none (some verified) ++ e) TableName.users (text "user") at,
          text_eq_refl (text "user"),
        )
        (elim (Bool-cases (text_eq id at)) [
          | inl same ↦
              rw (same, ← (text_eq_iff id at).0 same, there) (ap some (email-verified e verified))
          | inr other ↦ rw other refl
        ])

  module _ (w : World env) (directory : IsDirectory env w) where
    id_of_created :
        (email at : Text) (verified : Option Text)
        → id_of env (create_user email verified w).1.tables at
          ≡ (if text_eq email at then some (env.uuid w.drawn) else id_of env w.tables at)
    unfolding create_user random_uuid random_key upsert_entity
    id_of_created email at verified =
        rw
          (
            (users-upsert_key env _ at (env.uuid w.drawn)
                (("key_hex", str (env.random_hex (w.drawn + 1))) ∷ [])).0,
            id_of-upsert_email env _ at email (env.uuid w.drawn),
            id_of-upsert_user env w.tables at (env.uuid w.drawn)
                (user_entity email verified (iso_string w.now)),
          )
          refl

    email_of_created :
        (email at : Text) (verified : Option Text)
        → email_of env (create_user email verified w).1.tables at
          ≡ (if text_eq (env.uuid w.drawn) at then some email else email_of env w.tables at)
    unfolding create_user random_uuid random_key upsert_entity
    email_of_created email at verified =
        rw
          (
            (users-upsert_key env _ at (env.uuid w.drawn)
                (("key_hex", str (env.random_hex (w.drawn + 1))) ∷ [])).1,
            email_of-upsert_email env _ at email (("userId", str (env.uuid w.drawn)) ∷ []),
          )
          (email_of-upsert_user env w.tables at (env.uuid w.drawn) email (iso_string w.now)
            verified)

    create_user-IsDirectory :
        (email : Text) (verified : Option Text)
        → IsNew (sign_up email verified) w
        → IsDirectory env (create_user email verified w).1
    unfolding IsNew
    create_user-IsDirectory email verified (named, unused, new) = (
      insert-IsInverse directory.0 text_eq text_eq_iff email (env.uuid w.drawn) unused new
          (λ g. id_of_created email g verified) (λ c. email_of_created email c verified),
      rw (id_of_created email [] verified, named) directory.1,
    )

    update_user-IsDirectory :
        (id : Text) (verified : Option Text)
        → IsDirectory env (update_user id none (some verified) w).1
    unfolding update_user get_entity found upsert_entity
    update_user-IsDirectory id verified =
        elim (Option-cases (env.storage.get_entity w.tables TableName.users (text "user") id)) [
          | inl gone ↦ rw gone directory
          | inr (e, there) ↦ rw there (
            same-IsInverse directory.0
                (λ g. id_of-upsert_user env w.tables g id (changes none (some verified) ++ e))
                (λ c. email_of-verified id c verified e w there),
            id_of-upsert_user env w.tables [] id (changes none (some verified) ++ e) ∙ directory.1,
          )
        ]

    removed-IsDirectory :
        (id : Text) (e : Entity)
        → env.storage.get_entity w.tables TableName.users (text "user") id ≡ some e
        → IsDirectory env (delete_user id w).1
    removed-IsDirectory id e there =
        let email = string_of "email" e in
        let at_id : email_of env w.tables id ≡ some email = unfold email_of in rw there refl in
        let listed = directory.0.admitted email id at_id in
        let named : text_eq email [] ≡ false = elim (Bool-cases (text_eq email [])) [
          | inl blank ↦
              let none_at : id_of env w.tables email ≡ none =
                ap (id_of env w.tables) ((text_eq_iff email []).0 blank) ∙ directory.1 in
              cc
          | inr named ↦ named
        ] in
        rw (delete_user_lem env id e w there named) (
          erase-IsInverse directory.0 text_eq text_eq_iff email id at_id
              (id_of_forgotten env id email w) (email_of_forgotten env id email w),
          rw (id_of_forgotten env id email w [], named) directory.1,
        )

    delete_user-IsDirectory : (id : Text) → IsDirectory env (delete_user id w).1
    unfolding delete_user get_entity found
    delete_user-IsDirectory id =
        elim (Option-cases (env.storage.get_entity w.tables TableName.users (text "user") id)) [
          | inl gone ↦ rw gone directory
          | inr (e, there) ↦ removed-IsDirectory id e there
        ]

  step-IsDirectory :
      (call : Call) (w : World env)
      → IsDirectory env w
      → IsNew call w
      → IsDirectory env (step call w)
  unfolding step
  step-IsDirectory (sign_up email verified) w directory new =
      create_user-IsDirectory w directory email verified new
  step-IsDirectory (verify id verified) w directory new =
      update_user-IsDirectory w directory id verified
  step-IsDirectory (removal id) w directory new = delete_user-IsDirectory w directory id

  pub run-IsDirectory :
      (calls : List Call) (w : World env)
      → IsDirectory env w
      → AreNew calls w
      → IsDirectory env (run calls w)
  unfolding run AreNew
  run-IsDirectory [] w directory new = directory
  run-IsDirectory (call ∷ calls) w directory (new, rest) =
      run-IsDirectory calls (step call w) (step-IsDirectory call w directory new) rest
