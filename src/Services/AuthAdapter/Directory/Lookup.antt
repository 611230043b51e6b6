-- ===== src/Services/AuthAdapter/Directory/Lookup.antt =====
-- Finding users by address, getUserByEmail of portal/lib/services/auth-adapter.ts.
use canonizr_hda.Prelude.{
  Option-cases, get_or, Text, text, ◌≡◌, refl, sym, ap, ◌∙◌, subst, ◌↔◌, inl, inr, Option, none,
  some, List, [], ◌∷◌,
}
use canonizr_hda.Storage.Entity.{str, Entity, prop}
use canonizr_hda.World.Actions.{ok, Env, World, get_entity, found, upsert_entity}
use canonizr_hda.Tables.TableName
use canonizr_hda.Keys.Store.{string_of}
use canonizr_hda.Keys.Listing.{get_entity?_lem}
use canonizr_hda.Services.AuthAdapter.{
  AdapterUser, to_user, changes, user_found, user_looked_up, get_user, get_user_by_email,
  update_user,
}
use canonizr_hda.Services.AuthAdapter.Laws.{get_user_lem, get_user_by_email_lem}
use canonizr_hda.Services.AuthAdapter.Directory.{email_of, id_of, IsDirectory, id_of-upsert_user}
use canonizr_hda.Services.AuthAdapter.Directory.Laws.{Call, run, AreNew, run-IsDirectory}

some_ok : (u v : AdapterUser) → ok (some u) ≡ ok (some v) → u ≡ v
some_ok u v h = cc

some_text : (s t : Text) → some s ≡ some t → s ≡ t
some_text s t h = cc

module _ {env : Env} where
  abbrev row_of_user : World env → Text → Option Entity
  row_of_user w id = env.storage.get_entity w.tables TableName.users (text "user") id

  abbrev row_of_email : World env → Text → Option Entity
  row_of_email w email = env.storage.get_entity w.tables TableName.users (text "email") email

  get_user-none :
      (id : Text) (w : World env) → row_of_user w id ≡ none → (get_user id w).0 ≡ ok none
  unfolding get_user user_found
  get_user-none id w h = rw (get_entity?_lem TableName.users (text "user") id w, h) refl

  get_user_by_email-none :
      (email : Text) (w : World env)
      → row_of_email w email ≡ none
      → (get_user_by_email email w).0 ≡ ok none
  unfolding get_user_by_email user_looked_up
  get_user_by_email-none email w h =
      rw (get_entity?_lem TableName.users (text "email") email w, h) refl

  get_user_by_email_gone :
      (email : Text) (lookup : Entity) (w : World env)
      → row_of_email w email ≡ some lookup
      → row_of_user w (string_of "userId" lookup) ≡ none
      → (get_user_by_email email w).0 ≡ ok none
  unfolding get_user_by_email user_looked_up
  get_user_by_email_gone email lookup w h k =
      rw (get_entity?_lem TableName.users (text "email") email w, h)
        (get_user-none (string_of "userId" lookup) w k)

  id_of-none :
      (email : Text) (w : World env) → row_of_email w email ≡ none → id_of env w.tables email ≡ none
  unfolding id_of
  id_of-none email w h = rw h refl

  row_none :
      (email : Text) (w : World env) → id_of env w.tables email ≡ none → row_of_email w email ≡ none
  unfolding id_of
  row_none email w h = elim (Option-cases (row_of_email w email)) [
    | inl gone ↦ gone
    | inr (lookup, there) ↦ absurd (let found_now = rw there at h in cc)
  ]

  module _ (w : World env) (directory : IsDirectory env w) where
    email_of_row :
        (id : Text) (e : Entity)
        → row_of_user w id ≡ some e
        → email_of env w.tables id ≡ some (string_of "email" e)
    unfolding email_of
    email_of_row id e h = rw h refl

    id_of_row :
        (email : Text) (lookup : Entity)
        → row_of_email w email ≡ some lookup
        → id_of env w.tables email ≡ some (string_of "userId" lookup)
    unfolding id_of
    id_of_row email lookup h = rw h refl

    by_email :
        (a : Text) (u : AdapterUser)
        → (get_user_by_email a w).0 ≡ ok (some u)
        → ((get_user u.id w).0 ≡ ok (some u)) × (u.email ≡ a)
    unfolding to_user
    by_email a u h = elim (Option-cases (row_of_email w a)) [
      | inl gone ↦ absurd (let none_found = get_user_by_email-none a w gone in cc)
      | inr (lookup, there) ↦ elim (Option-cases (row_of_user w (string_of "userId" lookup))) [
        | inl gone ↦ absurd (let none_found = get_user_by_email_gone a lookup w there gone in cc)
        | inr (e, user) ↦
            let i : Text = string_of "userId" lookup in
            let found_now : (get_user_by_email a w).0 ≡ ok (some (to_user i e)) =
              ap (λ r. r.0) (get_user_by_email_lem a lookup e w there user) in
            let same : to_user i e ≡ u = some_ok (to_user i e) u (sym found_now ∙ h) in
            let listed = directory.0.stored a i (id_of_row a lookup there) in
            let address : string_of "email" e ≡ a =
              some_text _ _ (sym (email_of_row i e user) ∙ listed) in
            subst (λ v. ((get_user v.id w).0 ≡ ok (some v)) × (v.email ≡ a)) same
              (ap (λ r. r.0) (get_user_lem i e w user), address)
      ]
    ]

    by_id :
        (a : Text) (u : AdapterUser)
        → (get_user u.id w).0 ≡ ok (some u)
        → u.email ≡ a
        → (get_user_by_email a w).0 ≡ ok (some u)
    unfolding to_user
    by_id a u h k = elim (Option-cases (row_of_user w u.id)) [
      | inl gone ↦ absurd (let none_found = get_user-none u.id w gone in cc)
      | inr (e, user) ↦
          let found_now : (get_user u.id w).0 ≡ ok (some (to_user u.id e)) =
            ap (λ r. r.0) (get_user_lem u.id e w user) in
          let same : to_user u.id e ≡ u = some_ok (to_user u.id e) u (sym found_now ∙ h) in
          let address : email_of env w.tables u.id ≡ some a =
            email_of_row u.id e user ∙ ap some (ap (λ v. v.email) same ∙ k) in
          let listed = directory.0.admitted a u.id address in
          elim (Option-cases (row_of_email w a)) [
            | inl gone ↦ absurd (let none_listed = id_of-none a w gone in cc)
            | inr (lookup, there) ↦
                let id : string_of "userId" lookup ≡ u.id =
                  some_text _ _ (sym (id_of_row a lookup there) ∙ listed) in
                ap (λ r. r.0)
                  (get_user_by_email_lem a lookup e w there (ap (row_of_user w) id ∙ user))
                ∙ ap (λ i. ok (some (to_user i e))) id
                ∙ ap (λ v. ok (some v)) same
          ]
    ]

  -- From tables in which users and addresses are in step, after any calls of the adapter by Auth.js: a
  -- user is found under an address exactly if this is the address of the user who is found under the id.
  pub get_user_by_email-run :
      (calls : List Call) (w : World env)
      → IsDirectory env w
      → AreNew env calls w
      → (a : Text) (u : AdapterUser)
      → ((get_user_by_email a (run env calls w)).0 ≡ ok (some u))
        ↔ (((get_user u.id (run env calls w)).0 ≡ ok (some u)) × (u.email ≡ a))
  get_user_by_email-run calls w directory new a u =
      let after = run-IsDirectory env calls w directory new in
      (by_email (run env calls w) after a u, λ h. by_id (run env calls w) after a u h.0 h.1)

  abbrev with_row : Text → Entity → World env → World env
  with_row id row w = record w {
    tables = env.storage.upsert_entity w.tables TableName.users (text "user") id row;
  }

  not_found :
      (id email : Text) (row : Entity) (w : World env)
      → id_of env w.tables email ≡ none
      → (get_user_by_email email (with_row id row w)).0 ≡ ok none
  not_found id email row w unused =
      get_user_by_email-none email (with_row id row w)
        (row_none email (with_row id row w) (id_of-upsert_user env w.tables email id row ∙ unused))

  -- A user of another address whose address is changed through the adapter is returned with the new
  -- address, but is not found under it, if no one was before.
  pub get_user_by_email-update_user :
      (id email : Text) (verified : Option (Option Text)) (e : Entity) (w : World env)
      → env.storage.get_entity w.tables TableName.users (text "user") id ≡ some e
      → id_of env w.tables email ≡ none
      → (u : AdapterUser) × ((update_user id (some email) verified w).0 ≡ ok u)
        × (u.email ≡ email)
        × ((get_user_by_email email (update_user id (some email) verified w).1).0 ≡ ok none)
  unfolding update_user get_entity found upsert_entity to_user changes prop
  get_user_by_email-update_user id email none e w there unused =
      let row : Entity = ("email", str email) ∷ e in
      rw there (to_user id row, refl, refl, not_found id email row w unused)
  get_user_by_email-update_user id email (some v) e w there unused =
      let row : Entity = ("email", str email) ∷ ("emailVerified", str (get_or v [])) ∷ e in
      rw there (to_user id row, refl, refl, not_found id email row w unused)
