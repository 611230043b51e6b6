-- ===== src/Services/AuthAdapter/Directory/TryDelete.antt =====
-- Deletes whose failure is ignored, `.catch(() => {})` of portal/lib/services/auth-adapter.ts: what they
-- do to the users and the rows by which they are found.
use canonizr_hda.Prelude.{
  if◌then◌else◌, Bool-cases, is_some, Text, text, text_eq, text_eq_iff, ◌≡◌, refl, sym, ap, ◌∙◌,
  inl, inr, false, none,
}
use canonizr_hda.Storage.Reads.{map-is_some}
use canonizr_hda.World.Actions.{Env, World}
use canonizr_hda.Tables.TableName
use canonizr_hda.Keys.Store.{string_of, try_delete}
use canonizr_hda.Keys.Access.{tables-try_delete}
use canonizr_hda.Services.AuthAdapter.Directory.{
  email_of, id_of, id_of-delete_email, email_of-delete_email, users-delete_key,
}

module _ (env : Env) where
  module _ (w : World env) (at : Text) where
    -- A delete whose failure is ignored takes the address from the directory in either case.
    pub id_of-try_delete_email :
        (email : Text)
        → id_of env (try_delete TableName.users (text "email") email w).1.tables at
          ≡ (if text_eq email at then none else id_of env w.tables at)
    id_of-try_delete_email email =
        rw (tables-try_delete env TableName.users (text "email") email w)
          (elim (Bool-cases
            (is_some (env.storage.get_entity w.tables TableName.users (text "email") email))) [
              | inl there ↦ rw there (id_of-delete_email env w.tables at email)
              | inr gone ↦ rw gone (missing gone)
            ])
      where
        missing :
            is_some (env.storage.get_entity w.tables TableName.users (text "email") email) ≡ false
            → id_of env w.tables at ≡ (if text_eq email at then none else id_of env w.tables at)
        missing gone = elim (Bool-cases (text_eq email at)) [
          | inl same ↦ rw same (
              ap (id_of env w.tables) (sym ((text_eq_iff email at).0 same))
              ∙ unfold id_of in map-is_some (string_of "userId") _ gone)
          | inr other ↦ rw other refl
        ]

    pub email_of-try_delete_email :
        (email : Text)
        → email_of env (try_delete TableName.users (text "email") email w).1.tables at
          ≡ email_of env w.tables at
    email_of-try_delete_email email =
        rw (tables-try_delete env TableName.users (text "email") email w)
          (elim (Bool-cases
            (is_some (env.storage.get_entity w.tables TableName.users (text "email") email))) [
              | inl there ↦ rw there (email_of-delete_email env w.tables at email)
              | inr gone ↦ rw gone refl
            ])

    pub users-try_delete_key :
        (r : Text)
        → (id_of env (try_delete TableName.gw_encryption_keys (text "key") r w).1.tables at
            ≡ id_of env w.tables at)
          × (email_of env (try_delete TableName.gw_encryption_keys (text "key") r w).1.tables at
              ≡ email_of env w.tables at)
    users-try_delete_key r =
        rw (tables-try_delete env TableName.gw_encryption_keys (text "key") r w)
          (elim (Bool-cases (
            is_some
              (env.storage.get_entity w.tables TableName.gw_encryption_keys (text "key") r))) [
                | inl there ↦ rw there (users-delete_key env w.tables at r)
                | inr gone ↦ rw gone (refl, refl)
              ])
