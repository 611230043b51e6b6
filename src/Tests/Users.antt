-- ===== src/Tests/Users.antt =====
-- Users of the adapter at concrete inputs.
use canonizr_hda.Storage.Rows.{find_row, put_row}
use canonizr_hda.Prelude.{
  text, text_eq, text_lt, decimal, ◌≡◌, refl, ◌↔◌, none, some, List, [], ◌∷◌,
}
use canonizr_hda.World.Actions.{ok, World, get_entity, random_uuid, random_key, upsert_entity}
use canonizr_hda.Services.AuthAdapter.{
  user_entity, AdapterUser, get_user, get_user_by_email, update_user, create_user,
}
use canonizr_hda.Services.AuthAdapter.Directory.{email_of, id_of, IsDirectory}
use canonizr_hda.Services.AuthAdapter.Directory.Laws.{
  Call, sign_up, verify, removal, run, step, IsNew, AreNew,
}
use canonizr_hda.Services.AuthAdapter.Directory.Lookup.{
  get_user_by_email-run, get_user_by_email-update_user,
}
use canonizr_hda.World.Time.{iso_string}
use canonizr_hda.Tests.Memory.{memory_env, world_on, no_rows}

abbrev empty : World (memory_env (text "active"))
empty = world_on (text "active") no_rows

empty-IsDirectory : IsDirectory (memory_env (text "active")) empty
unfolding id_of email_of find_row
empty-IsDirectory = (record { stored = λ h b e. cc; admitted = λ h b e. cc }, refl)

-- Two users sign up, the first one's address is verified, the second one is removed.
abbrev calls : List Call
calls =
    sign_up (text "a@b.c") none
    ∷ verify (text "0f3a-0") (some (text "2024-03-01T00:00:00.000Z"))
    ∷ sign_up (text "d@e.f") none
    ∷ removal (text "0f3a-2")
    ∷ []

abbrev first_user : AdapterUser
first_user = record {
  id = text "0f3a-0";
  email = text "a@b.c";
  email_verified = some (text "2024-03-01T00:00:00.000Z");
}

calls-AreNew : AreNew (memory_env (text "active")) calls empty
unfolding AreNew IsNew text_eq text id_of find_row email_of step update_user get_entity create_user
    random_uuid random_key upsert_entity put_row text_lt decimal
calls-AreNew = ((refl, refl, refl), (tt, ((refl, refl, refl), (tt, tt))))

get_user_by_email-run_example :
    ((get_user_by_email (text "a@b.c") (run (memory_env (text "active")) calls empty)).0
      ≡ ok (some first_user))
    ↔ (((get_user (text "0f3a-0") (run (memory_env (text "active")) calls empty)).0
          ≡ ok (some first_user))
        × (text "a@b.c" ≡ text "a@b.c"))
get_user_by_email-run_example =
    get_user_by_email-run calls empty empty-IsDirectory calls-AreNew (text "a@b.c") first_user

abbrev one_user : World (memory_env (text "active"))
one_user = (create_user (text "a@b.c") none empty).1

get_user_by_email-update_user_example :
    (u : AdapterUser) × ((update_user (text "0f3a-0") (some (text "new@b.c")) none one_user).0
      ≡ ok u)
    × (u.email ≡ text "new@b.c")
    × ((get_user_by_email
          (text "new@b.c")
          (update_user (text "0f3a-0") (some (text "new@b.c")) none one_user).1).0
        ≡ ok none)
unfolding find_row create_user random_uuid random_key upsert_entity put_row text_eq text text_lt
    decimal id_of
get_user_by_email-update_user_example =
    get_user_by_email-update_user (text "0f3a-0") (text "new@b.c") none
      (user_entity (text "a@b.c") none (iso_string empty.now)) one_user refl refl
