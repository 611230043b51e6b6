-- ===== src/Tables/Users.antt =====
-- The identity of a user, portal/lib/data/tables/users.ts.
use canonizr_hda.Prelude.{Text, text, Option}
use canonizr_hda.Storage.Entity.{prop, str?}
use canonizr_hda.World.Actions.{Env, Action, ◌>>=◌, pure, get_entity}
use canonizr_hda.Tables.TableName

pub record UserRecord : Type 0 where
  pub id : Text
  pub email : Option Text

module _ {env : Env} where
  unfoldable pub get_user_record : Text → Action env UserRecord
  get_user_record user = do
    e ← get_entity TableName.users (text "user") user
    pure (record { id = user; email = str? (prop "email" e) })
