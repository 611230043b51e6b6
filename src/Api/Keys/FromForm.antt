-- ===== src/Api/Keys/FromForm.antt =====
-- A key from the form in the browser to the gateway: portal/components/create-key-form.tsx,
-- portal/lib/hooks/use-key-actions.ts, portal/app/api/keys/route.ts and
-- portal/lib/services/keys-table.ts together.
use canonizr_hda.Prelude.{Text, Option, none, some, List, map}
use canonizr_hda.World.Actions.{Outcome, ok, err, Env, World}
use canonizr_hda.Keys.Store.{CreatedKey}
use canonizr_hda.Keys.Listing.{keys_in}
use canonizr_hda.View.Fetch.{Body, name_body}

-- `body.name` of a request.
unfoldable pub name_in : Body → Option Text
name_in (name_body name) = some name
name_in _ = none

-- `o` if it is a result.
value_or : CreatedKey → Outcome CreatedKey → CreatedKey
value_or _ (ok made) = made
value_or made (err _) = made

module _ {env : Env} where
  abbrev pub names_in : World env → Text → List Text
  names_in w user = map (λ k. k.display_name) (keys_in w user)
