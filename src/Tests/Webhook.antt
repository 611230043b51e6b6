-- ===== src/Tests/Webhook.antt =====
-- The webhook at concrete inputs.
use canonizr_hda.Prelude.{
  ℕ, ◌≤◌, if◌then◌else◌, Text, text, text_eq, ◌≡◌, refl, none, some, List, [], ◌∷◌, arith,
}
use canonizr_hda.Storage.Entity.{str, prop}
use canonizr_hda.Storage.Rows.{Row}
use canonizr_hda.World.Actions.{ok, World, list_entities}
use canonizr_hda.Tables.TableName
use canonizr_hda.Tables.GwBilling.{lookup_of, get_user_id_by_stripe_customer_id}
use canonizr_hda.Tables.UserPermissions.Laws.{permissions}
use canonizr_hda.Api.Response.{json, failed}
use canonizr_hda.Api.Webhook.{received, present, post}
use canonizr_hda.Api.Webhook.Laws.{Flagged, post_lem, post_unverified}
use canonizr_hda.Tests.Memory.{memory_env, world_on, subscription}
use Prim.Native.String.{String}
use package.text.Mathlib.Text.{◌==◌ as str_eq}

abbrev with_customer : String → List Row
with_customer t =
    if str_eq t TableName.gw_billing
    then record {
      partition_key = text "billing";
      row_key = text "u1";
      entity = ("stripe_customer_id", str (text "cus_1")) ∷ [];
    }
      ∷ []
    else []

abbrev before : World (memory_env (text "unpaid"))
before = world_on (text "unpaid") with_customer

-- The event says active, the live status is unpaid: the flag is set.
post_lem_example :
    ((post (some (text "sig")) (text "{}") before).0 ≡ ok (json 200 received))
    × Flagged (text "u1") (text "unpaid") before (post (some (text "sig")) (text "{}") before).1
    × (permissions (post (some (text "sig")) (text "{}") before).1 (text "u2")
        ≡ permissions before (text "u2"))
unfolding text text_eq get_user_id_by_stripe_customer_id list_entities lookup_of prop present
post_lem_example =
    post_lem (text "whsec") (text "sig") (text "{}") (text "u1") (text "u2") (some (text "sig"))
      (record {
        type = text "customer.subscription.updated";
        subscription = subscription (text "active");
      })
      (subscription (text "unpaid")) before refl refl refl refl refl refl (omega arith, tt) refl

post_unverified_example :
    ((post none (text "{}") before).1.tables ≡ before.tables)
    × (status : ℕ) × (message : Text) × ((post none (text "{}") before).0
        ≡ ok (failed status (some message)))
    × (400 ≤ status)
post_unverified_example = post_unverified none (text "{}") before (λ sig secret h k. cc)

abbrev signed_in_before : World (memory_env (text "unpaid"))
signed_in_before = record before { setup_complete = text "u1" ∷ [] }
