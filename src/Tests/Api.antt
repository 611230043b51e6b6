-- ===== src/Tests/Api.antt =====
-- Requests at concrete inputs.
use canonizr_hda.Prelude.{
  ℕ, ◌≤◌, ◌<◌, if◌then◌else◌, length, text, text_eq, decimal, decimal_from, ◌≡◌, refl, true, false,
  none, some, List, [], ◌∷◌, map,
}
use canonizr_hda.Storage.Rows.{Row, find_row}
use canonizr_hda.World.Actions.{
  ok, World, Action, pure, list_entities, random_uuid, upsert_entity, for_each, get_entity,
}
use canonizr_hda.View.Forms.{CreateForm, create_form}
use canonizr_hda.Prelude.Int.{pos}
use canonizr_hda.Tables.TableName
use canonizr_hda.Tables.UserConfig.{
  UserConfigRecord, get_current_config, append_config, config_of, get_defaults,
}
use canonizr_hda.Tables.UserPermissions.{permissions_entity, permissions_of}
use canonizr_hda.Tables.UserPermissions.Laws.{permissions}
use canonizr_hda.Auth.Session.{User, user_of, require_user, signed_in}
use canonizr_hda.Auth.Setup.{ensure_user_setup, ensure_from}
use canonizr_hda.Tables.AppendOnly.{get_latest, inverted_timestamp_rk}
use canonizr_hda.Keys.Store.{CreatedKey, create, write_key, billing_anchor}
use canonizr_hda.Keys.Store
use canonizr_hda.Keys.Listing.{keys_in}
use canonizr_hda.Keys.Names.{
  validate_key_name, check_trimmed, trim, trim_start, trim_end, matches_pattern, is_space,
}
use canonizr_hda.Keys.Store.{get_entity?}
use canonizr_hda.Api.Response.{Response}
use canonizr_hda.Api.Jobs.{GatewayRequest, GatewayAnswer, fulfilled, refused, get_artefact}
use canonizr_hda.Api.Jobs.Laws.{get_artefact_ignores}
use canonizr_hda.Api.Route.{done}
use canonizr_hda.Api.Keys.{
  below, QuotaBody, get_key, delete_key, rotate_key, post_quota, create_for, create_named,
  create_within,
}
use canonizr_hda.Api.Keys.Laws.{key_routes_refused, create_for_sound}
use canonizr_hda.Api.Settings.{
  CapBody, SettingsBody, settings_for, UpdateBody, post_update, post_block, post_unblock, get_spend,
  with_paid, with_cap, save,
}
use canonizr_hda.Api.Settings.Laws.{SameLimits, settings_for-SameLimits, admin_routes_refused}
use canonizr_hda.Services.TableStore.{table_billing_store}
use canonizr_hda.Keys.Names.Laws.{IsNewName}
use canonizr_hda.Tests.Memory.{memory_env, world_on, no_rows}
use Prim.Native.String.{String}
use package.text.Mathlib.Text.{◌==◌ as str_eq}

abbrev admin_row : Row
admin_row = record {
  partition_key = text "u1";
  row_key = text "r1";
  entity = permissions_entity (text "2024-01-01T00:00:00.000Z") (record {
    is_admin = true;
    blocked = false;
    delinquent = false;
    stripe_customer_id = text "cus_1";
    changed_by = text "system";
    timestamp = [];
  });
}

abbrev with_admin : String → List Row
with_admin t = if str_eq t TableName.user_permissions then admin_row ∷ [] else []

-- A world in which the user of the session was set up before, is an administrator and has no key.
abbrev start : World (memory_env (text "active"))
start = record (world_on (text "active") with_admin) { setup_complete = text "u1" ∷ [] }

abbrev someone : User
someone = record { user_id = text "u1"; email = text "a@b.c" }

-- The same without the flag.
abbrev outside : World (memory_env (text "active"))
outside = record (world_on (text "active") no_rows) { setup_complete = text "u1" ∷ [] }

abbrev all_the_same : UpdateBody
all_the_same = record {
  free_units = none;
  max_keys = some (pos 5);
  spend_cap_units = none;
  admin_cap_units = none;
  paid_enabled = none;
  comp = none;
}

admin_routes_refused_example :
    (post_update (text "u2") all_the_same outside ≡ (ok (Response.failed 404 none), outside))
    × (post_block (text "u2") outside ≡ (ok (Response.failed 404 none), outside))
    × (post_unblock (text "u2") outside ≡ (ok (Response.failed 404 none), outside))
    × (get_spend table_billing_store (text "cus_1") outside
        ≡ (ok (Response.failed 404 none), outside))
unfolding require_user signed_in user_of ensure_user_setup ensure_from text text_eq permissions
    permissions_of
admin_routes_refused_example =
    admin_routes_refused table_billing_store (text "u2") (text "cus_1") all_the_same someone outside
      outside refl refl

key_routes_refused_example :
    (get_key (text "key-9") start ≡ (ok (Response.failed 404 (some (text "Not found"))), start))
    × (delete_key (text "key-9") start
        ≡ (ok (Response.failed 404 (some (text "Not found"))), start))
    × (rotate_key (text "key-9") start
        ≡ (ok (Response.failed 404 (some (text "Not found"))), start))
    × (post_quota (text "key-9") QuotaBody.no_quota start
        ≡ (ok (Response.failed 404 (some (text "Not found"))), start))
unfolding require_user signed_in user_of ensure_user_setup ensure_from text text_eq keys_in
key_routes_refused_example =
    key_routes_refused (text "key-9") QuotaBody.no_quota someone start start refl refl

abbrev created : CreatedKey
created = record { id = text "key-1709210096789-0f3a-0"; primary_key = text "pk_0f3a1" }

create_for_sound_example :
    (length (trim (text "first")) ≤ 64)
    × (matches_pattern (trim (text "first")) ≡ true)
    × IsNewName
        (trim (text "first"))
        (map (λ k. k.display_name) (keys_in {env = memory_env (text "active")} start (text "u1")))
    × (config : UserConfigRecord) × (u : World (memory_env (text "active"))) × (get_current_config
          (text "u1")
          start
        ≡ (ok config, u))
    × (most : ℕ) × (config.max_keys ≡ pos most)
    × (length (keys_in {env = memory_env (text "active")} start (text "u1")) < most)
    × (create (text "u1") (text "first") u
        ≡ (ok created, (create_for (text "u1") (text "first") start).1))
unfolding text text_eq create_for Store.list for_each list_entities billing_anchor get_entity
    validate_key_name check_trimmed trim trim_start trim_end create_named get_current_config
    get_latest config_of get_defaults below create_within create write_key random_uuid upsert_entity
    decimal decimal_from matches_pattern find_row is_space
create_for_sound_example =
    create_for_sound (text "u1") (text "first") 201 created start
      (create_for (text "u1") (text "first") start).1 refl

abbrev lower_cap : SettingsBody
lower_cap = record { paid_enabled = some true; spend_cap_units = some (CapBody.cap 5) }

settings_for-SameLimits_example :
    (current d : UserConfigRecord) × (u : World (memory_env (text "active"))) × (get_current_config
        (text "u1")
        start
      ≡ (ok current, u))
    × (append_config (text "u1") d u ≡ (ok tt, (settings_for (text "u1") lower_cap start).1))
    × SameLimits d current
unfolding text text_eq settings_for get_current_config get_latest list_entities config_of
    get_defaults with_paid with_cap save append_config inverted_timestamp_rk random_uuid
    upsert_entity
settings_for-SameLimits_example =
    settings_for-SameLimits (text "u1") lower_cap 200 done start
      (settings_for (text "u1") lower_cap start).1 refl

-- A gateway that serves everything, and one that refuses.
abbrev serves : GatewayRequest → Action (memory_env (text "active")) GatewayAnswer
serves r = pure (fulfilled (record { content_type = none; content = r.path }))

abbrev refuses : GatewayRequest → Action (memory_env (text "active")) GatewayAnswer
refuses r = pure (refused 404 none)

get_artefact_ignores_example :
    get_artefact serves (text "j1") (text "../other") start
    ≡ get_artefact refuses (text "j1") (text "../other") start
unfolding text
get_artefact_ignores_example =
    get_artefact_ignores serves refuses (text "j1") (text "../other") start refl

-- The form with a name that a space follows.
abbrev filled_in : CreateForm
filled_in = create_form none (text "first ") false false

abbrev defaults : UserConfigRecord
defaults = record {
  free_units = some (pos 50);
  max_keys = pos 100;
  spend_cap_units = none;
  admin_cap_units = none;
  paid_enabled = false;
  comp = false;
  changed_by = text "system";
  timestamp = [];
}
