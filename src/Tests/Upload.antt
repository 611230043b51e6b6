-- ===== src/Tests/Upload.antt =====
-- An upload with a key that was just made, and the links of the dashboard, at concrete inputs.
use canonizr_hda.Storage.Rows.{Row}
use canonizr_hda.Prelude.{◌≤◌, length, text, true, none, List, [], ◌∷◌}
use canonizr_hda.World.Actions.{World}
use canonizr_hda.Auth.Session.{User}
use canonizr_hda.Keys.Journal.{Op, creation, run}
use canonizr_hda.Keys.Listing.{key_in, period_in}
use canonizr_hda.Keys.Store.{key_entity}
use canonizr_hda.World.Time.{iso_string}
use canonizr_hda.View.Forms.Upload.{UploadForm, idle}
use canonizr_hda.View.Forms.KeySelector.{KeyOption, key_option}
use canonizr_hda.View.Navigation.{sidebar_current, mobile_current}
use canonizr_hda.View.Navigation.Laws.{sidebar_current_unique}
use canonizr_hda.Tests.Memory.{memory_env, world_on, no_rows}

abbrev ready : World (memory_env (text "active"))
ready = record (world_on (text "active") no_rows) { setup_complete = text "u1" ∷ [] }

abbrev one_key : List Op
one_key = creation (text "u1") (text "first") ∷ []

abbrev with_key : World (memory_env (text "active"))
with_key = run (memory_env (text "active")) one_key ready

abbrev stored_row : Row
stored_row = record {
  partition_key = text "u1";
  row_key = text "key-1709210096789-0f3a-0";
  entity = key_entity (text "first") (text "pk_0f3a1") (iso_string 1709210096789);
}

abbrev first_option : KeyOption
first_option =
    key_option (
      key_in {env = memory_env (text "active")} with_key (period_in with_key (text "u1"))
        stored_row)

abbrev blank : UploadForm
blank = record { api_key = []; file = none; status = idle; error = []; stored = none }

abbrev someone : User
someone = record { user_id = text "u1"; email = text "a@b.c" }

sidebar_current_unique_example :
    (length (sidebar_current true (text "/dashboard/admin/users/u1")) ≤ 1)
    × (length (mobile_current true (text "/dashboard/admin/users/u1")) ≤ 1)
sidebar_current_unique_example = sidebar_current_unique true (text "/dashboard/admin/users/u1")
