-- ===== src/Tests/Tables.antt =====
-- Appended rows at concrete inputs.
use canonizr_hda.Prelude.{ℕ, List, ◌∷◌, text, ◌≡◌, refl, true, false, none, some, [], arith}
use canonizr_hda.Prelude.Int.{pos}
use canonizr_hda.World.Actions.{ok, World}
use canonizr_hda.Tables.UserConfig.{UserConfigRecord, get_current_config, append_config}
use canonizr_hda.Tables.UserConfig.Laws.{stored, get_current_config-append_config}
use canonizr_hda.Tables.UserPermissions.Laws.{permissions}
use canonizr_hda.Tables.UserPermissions.History.{
  InOrder, Change, blocking, flagging, replay, run, permissions-run,
}
use canonizr_hda.Tests.Memory.{memory_env, world_on, no_rows}

abbrev start : World (memory_env (text "unpaid"))
start = world_on (text "unpaid") no_rows

abbrev unlimited : UserConfigRecord
unlimited = record {
  free_units = none;
  max_keys = pos 5;
  spend_cap_units = some (pos 9);
  admin_cap_units = none;
  paid_enabled = true;
  comp = false;
  changed_by = text "admin";
  timestamp = [];
}

get_current_config-append_config_example :
    get_current_config (text "u1") (append_config (text "u1") unlimited start).1
    ≡ (ok (stored 50 unlimited start.now), (append_config (text "u1") unlimited start).1)
get_current_config-append_config_example =
    get_current_config-append_config 50 (text "u1") unlimited start refl (omega arith, tt)

-- Two users are flagged, one is blocked, and the other's flag is cleared.
abbrev flags : List (ℕ × Change)
flags =
    (1709210100000, flagging (text "u1") true (text "stripe-webhook"))
    ∷ (1709210100001, flagging (text "u2") true (text "stripe-webhook"))
    ∷ (1709210100002, blocking (text "u1") true (text "admin"))
    ∷ (1709210200000, flagging (text "u2") false (text "stripe-webhook"))
    ∷ []

permissions-run_example : permissions (run flags start) ≡ replay flags (permissions start)
unfolding InOrder
permissions-run_example =
    permissions-run flags start.now start (λ user. tt)
      (
        omega arith,
        omega arith,
        (omega arith, omega arith, (omega arith, omega arith, (omega arith, omega arith, tt))),
      )
