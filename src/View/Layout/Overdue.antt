-- ===== src/View/Layout/Overdue.antt =====
-- A payment that Stripe reports, from portal/app/api/stripe/webhook/route.ts to what
-- portal/app/dashboard/layout.tsx shows to the user.
use canonizr_hda.Prelude.{get_or, Bool, Option}
use canonizr_hda.World.Actions.{World}
use canonizr_hda.Tables.TableName
use canonizr_hda.Tables.UserPermissions.{UserPermissionsRecord}
use canonizr_hda.Jobs.Table.{Pages}
use canonizr_hda.View.Layout.{Flags}

abbrev flags_of : UserPermissionsRecord → Option Bool → Flags
flags_of p flag = record {
  is_admin = p.is_admin;
  blocked = p.blocked;
  delinquent = get_or flag p.delinquent;
}
