-- ===== src/Tables/TableName.antt =====
-- The table names of portal/lib/data/table-interface.ts.
use Prim.Native.String.{String}

abbrev pub users : String
users = "Users"

abbrev pub verification_tokens : String
verification_tokens = "VerificationTokens"

abbrev pub user_config : String
user_config = "UserConfig"

abbrev pub user_permissions : String
user_permissions = "UserPermissions"

abbrev pub api_keys : String
api_keys = "ApiKeys"

abbrev pub billing : String
billing = "Billing"

abbrev pub gw_subscriptions : String
gw_subscriptions = "GwSubscriptions"

abbrev pub gw_encryption_keys : String
gw_encryption_keys = "GwEncryptionKeys"

abbrev pub gw_jobs : String
gw_jobs = "GwJobs"

abbrev pub gw_user_jobs : String
gw_user_jobs = "GwUserJobs"

abbrev pub gw_api_keys : String
gw_api_keys = "GwApiKeys"

abbrev pub gw_billing : String
gw_billing = "GwBilling"
