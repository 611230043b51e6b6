-- ===== src/Services/Billing.antt =====
-- `BillingStore` of portal/lib/services/index.ts. The amount of an invoice is kept in hundredths,
-- since Stripe counts in cents and the source divides by 100.
use canonizr_hda.Prelude.{ℕ, Text, Bool, Option, List}
use canonizr_hda.World.Actions.{Env, Action}

pub record Invoice : Type 0 where
  pub id : Text
  pub date : Text
  pub processed_kb : ℕ
  pub amount : ℕ
  pub status : Text
  pub url : Option Text

pub record Usage : Type 0 where
  pub total_units : ℕ
  pub period_start : Text
  pub period_end : Text

pub record CreatedCustomer : Type 0 where
  pub customer_id : Text
  pub subscription_id : Text
  pub is_returning : Bool

pub record BillingStore (env : Env) : Type 0 where
  pub get_usage : Text → Action env Usage
  pub get_invoices : Text → Action env (List Invoice)
  pub create_customer : Text → Action env CreatedCustomer
  pub create_billing_portal_session : Text → Text → Action env Text
