-- ===== src/Services/TableStore.antt =====
-- `TableBillingStore` of portal/lib/services/billing-table.ts, for local use.
use canonizr_hda.Prelude.{
  ◌*◌, Text, text, text_eq, decimal, Bool, false, ◌&&◌, Option, none, some, List, [], ◌∷◌, ◌++◌,
  map,
}
use canonizr_hda.Prelude.Int.{pos, to_ℕ}
use canonizr_hda.Storage.Entity.{str, Entity, prop, str_or, num_or, str?}
use canonizr_hda.Storage.Rows.{Row}
use canonizr_hda.World.Actions.{
  Env, Action, ◌>>=◌, ◌>>◌, pure, catch, gets, get_entity, upsert_entity, list_entities,
}
use canonizr_hda.Tables.TableName
use canonizr_hda.Services.Billing.{Invoice, Usage, CreatedCustomer, BillingStore}

abbrev pub no_usage : Usage
no_usage = record { total_units = 0; period_start = []; period_end = [] }

abbrev pub usage_of_entity : Entity → Usage
usage_of_entity e = record {
  total_units = to_ℕ (num_or (prop "totalUnits" e) (pos 0));
  period_start = str_or (prop "periodStart" e) [];
  period_end = str_or (prop "periodEnd" e) [];
}

abbrev pub invoice_of_row : Row → Invoice
invoice_of_row row = record {
  id = row.row_key;
  date = str_or (prop "date" row.entity) [];
  processed_kb = to_ℕ (num_or (prop "processedKB" row.entity) (pos 0));
  amount = 100 * to_ℕ (num_or (prop "amount" row.entity) (pos 0));
  status = str_or (prop "status" row.entity) (text "unknown");
  url = str? (prop "url" row.entity);
}

abbrev is_text : Option Text → Text → Bool
is_text none t = false
is_text (some s) t = text_eq s t

-- The filter `PartitionKey eq 'invoice' and customerId eq '…'`.
abbrev pub invoice_of : Text → Row → Bool
invoice_of customer row =
    text_eq (text "invoice") row.partition_key
    && is_text (str? (prop "customerId" row.entity)) customer

module _ {env : Env} where
  unfoldable pub table_get_usage : Text → Action env Usage
  table_get_usage customer =
      catch (do e ← get_entity TableName.billing (text "usage") customer; pure (usage_of_entity e))
        (λ _. pure no_usage)

  unfoldable pub table_get_invoices : Text → Action env (List Invoice)
  table_get_invoices customer = do
    rows ← list_entities TableName.billing (invoice_of customer)
    pure (map invoice_of_row rows)

  unfoldable pub table_create_customer : Text → Action env CreatedCustomer
  table_create_customer email = do
    now ← gets (λ w. w.now)
    let customer = text "cus_local_" ++ decimal now
    let subscription = text "sub_local_" ++ decimal now
    upsert_entity TableName.billing (text "customer") customer
        (("email", str email) ∷ ("subscriptionId", str subscription) ∷ [])
    pure (record { customer_id = customer; subscription_id = subscription; is_returning = false })

  unfoldable pub table_billing_store : BillingStore env
  table_billing_store = record {
    get_usage = table_get_usage;
    get_invoices = table_get_invoices;
    create_customer = table_create_customer;
    create_billing_portal_session = λ customer url. pure url;
  }
