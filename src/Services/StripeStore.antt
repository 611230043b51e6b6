-- ===== src/Services/StripeStore.antt =====
-- `StripeBillingStore` of portal/lib/services/billing-stripe.ts, and the choice of the store in
-- portal/lib/services/index.ts.
use canonizr_hda.Prelude.{
  ℕ, ◌-◌, ◌*◌, ◌/◌, if◌then◌else◌, head?, find?, get_or, sum, Text, text, text_eq, true, false,
  Option, none, some, List, [], ◌++◌, map,
}
use canonizr_hda.World.Time.{iso_string}
use canonizr_hda.World.Stripe.{Subscription, StripeInvoice, Meter}
use canonizr_hda.World.Actions.{ok, Env, Action, ◌>>=◌, pure, raise, failure, gets}
use canonizr_hda.Services.Billing.{Invoice, Usage, CreatedCustomer, BillingStore}
use canonizr_hda.Services.Cache.{cached}
use canonizr_hda.Services.TableStore.{no_usage, table_billing_store}

abbrev pub price_lookup_key : Text
price_lookup_key = text "canonizr_per_100kb"

abbrev pub meter_event_name : Text
meter_event_name = text "conversion_bytes"

-- `inv.lines?.data?.reduce((sum, line) => sum + (line.quantity ?? 0), 0) ?? 0`.
abbrev pub total_quantity : Option (List (Option ℕ)) → ℕ
total_quantity none = 0
total_quantity (some lines) = sum (map (λ line. get_or line 0) lines)

unfoldable pub invoice_of_stripe : StripeInvoice → Invoice
invoice_of_stripe inv = record {
  id = inv.id;
  date = iso_string (get_or inv.created 0 * 1000);
  processed_kb = total_quantity inv.lines * 100;
  amount = get_or inv.amount_paid 0;
  status = get_or inv.status (text "unknown");
  url = inv.hosted_invoice_url;
}

-- `{ totalUnits, periodStart, periodEnd }` of a billing period in seconds.
abbrev pub usage_between : ℕ → ℕ → List ℕ → Usage
usage_between start end values = record {
  total_units = sum values;
  period_start = iso_string (start * 1000);
  period_end = iso_string (end * 1000);
}

abbrev id_of : Option Subscription → Text
id_of none = []
id_of (some sub) = sub.id

module _ {env : Env} where
  unfoldable pub usage_of_meter : Text → ℕ → ℕ → Option Meter → Action env Usage
  usage_of_meter customer start end none =
      raise (failure (text "Stripe meter 'conversion_bytes' not found"))
  usage_of_meter customer start end (some meter) = do
    values ← gets (λ w. env.stripe.event_summaries w.stripe meter.id customer start end)
    pure (usage_between start end values)

  -- Without a period of its own the subscription counts for the last thirty days.
  unfoldable pub usage_of_subscription : Text → Option Subscription → Action env Usage
  usage_of_subscription customer none = pure no_usage
  usage_of_subscription customer (some sub) = do
    now ← gets (λ w. w.now)
    meters ← gets (λ w. env.stripe.meters w.stripe)
    usage_of_meter customer (get_or sub.period_start (now / 1000 - 30 * 86400))
        (get_or sub.period_end (now / 1000))
        (find? (λ m. text_eq m.event_name meter_event_name) meters)

  unfoldable pub fetch_usage : Text → Action env Usage
  fetch_usage customer = do
    subs ← gets (λ w. env.stripe.active_subscriptions w.stripe customer)
    usage_of_subscription customer (head? subs)

  unfoldable pub fetch_invoices : Text → Action env (List Invoice)
  fetch_invoices customer = do
    invoices ← gets (λ w. env.stripe.invoices w.stripe customer)
    pure (map invoice_of_stripe invoices)

  unfoldable pub subscribe : Text → Option Text → Action env CreatedCustomer
  subscribe customer none w = raise (failure (text "Stripe price 'canonizr_per_100kb' not found")) w
  subscribe customer (some price) w =
      let (id, s) = env.stripe.create_subscription w.stripe customer price in
      (
        ok (record { customer_id = customer; subscription_id = id; is_returning = false }),
        record w { stripe = s },
      )

  unfoldable pub new_customer : Text → Action env Text
  new_customer email w =
      let (id, s) = env.stripe.create_customer w.stripe email in (ok id, record w { stripe = s })

  unfoldable pub customer_from : Text → Option Text → Action env CreatedCustomer
  customer_from email (some existing) = do
    subs ← gets (λ w. env.stripe.subscriptions w.stripe existing)
    pure (record {
      customer_id = existing;
      subscription_id = id_of (head? subs);
      is_returning = true;
    })
  customer_from email none = do
    customer ← new_customer email
    prices ← gets (λ w. env.stripe.prices w.stripe price_lookup_key)
    subscribe customer (head? prices)

  unfoldable pub stripe_create_customer : Text → Action env CreatedCustomer
  stripe_create_customer email = do
    existing ← gets (λ w. env.stripe.customers_by_email w.stripe email)
    customer_from email (head? existing)

  unfoldable pub stripe_portal_session : Text → Text → Action env Text
  stripe_portal_session customer url w =
      let (session, s) = env.stripe.create_portal_session w.stripe customer url in
      (ok session, record w { stripe = s })

  module _ (encode_usage : Usage → Text) (decode_usage : Text → Usage)
      (encode_invoices : List Invoice → Text) (decode_invoices : Text → List Invoice) where
    unfoldable pub stripe_get_usage : Text → Action env Usage
    stripe_get_usage customer =
        cached encode_usage decode_usage (text "billing:" ++ (customer ++ text ":usage"))
          (fetch_usage customer)

    unfoldable pub stripe_get_invoices : Text → Action env (List Invoice)
    stripe_get_invoices customer =
        cached encode_invoices decode_invoices (text "billing:" ++ (customer ++ text ":invoices"))
          (fetch_invoices customer)

    unfoldable pub stripe_billing_store : BillingStore env
    stripe_billing_store = record {
      get_usage = stripe_get_usage;
      get_invoices = stripe_get_invoices;
      create_customer = stripe_create_customer;
      create_billing_portal_session = stripe_portal_session;
    }

    -- `getServices().billing`; the key store is the same everywhere.
    unfoldable pub billing_service : BillingStore env
    billing_service = if env.use_local_services then table_billing_store else stripe_billing_store
