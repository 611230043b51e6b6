-- ===== src/World/Stripe.antt =====
-- The Stripe API (`stripe`), as far as the portal calls it. Its state is abstract; nothing is assumed
-- of it but the shape of its answers.
use canonizr_hda.Prelude.{ℕ, Text, Option, List}

pub record Subscription : Type 0 where
  pub id : Text
  pub customer : Text
  pub status : Text
  -- `current_period_start` and `current_period_end` of the first item, in seconds
  pub period_start : Option ℕ
  pub period_end : Option ℕ

pub record StripeInvoice : Type 0 where
  pub id : Text
  pub created : Option ℕ
  -- the quantities of the lines; `none` where there are no lines
  pub lines : Option (List (Option ℕ))
  -- in cents
  pub amount_paid : Option ℕ
  pub status : Option Text
  pub hosted_invoice_url : Option Text

pub record Meter : Type 0 where
  pub id : Text
  pub event_name : Text

pub record StripeEvent : Type 0 where
  pub type : Text
  -- `event.data.object`, read where the type is that of a subscription event
  pub subscription : Subscription

pub record StripeApi : Type 1 where
  pub State : Type 0
  -- `customers.list({ email, limit: 1 })`
  pub customers_by_email : State → Text → List Text
  pub create_customer : State → Text → Text × State
  -- `prices.list({ lookup_keys: [key], limit: 1 })`
  pub prices : State → Text → List Text
  pub create_subscription : State → (customer price : Text) → Text × State
  -- `subscriptions.list({ customer, limit: 1 })`
  pub subscriptions : State → Text → List Subscription
  -- `subscriptions.list({ customer, status: "active", limit: 1 })`
  pub active_subscriptions : State → Text → List Subscription
  -- `subscriptions.retrieve(id)`; `none` where it throws
  pub retrieve : State → Text → Option Subscription
  -- `invoices.list({ customer, limit: 12 })`
  pub invoices : State → Text → List StripeInvoice
  pub meters : State → List Meter
  -- `listEventSummaries(meter, { customer, start_time, end_time })`: the aggregated values
  pub event_summaries : State → (meter customer : Text) → (start_time end_time : ℕ) → List ℕ
  pub create_portal_session : State → (customer return_url : Text) → Text × State
  -- `webhooks.constructEvent(body, signature, secret)`; `none` where it throws
  pub construct_event : (body signature secret : Text) → Option StripeEvent
