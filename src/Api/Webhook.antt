-- ===== src/Api/Webhook.antt =====
-- The Stripe webhook, portal/app/api/stripe/webhook/route.ts: it keeps the payment flag of a user in
-- step with the live status of the subscription.
use canonizr_hda.Prelude.{
  ℕ, zero, suc, ◌+◌, ◌-◌, ◌*◌, ◌/◌, ◌%◌, ◌^◌, ◌≤◌, ◌<◌, min, max, ltb, leb, ◌==◌, if◌then◌else◌,
  ltb→lt, lt→ltb, leb→le, le→leb, ==_iff, Bool-cases, Option-cases, &&-eq-true, length,
  length-append, replicate, take, head?, filter, any, all, find?, get_or, is_some, filter-append,
  All, sum, sum-append, Text, text, text_eq, text_eq_iff, text_eq_refl, text_lt, text_lt_irrefl,
  text_lt_asymm, text_lt-append_left, text_lt-append_right, decimal, decimal_from, pad_start, ◌≡◌,
  refl, sym, ap, ◌∙◌, subst, fun_ext, ◌≢◌, ◌↔◌, ◌⊎◌, inl, inr, Bool, true, false, not, ◌&&◌, ◌||◌,
  Option, none, some, List, [], ◌∷◌, ◌++◌, map, append-nil, append_assoc, arith, tests, to_number,
  to_number_from,
}
use canonizr_hda.World.Stripe.{Subscription, StripeEvent}
use canonizr_hda.World.Actions.{Env, World, Action, ◌>>=◌, ◌>>◌, pure, raise, gets, failure, emit}
use canonizr_hda.Tables.UserPermissions.{set_user_delinquent}
use canonizr_hda.Tables.GwBilling.{
  Reason, not_found, ambiguous, CustomerLookup, user, failed, get_user_id_by_stripe_customer_id,
}
use canonizr_hda.Api.Response
use canonizr_hda.Api.Response.{Response, json}
pub mod Laws

-- The payload `{ received: true }`.
pub data Received : Type 0 where
  received : Received

abbrev reason_event : Reason → Text
reason_event not_found = text "webhook_customer_not_found"
reason_event ambiguous = text "webhook_customer_ambiguous"

-- The flag that a live status asks for; `none` for a status that is not acted on.
unfoldable pub flag_of : Text → Option Bool
flag_of status =
    if text_eq status (text "unpaid")
    then some true
    else if text_eq status (text "active")
    then some false
    else none

-- A header or a setting that is there; the empty text counts as missing.
unfoldable pub present : Option Text → Option Text
present none = none
present (some []) = none
present (some (c ∷ s)) = some (c ∷ s)

module _ {env : Env} where
  abbrev ack : Action env (Response Received)
  ack = pure (json 200 received)

  -- `stripe.subscriptions.retrieve(id)`
  unfoldable pub retrieve : Text → Action env Subscription
  retrieve id w = elim (env.stripe.retrieve w.stripe id) [
    | none ↦ raise (failure (text "StripeError")) w
    | some live ↦ pure live w
  ]

  unfoldable pub set_flag : Text → Option Bool → Action env (Response Received)
  set_flag u none = ack
  set_flag u (some delinquent) = do
    set_user_delinquent u delinquent (text "stripe-webhook")
    emit (text "webhook_delinquency_changed")
    ack

  unfoldable pub on_lookup : Subscription → CustomerLookup → Action env (Response Received)
  on_lookup sub (failed reason count) = do emit (reason_event reason); ack
  on_lookup sub (user u) = do live ← retrieve sub.id; set_flag u (flag_of live.status)

  unfoldable pub on_event : Option StripeEvent → Action env (Response Received)
  on_event none = do
    emit (text "webhook_signature_invalid")
    pure (Response.failed 400 (some (text "Invalid signature")))
  on_event (some event) = elim (text_eq event.type (text "customer.subscription.updated")) [
    | false ↦ ack
    | true ↦
        get_user_id_by_stripe_customer_id event.subscription.customer
        >>= on_lookup event.subscription
  ]

  unfoldable pub post_with : Option Text → Option Text → Text → Action env (Response Received)
  post_with none signature body =
      pure (Response.failed 500 (some (text "Webhook secret not configured")))
  post_with (some secret) none body = pure (Response.failed 400 (some (text "Missing signature")))
  post_with (some secret) (some sig) body = on_event (env.stripe.construct_event body sig secret)

  -- The header of the request that the handler reads, and its raw body.
  unfoldable pub post : Option Text → Text → Action env (Response Received)
  post signature body = post_with (present env.webhook_secret) (present signature) body
