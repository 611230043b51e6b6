-- ===== src/Api/Webhook/Laws.antt =====
-- The webhook sets the flag that the live status asks for, and does nothing on what is not verified.
use canonizr_hda.Prelude.{
  ℕ, ◌≤◌, Bool-cases, Option-cases, Text, text, text_eq, text_eq_iff, ◌≡◌, refl, ◌≢◌, ◌⊎◌, inl, inr,
  Bool, true, false, Option, none, some, [], ◌∷◌, arith,
}
use canonizr_hda.World.Time.{iso_string}
use canonizr_hda.World.Stripe.{Subscription, StripeEvent}
use canonizr_hda.World.Actions.{ok, random_uuid, upsert_entity, Env, World, list_entities}
use canonizr_hda.Tables.TableName
use canonizr_hda.Tables.AppendOnly.{inverted_timestamp_rk, get_latest}
use canonizr_hda.Tables.AppendOnly.Laws.{IsHistory}
use canonizr_hda.Tables.UserPermissions.{
  UserPermissionsRecord, set_user_delinquent, get_current_permissions, append_permissions,
}
use canonizr_hda.Tables.UserPermissions.Laws.{permissions, permissions-set_user_delinquent}
use canonizr_hda.Tables.GwBilling.{CustomerLookup, user, get_user_id_by_stripe_customer_id}
use canonizr_hda.Api.Response.{Response, json}
use canonizr_hda.Api.Webhook.{post_with}
use canonizr_hda.Api.Webhook.{
  received, flag_of, present, retrieve, set_flag, on_lookup, on_event, post, post_with,
}

-- The permissions once the webhook has set the payment flag.
abbrev pub flagged : UserPermissionsRecord → ℕ → Bool → UserPermissionsRecord
flagged p now d = record p {
  delinquent = d;
  changed_by = text "stripe-webhook";
  timestamp = iso_string now;
}

text_eq_other : (s t : Text) → text_eq s t ≡ false → s ≢ t
text_eq_other s t h = λ e. let k = (text_eq_iff s t).1 e in absurd (ground arith)

pub flag_of-cases :
    (status : Text)
    → ((status ≡ text "unpaid") × (flag_of status ≡ some true))
      ⊎ (((status ≡ text "active") × (flag_of status ≡ some false))
          ⊎ ((status ≢ text "unpaid") × (status ≢ text "active") × (flag_of status ≡ none)))
unfolding flag_of
flag_of-cases status = elim (Bool-cases (text_eq status (text "unpaid"))) [
  | inl h ↦ inl ((text_eq_iff status (text "unpaid")).0 h, rw h refl)
  | inr h ↦ elim (Bool-cases (text_eq status (text "active"))) [
    | inl k ↦ inr (inl ((text_eq_iff status (text "active")).0 k, rw (h, k) refl))
    | inr k ↦ inr (
        inr (
          text_eq_other status (text "unpaid") h,
          text_eq_other status (text "active") k,
          rw (h, k) refl,
        ))
  ]
]

present-some : (o : Option Text) (s : Text) → present o ≡ some s → o ≡ some s
unfolding present
present-some none s h = cc
present-some (some []) s h = cc
present-some (some (c ∷ t)) s h = h

module _ {env : Env} where
  set_flag-some :
      (u other : Text) (d : Bool) (w : World env)
      → IsHistory TableName.user_permissions u w
      → text_eq other u ≡ false
      → ((set_flag u (some d) w).0 ≡ ok (json 200 received))
        × (permissions (set_flag u (some d) w).1 u ≡ flagged (permissions w u) w.now d)
        × (permissions (set_flag u (some d) w).1 other ≡ permissions w other)
  unfolding set_flag set_user_delinquent get_current_permissions append_permissions
      inverted_timestamp_rk random_uuid upsert_entity get_latest list_entities permissions
  set_flag-some u other d w h k =
      let (this, that) = permissions-set_user_delinquent u (text "stripe-webhook") other d w h k in
      (refl, this, that)

  -- What the flag of one user becomes, from one world to another, by the status at Stripe: unpaid sets
  -- it, active clears it, and any other status leaves the permissions as they are.
  pub data Flagged (u status : Text) (w v : World env) : Type 0 where
    set :
        status ≡ text "unpaid"
        → permissions v u ≡ flagged (permissions w u) w.now true
        → Flagged u status w v
    cleared :
        status ≡ text "active"
        → permissions v u ≡ flagged (permissions w u) w.now false
        → Flagged u status w v
    kept :
        status ≢ text "unpaid"
        → status ≢ text "active"
        → permissions v u ≡ permissions w u
        → Flagged u status w v

  set_flag_lem :
      (u other status : Text) (w : World env)
      → IsHistory TableName.user_permissions u w
      → text_eq other u ≡ false
      → ((set_flag u (flag_of status) w).0 ≡ ok (json 200 received))
        × Flagged u status w (set_flag u (flag_of status) w).1
        × (permissions (set_flag u (flag_of status) w).1 other ≡ permissions w other)
  set_flag_lem u other status w h k = elim (flag_of-cases status) [
    | inl (e, flag) ↦
        let (answer, this, that) = set_flag-some u other true w h k in
        rw flag (answer, set e this, that)
    | inr (inl (e, flag)) ↦
        let (answer, this, that) = set_flag-some u other false w h k in
        rw flag (answer, cleared e this, that)
    | inr (inr (n, m, flag)) ↦ rw flag (unfold set_flag in (refl, kept n m refl, refl))
  ]

  on_lookup_lem :
      (sub live : Subscription) (u : Text) (w : World env)
      → env.stripe.retrieve w.stripe sub.id ≡ some live
      → on_lookup sub (user u) w ≡ set_flag u (flag_of live.status) w
  unfolding on_lookup retrieve
  on_lookup_lem sub live u w h = rw (h, retrieve) refl

  on_event_lem :
      (event : StripeEvent) (found : CustomerLookup) (w : World env)
      → text_eq event.type (text "customer.subscription.updated") ≡ true
      → get_user_id_by_stripe_customer_id event.subscription.customer w ≡ (ok found, w)
      → on_event (some event) w ≡ on_lookup event.subscription found w
  unfolding on_event
  on_event_lem event found w h k = rw (h, on_event) (rw k refl)

  post-on_event :
      (secret sig body : Text) (signature : Option Text) (w : World env)
      → present env.webhook_secret ≡ some secret
      → present signature ≡ some sig
      → post signature body w ≡ on_event (env.stripe.construct_event body sig secret) w
  unfolding post post_with
  post-on_event secret sig body signature w h k = rw (h, k) refl

  -- A verified update of a subscription whose customer is one user's.
  pub post-set_flag :
      (secret sig body u : Text) (signature : Option Text) (event : StripeEvent)
      (live : Subscription) (w : World env)
      → present env.webhook_secret ≡ some secret
      → present signature ≡ some sig
      → env.stripe.construct_event body sig secret ≡ some event
      → event.type ≡ text "customer.subscription.updated"
      → get_user_id_by_stripe_customer_id event.subscription.customer w ≡ (ok (user u), w)
      → env.stripe.retrieve w.stripe event.subscription.id ≡ some live
      → post signature body w ≡ set_flag u (flag_of live.status) w
  post-set_flag secret sig body u signature event live w hs hg he ht hu hl =
      let update = (text_eq_iff event.type (text "customer.subscription.updated")).1 ht in
      rw
        (
          post-on_event secret sig body signature w hs hg,
          he,
          on_event_lem event (user u) w update hu,
          on_lookup_lem event.subscription live u w hl,
        )
        refl

  -- A verified update of a subscription whose customer is one user's, where the secret and the
  -- signature are not empty, is acknowledged, sets the payment flag of this user by the status that Stripe reports now (unpaid sets it, active clears it, any other status
  -- leaves the permissions as they are), whatever the event itself says, and touches no other user.
  pub post_lem :
      (secret sig body u other : Text) (signature : Option Text) (event : StripeEvent)
      (live : Subscription) (w : World env)
      → present env.webhook_secret ≡ some secret
      → present signature ≡ some sig
      → env.stripe.construct_event body sig secret ≡ some event
      → event.type ≡ text "customer.subscription.updated"
      → get_user_id_by_stripe_customer_id event.subscription.customer w ≡ (ok (user u), w)
      → env.stripe.retrieve w.stripe event.subscription.id ≡ some live
      → IsHistory TableName.user_permissions u w
      → text_eq other u ≡ false
      → ((post signature body w).0 ≡ ok (json 200 received))
        × Flagged u live.status w (post signature body w).1
        × (permissions (post signature body w).1 other ≡ permissions w other)
  post_lem secret sig body u other signature event live w hs hg he ht hu hl h k =
      rw (post-set_flag secret sig body u signature event live w hs hg he ht hu hl)
        (set_flag_lem u other live.status w h k)

  -- A request whose signature does not verify is answered with an error and changes no table.
  pub post_unverified :
      (signature : Option Text) (body : Text) (w : World env)
      → ((sig secret : Text)
          → signature ≡ some sig
          → env.webhook_secret ≡ some secret
          → env.stripe.construct_event body sig secret ≡ none)
      → ((post signature body w).1.tables ≡ w.tables)
        × (status : ℕ) × (message : Text) × ((post signature body w).0
            ≡ ok (Response.failed status (some message)))
        × (400 ≤ status)
  unfolding post post_with on_event
  post_unverified signature body w h = elim (Option-cases (present env.webhook_secret)) [
    | inl unset ↦ rw unset (refl, 500, text "Webhook secret not configured", refl, omega arith)
    | inr (secret, configured) ↦ elim (Option-cases (present signature)) [
      | inl missing ↦
          rw (configured, missing) (refl, 400, text "Missing signature", refl, omega arith)
      | inr (sig, given) ↦
          let invalid =
            h sig secret (present-some signature sig given)
              (present-some env.webhook_secret secret configured) in
          rw (configured, given, invalid) (refl, 400, text "Invalid signature", refl, omega arith)
    ]
  ]
