-- ===== src/Tests/Memory.antt =====
-- Services that meet what is assumed of Azure Table Storage, Redis and Stripe, and a world on them.
use canonizr_hda.Prelude.{
  ℕ, ◌+◌, ◌*◌, ltb, if◌then◌else◌, Text, text, text_eq, decimal, refl, false, Option, none, some,
  List, [], ◌∷◌, ◌++◌,
}
use canonizr_hda.Storage.Rows.{Row, find_row, put_row, drop_row}
use canonizr_hda.Storage.Service.{TableService}
use canonizr_hda.World.Redis.{RedisService}
use canonizr_hda.World.Stripe.{StripeApi, Subscription}
use canonizr_hda.World.Actions.{Env, World}
use Prim.Native.String.{String}
use package.text.Mathlib.Text.{◌==◌ as str_eq}

abbrev pub memory_tables : TableService
memory_tables = record {
  State = String → List Row;
  rows = λ s t. s t;
  get_entity = λ s t p r. find_row p r (s t);
  upsert_entity = λ s t p r e u. if str_eq t u then put_row p r e (s u) else s u;
  delete_entity = λ s t p r u. if str_eq t u then drop_row p r (s u) else s u;
  get_entity-rows = λ s t p r. refl;
  rows-upsert_entity = λ s t p r e u. refl;
  rows-delete_entity = λ s t p r u. refl;
}

abbrev pub memory_redis : RedisService
memory_redis = record {
  State = Text → ℕ → Option Text;
  get = λ s now k. s k now;
  set = λ s k v j now. if text_eq k j then some v else s j now;
  set_ex = λ s at k v ttl j now.
      if text_eq k j then (if ltb now (at + ttl * 1000) then some v else none) else s j now;
  del = λ s k j now. if text_eq k j then none else s j now;
  get-set = λ s k v now j. refl;
  get-set_ex = λ s at k v ttl now j. refl;
  get-del = λ s k now j. refl;
}

-- One subscription, of one customer, with a given status.
abbrev pub subscription : Text → Subscription
subscription status = record {
  id = text "sub_1";
  customer = text "cus_1";
  status = status;
  period_start = none;
  period_end = none;
}

-- The state counts the customers created; every signature but the empty one verifies.
abbrev pub memory_stripe : Text → StripeApi
memory_stripe status = record {
  State = ℕ;
  customers_by_email = λ s email. [];
  create_customer = λ s email. (text "cus_" ++ decimal s, s + 1);
  prices = λ s key. text "price_1" ∷ [];
  create_subscription = λ s customer price. (text "sub_1", s);
  subscriptions = λ s customer. subscription status ∷ [];
  active_subscriptions = λ s customer. subscription status ∷ [];
  retrieve = λ s id. some (subscription status);
  invoices = λ s customer. [];
  meters = λ s. [];
  event_summaries = λ s meter customer start end. [];
  create_portal_session = λ s customer url. (url, s);
  construct_event = λ body signature secret.
      if text_eq signature []
      then none
      else some (record {
        type = text "customer.subscription.updated";
        subscription = subscription (text "active");
      });
}

abbrev pub memory_env : Text → Env
memory_env status = record {
  storage = memory_tables;
  cache = memory_redis;
  stripe = memory_stripe status;
  uuid = λ n. text "0f3a-" ++ decimal n;
  random_hex = decimal;
  sha256_hex = λ s. s;
  locale_date = λ s. s;
  default_free_units = some 50;
  use_local_services = false;
  webhook_secret = some (text "whsec");
  auth_url = none;
}

abbrev pub no_rows : String → List Row
no_rows t = []

-- The world at 2024-02-29T12:34:56.789Z on the given tables, with Redis empty.
abbrev pub world_on : (status : Text) → (String → List Row) → World (memory_env status)
world_on status tables = record {
  tables = tables;
  redis = some (λ k now. none);
  stripe = 1;
  now = 1709210096789;
  drawn = 0;
  session = some (record { id = some (text "u1"); email = some (text "a@b.c") });
  email_entries = [];
  ip_entries = [];
  setup_complete = [];
  outbox = [];
  events = [];
}
