-- ===== src/Tests/Auth.antt =====
-- Signing in and signing up at concrete inputs.
use canonizr_hda.Prelude.{
  ◌+◌, ◌≤◌, ◌<◌, Text, text, text_eq, decimal, ◌≡◌, refl, ◌⊎◌, false, none, some, [], ◌∷◌, ◌++◌,
  arith,
}
use canonizr_hda.World.Actions.{ok, err, Fault, World, upsert_entity}
use canonizr_hda.Auth.RateLimit.{get}
use canonizr_hda.Auth.Email.{send_verification_request}
use canonizr_hda.Auth.Email.Laws.{send_verification_request_refused}
use canonizr_hda.Auth.Setup.{on_create_user, ensure_user_setup}
use canonizr_hda.Tables.UserConfig.{get_current_config}
use canonizr_hda.Auth.Setup.{is_blank}
use canonizr_hda.Tables.UserConfig.{UserConfigRecord}
use canonizr_hda.Auth.Setup.Once.{ensure_user_setup_once}
use canonizr_hda.Auth.Setup.Laws.{initial, on_create_user_lem}
use canonizr_hda.Tables.UserPermissions.Laws.{permissions}
use canonizr_hda.Tables.GwBilling.{user, get_user_id_by_stripe_customer_id}
use canonizr_hda.Services.TableStore.{table_billing_store, table_create_customer}
use canonizr_hda.Services.Billing.{CreatedCustomer}
use canonizr_hda.Services.Cache.{cached, fetch_and_store}
use canonizr_hda.Services.Cache.Laws.{cached_lem, kept_until}
use canonizr_hda.Services.AuthAdapter.{
  VerificationToken, create_verification_token, use_verification_token,
}
use canonizr_hda.Services.AuthAdapter.Tokens.{use_verification_token_once}
use canonizr_hda.Tests.Memory.{memory_env, world_on, no_rows}

abbrev start : World (memory_env (text "active"))
start = world_on (text "active") no_rows

abbrev asked_often : World (memory_env (text "active"))
asked_often = record start {
  email_entries = (text "email:a@b.c", record { count = 3; expires_at = 1709210096790 }) ∷ [];
}

send_verification_request_refused_example :
    ((send_verification_request
        (λ to mail w. (ok tt, w))
        (text "a@b.c")
        (text "url")
        none
        asked_often).0
      ≡ err Fault.rate_limit_error)
    × ((send_verification_request
          (λ to mail w. (ok tt, w))
          (text "a@b.c")
          (text "url")
          none
          asked_often).1.outbox
        ≡ [])
    × ((send_verification_request
          (λ to mail w. (ok tt, w))
          (text "a@b.c")
          (text "url")
          none
          asked_often).1.tables
        ≡ no_rows)
unfolding text text_eq get
send_verification_request_refused_example =
    send_verification_request_refused (λ to mail w. (ok tt, w)) (text "a@b.c") (text "url") none
      (record { count = 3; expires_at = 1709210096790 }) asked_often refl (omega arith)
      (omega arith)

abbrev token : VerificationToken
token = record {
  identifier = text "a@b.c";
  token = text "t1";
  expires = text "2024-03-01T00:00:00.000Z";
}

abbrev issued : World (memory_env (text "active"))
issued = (create_verification_token token start).1

use_verification_token_once_example :
    ((use_verification_token (text "a@b.c") (text "t1") issued).0 ≡ ok (some token))
    × ((t : Text)
        → (use_verification_token
            (text "a@b.c")
            t
            (use_verification_token (text "a@b.c") (text "t1") issued).1).0
          ≡ ok none)
    × (use_verification_token (text "a@b.c") (text "t2") issued ≡ (ok none, issued))
unfolding text text_eq create_verification_token upsert_entity
use_verification_token_once_example =
    use_verification_token_once token (text "t2") start issued refl refl

abbrev fresh_customer : CreatedCustomer
fresh_customer = record {
  customer_id = text "cus_local_" ++ decimal 1709210096789;
  subscription_id = text "sub_local_" ++ decimal 1709210096789;
  is_returning = false;
}

abbrev with_customer : World (memory_env (text "active"))
with_customer = (table_create_customer (text "a@b.c") start).1

on_create_user_lem_example :
    ((on_create_user table_billing_store (text "u1") (text "a@b.c") start).0
      ≡ ok fresh_customer.customer_id)
    × (permissions
          (on_create_user table_billing_store (text "u1") (text "a@b.c") start).1
          (text "u1")
        ≡ initial fresh_customer.customer_id 1709210096789)
    × ((get_user_id_by_stripe_customer_id fresh_customer.customer_id
          (on_create_user table_billing_store (text "u1") (text "a@b.c") start).1).0
        ≡ ok (user (text "u1")))
unfolding text text_eq table_billing_store table_create_customer upsert_entity
on_create_user_lem_example =
    on_create_user_lem table_billing_store 117 97 (49 ∷ []) (64 ∷ 98 ∷ 46 ∷ 99 ∷ []) fresh_customer
      start with_customer refl (omega arith, tt) refl

abbrev kept_a_while : World (memory_env (text "active"))
kept_a_while = kept_until (λ t. t) (λ t. t) (text "k") (λ w. (ok (text "v"), w)) start 1709210096790

cached_lem_example :
    ((cached {env = memory_env (text "active")}
        (λ t. t)
        (λ t. t)
        (text "k")
        (λ w. (ok (text "v"), w))
        start).0
      ≡ ok (text "v"))
    × (((1709210096790 < start.now + 300000)
          × (cached (λ t. t) (λ t. t) (text "k") (λ w. (err Fault.not_found, w)) kept_a_while
              ≡ (ok (text "v"), kept_a_while)))
        ⊎ ((start.now + 300000 ≤ 1709210096790)
            × (cached (λ t. t) (λ t. t) (text "k") (λ w. (err Fault.not_found, w)) kept_a_while
                ≡ fetch_and_store
                    (λ t. t)
                    (λ t. t)
                    (text "k")
                    (λ w. (err Fault.not_found, w))
                    kept_a_while)))
unfolding text
cached_lem_example =
    cached_lem (λ t. t) (λ t. t) (text "k") (λ w. (ok (text "v"), w))
      (λ w. (err Fault.not_found, w)) start start (text "v") (λ k now. none) (λ k now. none) 118 []
      1709210096790 refl refl refl refl refl refl

-- The first request of a user who has no settings, and one after a restart.
ensure_user_setup_once_example :
    (v : World (memory_env (text "active"))) × (ensure_user_setup (text "u1") start ≡ (ok tt, v))
    × (config : UserConfigRecord) × (get_current_config (text "u1") v ≡ (ok config, v))
    × (is_blank config.timestamp ≡ false)
    × ((ensure_user_setup (text "u1") (record v { setup_complete = [] })).1.tables ≡ v.tables)
ensure_user_setup_once_example =
    ensure_user_setup_once 50 refl (text "u1") [] start (omega arith, tt) refl
