-- ===== src/Auth/Setup/Laws.antt =====
-- What an account has after it was set up.
use canonizr_hda.Prelude.{
  ℕ, Bool-cases, Option-cases, &&-eq-true, filter, Text, text, text_eq, text_eq_iff, text_eq_refl,
  ◌≡◌, refl, sym, ap, inl, inr, Bool, true, false, some, List, [], ◌∷◌, ◌++◌, map, arith,
}
use canonizr_hda.Prelude.Int.{pos}
use canonizr_hda.Storage.Entity.{str, num, Entity, prop}
use canonizr_hda.Storage.Rows.{Row, has_key, key_before, find_row, insert_row, merge_row, put_row}
use canonizr_hda.World.Time.{utc_date, iso_string}
use canonizr_hda.World.Actions.{ok, Env, World, upsert_entity, list_entities, random_uuid}
use canonizr_hda.Tables.TableName
use canonizr_hda.Tables.AppendOnly.{row_key_at, inverted_timestamp_rk}
use canonizr_hda.Tables.AppendOnly.Laws.{IsHistory}
use canonizr_hda.Tables.UserPermissions.{UserPermissionsRecord, append_permissions}
use canonizr_hda.Tables.UserPermissions.Laws.{permissions, permissions-append_permissions}
use canonizr_hda.Tables.GwBilling.{of_customer, lookup_of, user, get_user_id_by_stripe_customer_id}
use canonizr_hda.Services.Billing.{BillingStore, CreatedCustomer}
use canonizr_hda.Auth.Setup.{set_up_billing, on_create_user}

filter_nil :
    (q : Row → Bool) (x : Row) (xs : List Row)
    → filter q (x ∷ xs) ≡ []
    → (q x ≡ false) × (filter q xs ≡ [])
filter_nil q x xs h = ground arith

-- A row that is written under its key is the only one that a filter takes, if it took none before and
-- takes every row that the write may leave.
module _ (q : Row → Bool) (p r : Text) (e : Entity)
    (fresh : q (record { partition_key = p; row_key = r; entity = e }) ≡ true)
    (kept : (old : Entity)
      → q (record { partition_key = p; row_key = r; entity = e ++ old }) ≡ true) where
  keys-insert_row :
      (xs : List Row)
      → filter q xs ≡ []
      → map (λ row. row.row_key) (filter q (insert_row p r e xs)) ≡ r ∷ []
  unfolding insert_row
  keys-insert_row [] h = rw fresh refl
  keys-insert_row (x ∷ xs) h =
      let (miss, rest) = filter_nil q x xs h in
      let ih = keys-insert_row xs rest in
      elim (Bool-cases (key_before p r x)) [
        | inl first ↦ rw (first, fresh, miss, rest) refl
        | inr later ↦ rw (later, miss) ih
      ]

  keys-merge_row :
      (xs : List Row) (old : Entity)
      → find_row p r xs ≡ some old
      → filter q xs ≡ []
      → map (λ row. row.row_key) (filter q (merge_row p r e xs)) ≡ r ∷ []
  unfolding merge_row find_row
  keys-merge_row [] old f h = cc
  keys-merge_row (x ∷ xs) old f h =
      let (miss, rest) = filter_nil q x xs h in
      elim (Bool-cases (has_key p r x)) [
        | inl hit ↦
            let (hp, hr) = &&-eq-true (text_eq p x.partition_key) (text_eq r x.row_key) hit in
            let same_p : p ≡ x.partition_key = (text_eq_iff p x.partition_key).0 hp in
            let same_r : r ≡ x.row_key = (text_eq_iff r x.row_key).0 hr in
            let taken : q (record {
              partition_key = x.partition_key;
              row_key = x.row_key;
              entity = e ++ x.entity;
            })
                ≡ true =
              rw (← same_p, ← same_r) (kept x.entity) in
            rw (hit, taken, rest) (ap (λ (k : Text). k ∷ []) (sym same_r))
        | inr other ↦ rw (other, miss) (keys-merge_row xs old (rw other at f) rest)
      ]

  keys-put_row :
      (xs : List Row)
      → filter q xs ≡ []
      → map (λ row. row.row_key) (filter q (put_row p r e xs)) ≡ r ∷ []
  unfolding put_row
  keys-put_row xs h = elim (Option-cases (find_row p r xs)) [
    | inl absent ↦ rw absent (keys-insert_row xs h)
    | inr (old, there) ↦ rw there (keys-merge_row xs old there h)
  ]

abbrev billing_row : Text → ℕ → Entity
billing_row customer now =
    ("stripe_customer_id", str customer) ∷ ("billing_anchor_day", num (pos (utc_date now).day)) ∷ []

of_customer_fresh :
    (customer u : Text) (now : ℕ) (old : Entity)
    → of_customer customer (record {
      partition_key = text "billing";
      row_key = u;
      entity = billing_row customer now ++ old;
    })
      ≡ true
unfolding prop
of_customer_fresh customer u now old =
    rw (text_eq_refl (text "billing"), text_eq_refl customer) refl

-- The permissions of a user who has just signed up.
abbrev pub initial : Text → ℕ → UserPermissionsRecord
initial customer now = record {
  is_admin = false;
  blocked = false;
  delinquent = false;
  stripe_customer_id = customer;
  changed_by = text "system";
  timestamp = iso_string now;
}

module _ {env : Env} (c : ℕ) (id : Text) (made : CreatedCustomer) (v : World env) where
  -- The world after GwBilling was written.
  abbrev billed : World env
  billed =
      (upsert_entity TableName.gw_billing (text "billing") (c ∷ id)
        (billing_row made.customer_id v.now) v).1

  set_up_billing_lem :
      set_up_billing (c ∷ id) made v
      ≡ (ok made.customer_id, (append_permissions (c ∷ id) (initial made.customer_id 0) billed).1)
  unfolding set_up_billing upsert_entity append_permissions inverted_timestamp_rk random_uuid
  set_up_billing_lem = refl

  IsHistory-billed :
      IsHistory TableName.user_permissions (c ∷ id) v
      → IsHistory TableName.user_permissions (c ∷ id) billed
  unfolding upsert_entity
  IsHistory-billed k =
      rw
        (env.storage.rows-upsert_entity v.tables TableName.gw_billing (text "billing") (c ∷ id)
          (billing_row made.customer_id v.now) TableName.user_permissions)
        k

  permissions-set_up :
      IsHistory TableName.user_permissions (c ∷ id) v
      → permissions (set_up_billing (c ∷ id) made v).1 (c ∷ id) ≡ initial made.customer_id v.now
  unfolding upsert_entity
  permissions-set_up k = rw set_up_billing_lem (
      permissions-append_permissions (c ∷ id) (initial made.customer_id 0) billed
        (IsHistory-billed k))

  lookup-set_up :
      filter (of_customer made.customer_id) (env.storage.rows v.tables TableName.gw_billing) ≡ []
      → (get_user_id_by_stripe_customer_id made.customer_id (set_up_billing (c ∷ id) made v).1).0
        ≡ ok (user (c ∷ id))
  unfolding set_up_billing upsert_entity append_permissions inverted_timestamp_rk random_uuid
      get_user_id_by_stripe_customer_id list_entities lookup_of
  lookup-set_up f =
      rw
        (
          env.storage.rows-upsert_entity billed.tables TableName.user_permissions (c ∷ id)
              (row_key_at v.now (env.uuid v.drawn)) _ TableName.gw_billing,
          env.storage.rows-upsert_entity v.tables TableName.gw_billing (text "billing") (c ∷ id)
              (billing_row made.customer_id v.now) TableName.gw_billing,
          keys-put_row (of_customer made.customer_id) (text "billing") (c ∷ id)
              (billing_row made.customer_id v.now)
              (of_customer_fresh made.customer_id (c ∷ id) v.now [])
              (of_customer_fresh made.customer_id (c ∷ id) v.now)
              (env.storage.rows v.tables TableName.gw_billing) f,
        )
        refl

module _ {env : Env} where
  -- If the billing store creates a customer that no row of GwBilling names yet, signing up returns the
  -- customer, gives the user the initial permissions with this customer, and makes the customer
  -- resolve to the user.
  pub on_create_user_lem :
      (billing : BillingStore env) (c d : ℕ) (id email : Text) (made : CreatedCustomer)
      (w v : World env)
      → billing.create_customer (d ∷ email) w ≡ (ok made, v)
      → IsHistory TableName.user_permissions (c ∷ id) v
      → filter (of_customer made.customer_id) (env.storage.rows v.tables TableName.gw_billing) ≡ []
      → ((on_create_user billing (c ∷ id) (d ∷ email) w).0 ≡ ok made.customer_id)
        × (permissions (on_create_user billing (c ∷ id) (d ∷ email) w).1 (c ∷ id)
            ≡ initial made.customer_id v.now)
        × ((get_user_id_by_stripe_customer_id made.customer_id
              (on_create_user billing (c ∷ id) (d ∷ email) w).1).0
            ≡ ok (user (c ∷ id)))
  unfolding on_create_user
  on_create_user_lem billing c d id email made w v h k f = rw h (
    ap (λ o. o.0) (set_up_billing_lem c id made v),
    permissions-set_up c id made v k,
    lookup-set_up c id made v f,
  )
