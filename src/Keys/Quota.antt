-- ===== src/Keys/Quota.antt =====
-- A quota that is set and shown again: setQuota and list of portal/lib/services/keys-table.ts.
use canonizr_hda.Prelude.{
  ℕ, zero, suc, ◌+◌, ◌*◌, ◌%◌, ◌≤◌, ◌<◌, Text, text, text_eq_refl, ◌≡◌, refl, ap, ◌∙◌, Option, some,
  ◌++◌, arith,
}
use canonizr_hda.Storage.Entity.{Entity, prop}
use canonizr_hda.Storage.Rows.{Row}
use canonizr_hda.Storage.Reads.{get_entity-upsert_entity}
use canonizr_hda.World.Actions.{ok, Env, World, get_entity, found, upsert_entity, redis_set}
use canonizr_hda.Tables.TableName
use canonizr_hda.Usage.Format.{to_billable_kb, to_billable_kb-kb}
use canonizr_hda.Keys.Store.{quota_of_bytes, quota_entity, quota_of, set_quota, cache_quota}
use canonizr_hda.Prelude.Int.{pos}
use canonizr_hda.Keys.Listing.{key_in}

of_positive : (n : ℕ) → 0 < n → quota_of_bytes (some (pos n)) ≡ some (to_billable_kb n)
of_positive zero p = absurd (omega arith)
of_positive (suc n) p = refl

-- The row of a subscription that is merged with its quota.
quota_of-merged :
    (e : Entity) (kb : ℕ)
    → 0 < kb
    → quota_of (some (quota_entity e (some kb) ++ e)) ≡ some (to_billable_kb (kb * 1000))
unfolding quota_of prop
quota_of-merged e kb p = of_positive (kb * 1000) (omega arith)

module _ {env : Env} where
  abbrev subscription_in : World env → Text → Option Entity
  subscription_in w id =
      env.storage.get_entity w.tables TableName.gw_subscriptions (text "subscription") id

  set_quota-some :
      (id : Text) (kb : ℕ) (e : Entity) (w : World env)
      → subscription_in w id ≡ some e
      → ((set_quota id (some kb) w).0 ≡ ok tt)
        × (subscription_in (set_quota id (some kb) w).1 id ≡ some (quota_entity e (some kb) ++ e))
  unfolding set_quota get_entity found upsert_entity cache_quota redis_set
  set_quota-some id kb e w there =
      let read =
        get_entity-upsert_entity env.storage w.tables TableName.gw_subscriptions
          (text "subscription") id (quota_entity e (some kb)) TableName.gw_subscriptions
          (text "subscription") id in
      rw there (refl, read ∙ rw (text_eq_refl (text "subscription"), text_eq_refl id, there) refl)

  -- Setting a positive quota of a key with a subscription succeeds, and the key is then listed with
  -- the quota rounded up to a multiple of 100 KB.
  pub key_in-set_quota :
      (row : Row) (period : Text) (kb : ℕ) (e : Entity) (w : World env)
      → subscription_in w row.row_key ≡ some e
      → 0 < kb
      → ((set_quota row.row_key (some kb) w).0 ≡ ok tt)
        × (shown : ℕ) × ((key_in (set_quota row.row_key (some kb) w).1 period row).quota_kb
            ≡ some shown)
        × (shown % 100 ≡ 0)
        × (kb ≤ shown)
        × (shown < kb + 100)
  unfolding key_in
  key_in-set_quota row period kb e w there p =
      let (done, stored) = set_quota-some row.row_key kb e w there in
      let (whole, enough, least) = to_billable_kb-kb kb p in
      (
        done,
        to_billable_kb (kb * 1000),
        ap quota_of stored ∙ quota_of-merged e kb p,
        whole,
        enough,
        least,
      )
