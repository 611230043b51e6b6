-- ===== src/Tables/GwBilling.antt =====
-- The GwBilling table, portal/lib/data/tables/gw-billing.ts: the map from users to Stripe customers.
use canonizr_hda.Prelude.{
  ℕ, length, filter, Text, text, text_eq, Bool, true, false, not, ◌&&◌, Option, none, some, List,
  [], ◌∷◌, map,
}
use canonizr_hda.Storage.Entity.{prop, str?}
use canonizr_hda.Storage.Rows.{Row}
use canonizr_hda.World.Actions.{Env, Action, ◌>>=◌, pure, list_entities}
use canonizr_hda.Tables.TableName

pub data Reason : Type 0 where
  not_found ambiguous : Reason

pub data CustomerLookup : Type 0 where
  user : Text → CustomerLookup
  failed : Reason → ℕ → CustomerLookup

abbrev is_text : Option Text → Text → Bool
is_text none t = false
is_text (some s) t = text_eq s t

-- The filter `PartitionKey eq 'billing' and stripe_customer_id eq '…'`.
abbrev pub of_customer : Text → Row → Bool
of_customer customer row =
    text_eq (text "billing") row.partition_key
    && is_text (str? (prop "stripe_customer_id" row.entity)) customer

abbrev pub is_empty : Text → Bool
is_empty [] = true
is_empty (c ∷ s) = false

unfoldable pub lookup_of : List Text → CustomerLookup
lookup_of [] = failed not_found 0
lookup_of (u ∷ []) = user u
lookup_of (u ∷ v ∷ us) = failed ambiguous (length (u ∷ v ∷ us))

module _ {env : Env} where
  unfoldable pub get_user_id_by_stripe_customer_id : Text → Action env CustomerLookup
  get_user_id_by_stripe_customer_id customer = do
    rows ← list_entities TableName.gw_billing (of_customer customer)
    pure (lookup_of (filter (λ u. not (is_empty u)) (map (λ row. row.row_key) rows)))
