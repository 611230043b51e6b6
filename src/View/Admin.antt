-- ===== src/View/Admin.antt =====
-- The list of users for administrators in the browser, portal/components/admin-user-search.tsx, and
-- what is said of an account: account-status-banner.tsx, stat-cards.tsx, pages/
-- admin-user-detail-content.tsx, pages/admin-overview-content.tsx and sidebar-nav.tsx. `toLowerCase`
-- is a parameter.
use canonizr_hda.Prelude.{
  zero, suc, ℕ, filter, get_or, Text, text, Bool, true, false, ◌||◌, Option, none, some, List, [],
  ◌∷◌, ◌++◌, if◌then◌else◌, suc, text_eq, decimal, take, length, ◌*◌, ◌+◌, ◌/◌,
}
use canonizr_hda.Prelude.Double.{Double, to_fixed}
use canonizr_hda.Auth.Seed.{includes}
use canonizr_hda.Usage.Print.{format_kb}
use canonizr_hda.Jobs.UserList.{AdminUserRow}
use canonizr_hda.View.Fetch.{Settled, resolved, rejected}

module _ (to_lower_case : Text → Text) where
  unfoldable pub matches : Text → AdminUserRow → Bool
  matches lc u = includes (to_lower_case u.email) lc || includes (to_lower_case u.id) lc

  unfoldable pub filtered : Text → List AdminUserRow → List AdminUserRow
  filtered [] users = users
  filtered (c ∷ query) users = filter (matches (to_lower_case (c ∷ query))) users

pub record Spend : Type 0 where
  pub spend : Option ℕ
  pub loading : Bool

-- `fetchSpend` until its request: whether that is sent.
unfoldable pub fetch_spend : Text → Spend → Spend × Bool
fetch_spend [] s = (record { spend = some 0; loading = s.loading }, false)
fetch_spend (c ∷ customer) s = (record { spend = s.spend; loading = true }, true)

-- What follows: the total of the answer, if that can be read and has one.
unfoldable pub spend_fetched : Settled (Option ℕ) → Spend
spend_fetched rejected = record { spend = some 0; loading = false }
spend_fetched (resolved total) = record { spend = some (get_or total 0); loading = false }

pub data Banner : Type 0 where
  no_banner account_blocked payment_overdue : Banner

unfoldable pub banner_of : (blocked delinquent : Bool) → Banner
banner_of true delinquent = account_blocked
banner_of false true = payment_overdue
banner_of false false = no_banner

unfoldable pub free_label : Option ℕ → ℕ → Text
free_label none total = text "Unlimited"
free_label (some remaining) total = format_kb remaining ++ (text " / " ++ format_kb total)

-- The values of the three cards.
unfoldable pub stat_values : ℕ → Option ℕ → ℕ → Double → List Text
stat_values processed remaining total cost =
    format_kb processed ∷ free_label remaining total ∷ (text "$" ++ to_fixed 2 cost) ∷ []

-- "Status" of a user.
unfoldable pub status_label : (blocked delinquent comp : Bool) → Text
status_label true delinquent comp = text "Blocked"
status_label false true comp = text "Payment overdue"
status_label false false true = text "Comp — never charged"
status_label false false false = text "Active"

-- The share of failed jobs, `Math.round` of an exact quotient.
unfoldable pub error_rate : (errors jobs : ℕ) → Text
error_rate errors zero = text "—"
error_rate errors (suc n) = decimal ((200 * errors + suc n) / (2 * suc n)) ++ text "%"

abbrev pub has_prefix : Text → Text → Bool
has_prefix path prefix = text_eq (take (length prefix) path) prefix

-- A link of the navigation is the current one: of the user's links, and of the administrators'.
unfoldable pub is_active : Text → Text → Bool
is_active pathname href = has_prefix pathname href

unfoldable pub is_active_admin : Text → Text → Bool
is_active_admin pathname href =
    if text_eq href (text "/dashboard/admin")
    then text_eq pathname href
    else text_eq pathname href || has_prefix pathname (href ++ text "/")
