-- ===== src/View/Hooks.antt =====
-- The calls of the portal's own routes from the browser: portal/lib/hooks/use-key-actions.ts and
-- use-billing-settings.ts. What a request settles to is a parameter; the answer to a new key carries
-- its `primaryKey`.
use canonizr_hda.Prelude.{ℕ, Text, text, Bool, true, false, Option, none, some, ◌++◌}
use canonizr_hda.Keys.Names.{trim}
use canonizr_hda.View.Fetch.{
  Request, request, no_body, name_body, quota_body, paid_body, cap_body, Settled, resolved,
  rejected, Reply, fulfilled, refused, Done,
}
pub mod Laws

pub record CreateKeyResult : Type 0 where
  pub key_name : Text
  pub key_value : Text

unfoldable pub create_request : Text → Request
create_request name = request (text "POST") (text "/api/keys") (name_body (trim name))

abbrev pub key_path : Text → Text
key_path id = text "/api/keys/" ++ id

unfoldable pub rotate_request : Text → Request
rotate_request id = request (text "POST") (key_path id ++ text "/rotate") no_body

unfoldable pub remove_request : Text → Request
remove_request id = request (text "DELETE") (key_path id) no_body

unfoldable pub quota_request : Text → Option ℕ → Request
quota_request id quota = request (text "POST") (key_path id ++ text "/quota") (quota_body quota)

unfoldable pub created : Text → Settled (Reply Text) → Done (Option CreateKeyResult)
created name rejected = (rejected, false)
created name (resolved refused) = (resolved none, false)
created name (resolved (fulfilled key)) =
    (resolved (some (record { key_name = trim name; key_value = key })), true)

-- The other calls answer whether the request was fulfilled.
unfoldable pub completed : Settled (Reply Text) → Done Bool
completed rejected = (rejected, false)
completed (resolved refused) = (resolved false, false)
completed (resolved (fulfilled body)) = (resolved true, true)

module _ (fetch : Request → Settled (Reply Text)) where
  unfoldable pub create : Text → Done (Option CreateKeyResult)
  create name = created name (fetch (create_request name))

  unfoldable pub rotate : Text → Done Bool
  rotate id = completed (fetch (rotate_request id))

  unfoldable pub remove : Text → Done Bool
  remove id = completed (fetch (remove_request id))

  unfoldable pub set_quota : Text → Option ℕ → Done Bool
  set_quota id quota = completed (fetch (quota_request id quota))

  unfoldable pub set_paid_enabled : Bool → Done Bool
  set_paid_enabled enabled =
      completed (fetch (request (text "POST") (text "/api/billing/settings") (paid_body enabled)))

  unfoldable pub set_spend_cap : Option ℕ → Done Bool
  set_spend_cap cap =
      completed (fetch (request (text "POST") (text "/api/billing/settings") (cap_body cap)))
