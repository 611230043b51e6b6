-- ===== src/Api/Keys.antt =====
-- The routes of the keys: portal/app/api/keys/ and portal/lib/api/keys.ts.
use canonizr_hda.Prelude.{
  ℕ, zero, suc, ◌+◌, ◌-◌, ◌*◌, ◌/◌, ◌%◌, ◌^◌, ◌≤◌, ◌<◌, min, max, ltb, leb, ◌==◌, if◌then◌else◌,
  ltb→lt, lt→ltb, leb→le, le→leb, ==_iff, Bool-cases, Option-cases, &&-eq-true, length,
  length-append, replicate, take, head?, filter, any, all, find?, get_or, is_some, filter-append,
  All, sum, sum-append, Text, text, text_eq, text_eq_iff, text_eq_refl, text_lt, text_lt_irrefl,
  text_lt_asymm, text_lt-append_left, text_lt-append_right, decimal, decimal_from, pad_start, ◌≡◌,
  refl, sym, ap, ◌∙◌, subst, fun_ext, ◌≢◌, ◌↔◌, ◌⊎◌, inl, inr, Bool, true, false, not, ◌&&◌, ◌||◌,
  Option, none, some, List, [], ◌∷◌, ◌++◌, map, append-nil, append_assoc, arith, tests, to_number,
  to_number_from,
}
use canonizr_hda.Prelude.Int.{ℤ, pos, negsuc}
use canonizr_hda.Keys.Names.{trim, validate_key_name}
use canonizr_hda.World.Actions.{Env, Action, ◌>>=◌, ◌>>◌, pure, raise, api_error}
use canonizr_hda.Tables.UserConfig.{UserConfigRecord, get_current_config}
use canonizr_hda.Auth.Session.{require_user}
use canonizr_hda.Keys.Store.{ApiKey, CreatedKey}
use canonizr_hda.Keys.Store
use canonizr_hda.Api.Response
use canonizr_hda.Api.Response.{Response, json}
use canonizr_hda.Api.Route.{unauthorized, Done, done, route}
pub mod Laws
pub mod FromForm

abbrev pub has_id : Text → ApiKey → Bool
has_id id key = text_eq key.id id

abbrev pub shown : ℤ → Text
shown (pos n) = decimal n
shown (negsuc n) = text "-" ++ decimal (n + 1)

abbrev pub too_many : ℤ → Text
too_many n = text "Maximum " ++ (shown n ++ text " keys allowed")

-- Not `existing.length >= maxKeys`.
unfoldable pub below : ℕ → ℤ → Bool
below n (pos max) = ltb n max
below n (negsuc max) = false

-- `quotaKB` of a request: a missing or malformed one, null, or a number.
pub data QuotaBody : Type 0 where
  malformed no_quota : QuotaBody
  quota_kb : ℕ → QuotaBody

-- The quota that a body sets; `none` if it is refused.
unfoldable pub quota_in : QuotaBody → Option (Option ℕ)
quota_in QuotaBody.malformed = none
quota_in QuotaBody.no_quota = some none
quota_in (QuotaBody.quota_kb zero) = none
quota_in (QuotaBody.quota_kb (suc n)) = some (some (suc n))

module _ {env : Env} where
  unfoldable pub assert_owned : Bool → Action env Unit
  assert_owned true = pure tt
  assert_owned false = raise (api_error 404 (text "Not found"))

  unfoldable pub assert_key_owned : Text → Text → Action env Unit
  assert_key_owned user id = do keys ← Store.list user; assert_owned (any (has_id id) keys)

  unfoldable pub first_api_key : List ApiKey → Action env Text
  first_api_key [] = raise (api_error 400 (text "No API key available"))
  first_api_key (k ∷ ks) = Store.get k.id

  unfoldable pub get_user_api_key : Text → Action env Text
  get_user_api_key user = do keys ← Store.list user; first_api_key keys

  unfoldable pub get_keys : Action env (Response (List ApiKey))
  get_keys =
      route unauthorized
        (do user ← require_user false; keys ← Store.list user.user_id; pure (json 200 keys))

  unfoldable pub create_within :
      Text → Text → Bool → UserConfigRecord → Action env (Response CreatedKey)
  create_within user name false config =
      pure (Response.failed 403 (some (too_many config.max_keys)))
  create_within user name true config = do made ← Store.create user name; pure (json 201 made)

  unfoldable pub create_named :
      Text → Text → List ApiKey → Option Text → Action env (Response CreatedKey)
  create_named user name existing (some e) = pure (Response.failed 400 (some e))
  create_named user name existing none = do
    config ← get_current_config user
    create_within user name (below (length existing) config.max_keys) config

  unfoldable pub create_for : Text → Text → Action env (Response CreatedKey)
  create_for user name = do
    existing ← Store.list user
    create_named user name existing (validate_key_name name (map (λ k. k.display_name) existing))

  -- `name` of the body; a missing one is empty.
  unfoldable pub post_key : Option Text → Action env (Response CreatedKey)
  post_key name =
      route unauthorized
        (do user ← require_user false; create_for user.user_id (trim (get_or name [])))

  unfoldable pub get_key : Text → Action env (Response Text)
  get_key id = route unauthorized (do
    user ← require_user false
    assert_key_owned user.user_id id
    key ← Store.get id
    pure (json 200 key))

  unfoldable pub delete_key : Text → Action env (Response Done)
  delete_key id = route unauthorized (do
    user ← require_user false
    assert_key_owned user.user_id id
    Store.delete id
    pure (json 200 done))

  unfoldable pub rotate_key : Text → Action env (Response Text)
  rotate_key id = route unauthorized (do
    user ← require_user false
    assert_key_owned user.user_id id
    key ← Store.rotate id
    pure (json 200 key))

  unfoldable pub set_quota_in : Text → Option (Option ℕ) → Action env (Response Done)
  set_quota_in id none =
      pure (Response.failed 400 (some (text "quotaKB must be a positive number or null")))
  set_quota_in id (some quota) = do Store.set_quota id quota; pure (json 200 done)

  unfoldable pub post_quota : Text → QuotaBody → Action env (Response Done)
  post_quota id body = route unauthorized (do
    user ← require_user false
    assert_key_owned user.user_id id
    set_quota_in id (quota_in body))
