-- ===== src/Api/Keys/Laws.antt =====
-- Who may do what with a key, and when a key is created.
use canonizr_hda.Prelude.{
  ℕ, ◌≤◌, ◌<◌, ltb→lt, length, any, Text, text, ◌≡◌, refl, Bool, true, false, Option, none, some,
  List, map,
}
use canonizr_hda.World.Actions.{ok, Env, World}
use canonizr_hda.Tables.UserConfig.{UserConfigRecord, get_current_config}
use canonizr_hda.Auth.Session.{User, require_user}
use canonizr_hda.Auth.Session.Laws.{>>=-eq-ok}
use canonizr_hda.Keys.Store.{ApiKey, CreatedKey, create}
use canonizr_hda.Keys.Listing.{keys_in, list_lem}
use canonizr_hda.Keys.Names.{trim, matches_pattern}
use canonizr_hda.Keys.Names.Laws.{IsNewName, validate_key_name_iff}
use canonizr_hda.Prelude.Int.{ℤ, pos, negsuc}
use canonizr_hda.Api.Response.{Response, json}
use canonizr_hda.Api.Route.{answer_of, route}
use canonizr_hda.Api.Keys.{
  has_id, below, assert_owned, assert_key_owned, create_within, create_named, create_for, QuotaBody,
  get_key, delete_key, rotate_key, post_quota,
}

below_lt : (n : ℕ) (limit : ℤ) → below n limit ≡ true → (most : ℕ) × (limit ≡ pos most) × (n < most)
unfolding below
below_lt n (pos most) h = (most, refl, ltb→lt n most h)
below_lt n (negsuc m) h = cc

module _ {env : Env} where
  -- If the user of the session has no key of this id, each of the four routes of one key (reading,
  -- deleting, rotating it and setting its quota) answers 404, and nothing is done but what checking the
  -- session did.
  pub key_routes_refused :
      (id : Text) (body : QuotaBody) (user : User) (w v : World env)
      → require_user false w ≡ (ok user, v)
      → any (has_id id) (keys_in v user.user_id) ≡ false
      → (get_key id w ≡ (ok (Response.failed 404 (some (text "Not found"))), v))
        × (delete_key id w ≡ (ok (Response.failed 404 (some (text "Not found"))), v))
        × (rotate_key id w ≡ (ok (Response.failed 404 (some (text "Not found"))), v))
        × (post_quota id body w ≡ (ok (Response.failed 404 (some (text "Not found"))), v))
  unfolding get_key delete_key rotate_key post_quota route assert_key_owned assert_owned answer_of
  key_routes_refused id body user w v h k =
      let listed = list_lem user.user_id v in
      (
        rw (h, listed, k) refl,
        rw (h, listed, k) refl,
        rw (h, listed, k) refl,
        rw (h, listed, k) refl,
      )

  created_within :
      (user name : Text) (room : Bool) (config : UserConfigRecord) (s : ℕ) (made : CreatedKey)
      (w v : World env)
      → create_within user name room config w ≡ (ok (json s made), v)
      → (room ≡ true) × (create user name w ≡ (ok made, v))
  unfolding create_within
  created_within user name false config s made w v h = cc
  created_within user name true config s made w v h =
      let (m, x, first, second) = >>=-eq-ok (create user name w) _ (json s made) v h in (refl, cc)

  created_named :
      (user name : Text) (existing : List ApiKey) (refusal : Option Text) (s : ℕ)
      (made : CreatedKey) (w v : World env)
      → create_named user name existing refusal w ≡ (ok (json s made), v)
      → (refusal ≡ none)
        × (config : UserConfigRecord) × (u : World env) × (get_current_config user w
            ≡ (ok config, u))
        × (below (length existing) config.max_keys ≡ true)
        × (create user name u ≡ (ok made, v))
  unfolding create_named
  created_named user name existing (some e) s made w v h = cc
  created_named user name existing none s made w v h =
      let (config, u, first, second) = >>=-eq-ok (get_current_config user w) _ (json s made) v h in
      let (room, done) = created_within user name _ config s made u v second in
      (refl, config, u, first, room, done)

  -- A key is created only under a name that, trimmed, is within the length, matches the pattern and
  -- differs from the names of the user's keys by more than the case of letters, and only while the
  -- user has fewer keys than the settings in force allow.
  pub create_for_sound :
      (user name : Text) (s : ℕ) (made : CreatedKey) (w v : World env)
      → create_for user name w ≡ (ok (json s made), v)
      → (length (trim name) ≤ 64)
        × (matches_pattern (trim name) ≡ true)
        × IsNewName (trim name) (map (λ k. k.display_name) (keys_in w user))
        × (config : UserConfigRecord) × (u : World env) × (get_current_config user w
            ≡ (ok config, u))
        × (most : ℕ) × (config.max_keys ≡ pos most)
        × (length (keys_in w user) < most)
        × (create user name u ≡ (ok made, v))
  unfolding create_for
  create_for_sound user name s made w v h =
      let (named, config, u, first, room, last) =
        created_named user name (keys_in w user) _ s made w v (rw (list_lem user w) at h) in
      let (short, matched, new) =
        (validate_key_name_iff name (map (λ k. k.display_name) (keys_in w user))).0 named in
      let (most, limit, less) = below_lt (length (keys_in w user)) config.max_keys room in
      (short, matched, new, config, u, first, most, limit, less, last)
