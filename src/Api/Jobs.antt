-- ===== src/Api/Jobs.antt =====
-- The routes of the jobs: portal/app/api/jobs/. The gateway is a parameter: what it answers to a
-- request, which may also throw. The query of a listing is decoded, its page size a whole number.
use canonizr_hda.Prelude.{
  ℕ, min, leb, ◌==◌, get_or, Text, text, Bool, true, false, ◌&&◌, ◌||◌, Option, none, some, List,
  [], ◌∷◌, ◌++◌,
}
use canonizr_hda.World.Actions.{Env, Action, ◌>>=◌, ◌>>◌, pure}
use canonizr_hda.Auth.Session.{require_user}
use canonizr_hda.Jobs.Table.{Pages}
use canonizr_hda.Jobs.Row.{ArtefactEntry}
use canonizr_hda.Jobs.Pages.{CanonizeJobPage, get_jobs_for_user}
use canonizr_hda.Api.Response
use canonizr_hda.Api.Response.{Response, json}
use canonizr_hda.Api.Route.{unauthorized, Done, done, route}
use canonizr_hda.Api.Keys.{get_user_api_key}
pub mod Laws

-- A call of the gateway, with the key that authorizes it.
pub data Method : Type 0 where
  get delete : Method

pub record GatewayRequest : Type 0 where
  pub method : Method
  pub path : Text
  pub api_key : Text

pub record File : Type 0 where
  pub content_type : Option Text
  pub content : Text

-- `res.ok` with a body, or another status with the detail of its body, if that can be read.
pub data GatewayAnswer : Type 0 where
  fulfilled : File → GatewayAnswer
  refused : (status : ℕ) (detail : Option Text) → GatewayAnswer

abbrev pub gateway_request : Method → Text → Text → GatewayRequest
gateway_request method path key = record { method = method; path = path; api_key = key }

unfoldable pub page_size_of : Option ℕ → ℕ
page_size_of none = min 20 100
page_size_of (some n) = min n 100

unfoldable pub deletion_of : GatewayAnswer → Response Done
deletion_of (fulfilled body) = json 204 done
deletion_of (refused status none) = Response.failed status (some (text "Delete failed"))
deletion_of (refused status (some detail)) = Response.failed status (some detail)

-- `[a-z0-9]` and `[a-z0-9-]`
abbrev pub is_lower_alnum : ℕ → Bool
is_lower_alnum c = (leb b'a' c && leb c b'z') || (leb b'0' c && leb c b'9')

abbrev pub is_inner : ℕ → Bool
is_inner c = is_lower_alnum c || (c == b'-')

-- `^([a-z0-9-]*[a-z0-9])?$`
unfoldable pub matches_rest : Text → Bool
matches_rest [] = true
matches_rest (c ∷ []) = is_lower_alnum c
matches_rest (c ∷ d ∷ s) = is_inner c && matches_rest (d ∷ s)

-- `^[a-z0-9]([a-z0-9-]*[a-z0-9])?$`
unfoldable pub is_artefact_name : Text → Bool
is_artefact_name [] = false
is_artefact_name (c ∷ s) = is_lower_alnum c && matches_rest s

abbrev pub job_path : Text → Text
job_path id = text "/v1/canonize/" ++ id

abbrev pub artefact_path : Text → Text → Text
artefact_path id name = job_path id ++ (text "/artefacts/" ++ name)

unfoldable pub download_of : GatewayAnswer → Response File
download_of (fulfilled file) = json 200 (record {
  content_type = some (get_or file.content_type (text "application/octet-stream"));
  content = file.content;
})
download_of (refused status none) = Response.failed status (some (text "Download failed"))
download_of (refused status (some detail)) = Response.failed status (some detail)

module _ {env : Env} where
  module _ (date_ms : Text → Option ℕ) (json_array : Text → Option (List ArtefactEntry))
      (pages : Pages) where
    unfoldable pub get_jobs : Option ℕ → Option Text → Action env (Response CanonizeJobPage)
    get_jobs page_size cursor = route unauthorized (do
      user ← require_user false
      page ← get_jobs_for_user date_ms json_array pages user.user_id (page_size_of page_size) cursor
      pure (json 200 page))

  module _ (gateway : GatewayRequest → Action env GatewayAnswer) where
    unfoldable pub delete_job : Text → Action env (Response Done)
    delete_job id = route unauthorized (do
      user ← require_user false
      key ← get_user_api_key user.user_id
      res ← gateway (gateway_request delete (job_path id) key)
      pure (deletion_of res))

    unfoldable pub fetch_artefact : Text → Text → Text → Bool → Action env (Response File)
    fetch_artefact user id name false =
        pure (Response.failed 400 (some (text "Invalid artefact name")))
    fetch_artefact user id name true = do
      key ← get_user_api_key user
      res ← gateway (gateway_request get (artefact_path id name) key)
      pure (download_of res)

    unfoldable pub get_artefact : Text → Text → Action env (Response File)
    get_artefact id name =
        route unauthorized (do
          user ← require_user false
          fetch_artefact user.user_id id name (is_artefact_name name))
