-- ===== src/View/Forms/Upload.antt =====
-- The upload of a file to the gateway, portal/components/upload-form.tsx. A file is its name and its
-- size; what the gateway answers and the JSON of the session's storage are parameters.
use canonizr_hda.Prelude.{
  ℕ, ◌+◌, ◌/◌, if◌then◌else◌, take, get_or, is_some, Text, text, text_eq, decimal, Bool, true,
  false, not, ◌&&◌, ◌||◌, Option, none, some, List, [], ◌∷◌, ◌++◌,
}
use canonizr_hda.Usage.Print.{format_kb}

pub data SubmitStatus : Type 0 where
  idle uploading submitting : SubmitStatus

pub record File : Type 0 where
  pub name : Text
  pub size : ℕ

-- The form, with the item of the session's storage.
pub record UploadForm : Type 0 where
  pub api_key : Text
  pub file : Option File
  pub status : SubmitStatus
  pub error : Text
  pub stored : Option Text

-- What the request and the reading of its answer come to: the id of the job, a refusal with its status
-- and detail, or an exception with its message.
pub data Answer : Type 0 where
  accepted : Text → Answer
  refused : ℕ → Option Text → Answer
  thrown : Option Text → Answer

unfoldable pub message_of : ℕ → Option Text → Text
message_of status none = text "Submit failed: " ++ decimal status
message_of status (some detail) = detail

abbrev pub form : Text → Option File → SubmitStatus → Text → Option Text → UploadForm
form api_key file status error stored = record {
  api_key = api_key;
  file = file;
  status = status;
  error = error;
  stored = stored;
}

unfoldable pub handle_file : File → UploadForm → UploadForm
handle_file f s = form s.api_key (some f) s.status [] s.stored

unfoldable pub key_change : Text → UploadForm → UploadForm
key_change key s = form key s.file s.status s.error s.stored

-- `!file || !apiKey` is false.
unfoldable pub is_ready : UploadForm → Bool
is_ready s = is_some s.file && not (text_eq s.api_key [])

abbrev pub is_busy : SubmitStatus → Bool
is_busy idle = false
is_busy uploading = true
is_busy submitting = true

-- The button is disabled.
unfoldable pub is_disabled : UploadForm → Bool
is_disabled s = not (is_ready s) || is_busy s.status

-- `handleSubmit` until it awaits: whether the request is sent.
unfoldable pub handle_submit : UploadForm → UploadForm × Bool
handle_submit s =
    if is_ready s then (form s.api_key s.file submitting [] s.stored, true) else (s, false)

unfoldable pub size_label : File → Text
size_label f = format_kb ((f.size + 1023) / 1024)

module _ (parse : Text → Option (List Text)) (stringify : List Text → Text) where
  unfoldable pub get_session_job_ids : Option Text → List Text
  get_session_job_ids none = get_or (parse (text "[]")) []
  get_session_job_ids (some raw) = get_or (parse raw) []

  unfoldable pub add_session_job_id : Text → Option Text → Option Text
  add_session_job_id job stored = some (stringify (take 100 (job ∷ get_session_job_ids stored)))

  -- What follows the request in `handleSubmit`.
  unfoldable pub answered : Answer → UploadForm → UploadForm
  answered (accepted job) s = form s.api_key none idle s.error (add_session_job_id job s.stored)
  answered (refused status detail) s =
      form s.api_key s.file idle (message_of status detail) s.stored
  answered (thrown none) s = form s.api_key s.file idle (text "Unknown error") s.stored
  answered (thrown (some e)) s = form s.api_key s.file idle e s.stored
