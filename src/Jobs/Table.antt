-- ===== src/Jobs/Table.antt =====
-- The index GwUserJobs, portal/lib/data/tables/jobs.ts, and the trace of a job in GwJobs,
-- portal/lib/data/tables/job-trace.ts. How the storage service cuts a listing into pages is a
-- parameter.
use canonizr_hda.Prelude.{
  ℕ, if◌then◌else◌, take, Text, text, text_eq, text_lt, Bool, not, ◌&&◌, Option, none, some, List,
  [], ◌∷◌, ◌++◌, map, to_number,
}
use canonizr_hda.Prelude.Int.{to_ℕ, is_positive}
use canonizr_hda.Storage.Entity.{Value, str, num, bool, Entity, prop, str_or, str?}
use canonizr_hda.Storage.Rows.{Row, in_partition}
use canonizr_hda.World.Actions.{Env, Action, ◌>>=◌, pure, list_entities}
use canonizr_hda.Tables.TableName
use canonizr_hda.Usage.Format.{to_billable_kb}

pub data Status : Type 0 where
  ok processing error deleted : Status

unfoldable pub parse_status : Option Text → Status
parse_status none = error
parse_status (some raw) =
    if text_eq raw (text "ok")
    then ok
    else if text_eq raw (text "processing")
    then processing
    else if text_eq raw (text "deleted")
    then deleted
    else error

pub record JobRecord : Type 0 where
  pub id : Text
  pub timestamp : Text
  pub completed_at : Option Text
  pub key_id : Text
  pub job_type : Text
  pub billable_kb : ℕ
  pub status : Status
  pub retention_expires : Option Text
  pub detail : Option Text
  pub original_filename : Option Text
  pub mime_type : Option Text
  pub input_bytes : ℕ
  pub artefacts : Option Text
  -- the property before `Number`, where it is set
  pub price_per_unit : Option Value

pub record JobPage : Type 0 where
  pub jobs : List JobRecord
  pub next_cursor : Option Text

-- `x || undefined`
abbrev pub or_undefined : Option Text → Option Text
or_undefined none = none
or_undefined (some []) = none
or_undefined (some (c ∷ s)) = some (c ∷ s)

-- `x ? x : undefined` of a number or a text
abbrev pub if_set : Option Value → Option Value
if_set none = none
if_set (some (str [])) = none
if_set (some (str (c ∷ s))) = some (str (c ∷ s))
if_set (some (num n)) = if is_positive n then some (num n) else none
if_set (some (bool b)) = if b then some (bool b) else none

-- `Number(x ?? 0)` of a number of bytes, which was stored as a number or as its digits.
abbrev pub number_of : Option Value → ℕ
number_of none = 0
number_of (some (str s)) = to_number s
number_of (some (num n)) = to_ℕ n
number_of (some (bool b)) = if b then 1 else 0

unfoldable pub job_of : Entity → JobRecord
job_of e = record {
  id = str_or (prop "job_id" e) [];
  timestamp = str_or (prop "created_at" e) [];
  completed_at = or_undefined (str? (prop "completed_at" e));
  key_id = str_or (prop "key_id" e) [];
  job_type = str_or (prop "job_type" e) [];
  billable_kb = to_billable_kb (number_of (prop "input_bytes" e));
  status = parse_status (str? (prop "status" e));
  retention_expires = or_undefined (str? (prop "retention_expires" e));
  detail = or_undefined (str? (prop "detail" e));
  original_filename = or_undefined (str? (prop "original_filename" e));
  mime_type = or_undefined (str? (prop "mime_type" e));
  input_bytes = number_of (prop "input_bytes" e);
  artefacts = or_undefined (str? (prop "artefacts" e));
  price_per_unit = if_set (prop "price_per_unit" e);
}

-- A page of a listing and the token of the next one.
abbrev pub Pages : Type 0
Pages = List Row → ℕ → Option Text → Option (List Row × Option Text)

abbrev pub page_of : Option (List Row × Option Text) → JobPage
page_of none = record { jobs = []; next_cursor = none }
page_of (some (rows, next)) = record {
  jobs = map (λ row. job_of row.entity) rows;
  next_cursor = next;
}

-- Row keys of the events of a job: from `id_` and below `id_~`.
abbrev pub is_event_of : Text → Row → Bool
is_event_of id row =
    text_eq (text "job_" ++ take 2 id) row.partition_key
    && (not (text_lt row.row_key (id ++ text "_")) && text_lt row.row_key (id ++ text "_~"))

unfoldable pub first_steps : List Row → Option Text
first_steps [] = none
first_steps (row ∷ rows) = elim (or_undefined (str? (prop "steps" row.entity))) [
  | none ↦ first_steps rows
  | some steps ↦ some steps
]

module _ {env : Env} where
  unfoldable pub list_jobs_for_user : Pages → Text → ℕ → Option Text → Action env JobPage
  list_jobs_for_user pages user page_size cursor = do
    rows ← list_entities TableName.gw_user_jobs (in_partition user)
    pure (page_of (pages rows page_size cursor))

  unfoldable pub get_job_trace : Text → Action env (Option Text)
  get_job_trace id = do
    rows ← list_entities TableName.gw_jobs (is_event_of id)
    pure (first_steps rows)
