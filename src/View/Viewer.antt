-- ===== src/View/Viewer.antt =====
-- The viewer of traces, portal/components/job-trace-viewer.tsx. `JSON.parse` is a parameter: the span
-- tree of a text that spells an object with a name.
use canonizr_hda.Prelude.{
  Text, text, text_eq, Bool, true, false, ◌||◌, Option, none, some, [], ◌∷◌, ◌++◌,
}
use canonizr_hda.Trace.{SpanNode}
use canonizr_hda.Keys.Names.{trim}
use canonizr_hda.View.Fetch.{Settled, resolved, rejected}

pub record Viewer : Type 0 where
  pub raw : Text
  pub trace : Option SpanNode
  pub error : Option Text
  pub job_id : Text
  pub loading : Bool

abbrev pub viewer : Text → Option SpanNode → Option Text → Text → Bool → Viewer
viewer raw trace error job_id loading = record {
  raw = raw;
  trace = trace;
  error = error;
  job_id = job_id;
  loading = loading;
}

unfoldable pub invalid_json : Text
invalid_json =
    text "Invalid trace JSON. Expected a span tree with { name, duration_ms, children? }."

unfoldable pub invalid_file : Text
invalid_file = text "Invalid trace JSON in file."

unfoldable pub not_parsed : Text
not_parsed = text "Job trace found but could not be parsed."

unfoldable pub fetch_failed : Text
fetch_failed = text "Failed to fetch trace."

unfoldable pub no_trace : Text → Text
no_trace id = text "No trace found for job " ++ id

module _ (json_span : Text → Option SpanNode) where
  unfoldable pub parse_if : Text → Text → Option SpanNode
  parse_if raw [] = none
  parse_if raw (c ∷ s) = json_span raw

  unfoldable pub try_parse : Text → Option SpanNode
  try_parse raw = parse_if raw (trim raw)

  unfoldable pub initial : Option Text → Viewer
  initial none = viewer [] none none [] false
  initial (some raw) = viewer raw (try_parse raw) none [] false

  -- The trace that was parsed replaces the one that is shown; a failure leaves that and says so.
  unfoldable pub show : Option SpanNode → Text → Viewer → Viewer
  show (some t) message s = viewer s.raw (some t) none s.job_id s.loading
  show none message s = viewer s.raw s.trace (some message) s.job_id s.loading

  unfoldable pub handle_parse : Viewer → Viewer
  handle_parse s = show (try_parse s.raw) invalid_json s

  unfoldable pub handle_file : Text → Viewer → Viewer
  handle_file content s =
      show (try_parse content) invalid_file (viewer content s.trace s.error s.job_id s.loading)

  -- `handleFetchJob` until it awaits: the job that is asked for, if there is one.
  unfoldable pub ask : Text → Viewer → Viewer × Option Text
  ask [] s = (s, none)
  ask (c ∷ id) s = (viewer s.raw s.trace none s.job_id true, some (c ∷ id))

  unfoldable pub handle_fetch_job : Viewer → Viewer × Option Text
  handle_fetch_job s = ask (trim s.job_id) s

  unfoldable pub shown_steps : Option SpanNode → Text → Viewer → Viewer
  shown_steps (some t) steps s = viewer steps (some t) s.error s.job_id false
  shown_steps none steps s = viewer steps s.trace (some not_parsed) s.job_id false

  -- What follows, `finally` included; an empty text counts as none.
  unfoldable pub fetched : Text → Settled (Option Text) → Viewer → Viewer
  fetched id rejected s = viewer s.raw s.trace (some fetch_failed) s.job_id false
  fetched id (resolved none) s = viewer s.raw s.trace (some (no_trace id)) s.job_id false
  fetched id (resolved (some [])) s = viewer s.raw s.trace (some (no_trace id)) s.job_id false
  fetched id (resolved (some (c ∷ steps))) s = shown_steps (try_parse (c ∷ steps)) (c ∷ steps) s

-- The button "Load trace".
unfoldable pub is_disabled : Viewer → Bool
is_disabled s = s.loading || text_eq (trim s.job_id) []
