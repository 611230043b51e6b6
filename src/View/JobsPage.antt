-- ===== src/View/JobsPage.antt =====
-- The page of jobs, portal/components/pages/jobs-page-content.tsx: the rows that are shown, the cursor
-- behind them, and the handlers. What follows an await is a function of what the request settles to.
use canonizr_hda.Prelude.{
  if◌then◌else◌, any, is_some, Text, text_eq, Bool, true, false, not, ◌||◌, Option, none, some,
  List, [], ◌∷◌, ◌++◌, map,
}
use canonizr_hda.World.Time.{iso_string}
use canonizr_hda.Jobs.Pages.{CanonizeJobPage}
use canonizr_hda.Jobs.Row.{CanonizeJobRow, JobState, processing, available, error, expired}
use canonizr_hda.View.Fetch.{Settled, resolved, rejected, Reply, fulfilled, refused}
pub mod Steps
pub mod Laws

pub record JobsPage : Type 0 where
  pub requests : List CanonizeJobRow
  pub cursor : Option Text
  pub loading_more : Bool

abbrev pub jobs_page : List CanonizeJobRow → Option Text → Bool → JobsPage
jobs_page requests cursor loading = record {
  requests = requests;
  cursor = cursor;
  loading_more = loading;
}

unfoldable pub initial : CanonizeJobPage → JobsPage
initial page = jobs_page page.jobs page.next_cursor false

abbrev pub is_processing : JobState → Bool
is_processing processing = true
is_processing (available completed_at expires_at artefacts) = false
is_processing (error completed_at message) = false
is_processing (expired completed_at expired_at) = false

-- The page refreshes itself.
unfoldable pub has_processing : JobsPage → Bool
has_processing s = any (λ r. is_processing r.state) s.requests

-- `refresh` after its request.
unfoldable pub refreshed : Settled (Reply CanonizeJobPage) → JobsPage → JobsPage
refreshed rejected s = s
refreshed (resolved refused) s = s
refreshed (resolved (fulfilled page)) s = jobs_page page.jobs page.next_cursor s.loading_more

unfoldable pub expire : Text → JobState → JobState
expire now processing = expired now now
expire now (available completed_at expires_at artefacts) = expired completed_at now
expire now (error completed_at message) = expired completed_at now
expire now (expired completed_at expired_at) = expired completed_at now

unfoldable pub expire_row : Text → Text → CanonizeJobRow → CanonizeJobRow
expire_row job now r =
    if text_eq r.submission.id job
    then record { submission = r.submission; state = expire now r.state }
    else r

-- `handleDelete` after its request, at a time.
unfoldable pub deleted : Text → Text → Reply Text → JobsPage → JobsPage
deleted job now refused s = s
deleted job now (fulfilled body) s =
    jobs_page (map (expire_row job now) s.requests) s.cursor s.loading_more

-- A cursor that is null or empty ends the listing.
unfoldable pub more_after : Option Text → Option Text
more_after none = none
more_after (some []) = none
more_after (some (c ∷ cs)) = some (c ∷ cs)

-- `loadMore` until it awaits: the cursor that it asks for.
unfoldable pub load_more : JobsPage → JobsPage × Option Text
load_more s =
    if s.loading_more || not (is_some (more_after s.cursor))
    then (s, none)
    else (jobs_page s.requests s.cursor true, s.cursor)

-- What follows, `finally` included.
unfoldable pub loaded : Settled (Reply CanonizeJobPage) → JobsPage → JobsPage
loaded rejected s = jobs_page s.requests s.cursor false
loaded (resolved refused) s = jobs_page s.requests s.cursor false
loaded (resolved (fulfilled page)) s = jobs_page (s.requests ++ page.jobs) page.next_cursor false
