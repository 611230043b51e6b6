-- ===== src/View/JobsPage/Steps.antt =====
-- The page of jobs as a system: what the user and the answers do to it, one step at a time. The server
-- lists the jobs without change while the page is open; an answer is what the server lists, or a
-- failure. Answers arrive in any order: a refresh may be answered while a further page is on its way.
use canonizr_hda.Prelude.{
  ℕ, zero, suc, is_some, Text, ◌≡◌, Bool, true, false, not, ◌&&◌, Option, none, some, List, [],
  ◌++◌, map,
}
use canonizr_hda.Jobs.Pages.{CanonizeJobPage}
use canonizr_hda.Jobs.Row.{CanonizeJobRow}
use canonizr_hda.View.Fetch.{Settled, resolved, rejected, Reply, fulfilled, refused}
use canonizr_hda.View.JobsPage.{
  JobsPage, initial, refreshed, deleted, more_after, load_more, loaded,
}

-- The page, and the cursor of the page of the listing that is on its way.
pub record Visit : Type 0 where
  pub page : JobsPage
  pub pending : Option Text

abbrev pub ids : List CanonizeJobRow → List Text
ids rows = map (λ r. r.submission.id) rows

unfoldable pub click_to : JobsPage × Option Text → Visit → Visit
click_to (page, none) v = v
click_to (page, some c) v = record { page = page; pending = some c }

unfoldable pub click : Visit → Visit
click v = click_to (load_more v.page) v

unfoldable pub arrive : Settled (Reply CanonizeJobPage) → Visit → Visit
arrive r v = record { page = loaded r v.page; pending = none }

module _ (listing : Option Text → CanonizeJobPage) where
  pub data IsAnswer (c : Option Text) : Settled (Reply CanonizeJobPage) → Type 0 where
    listed : IsAnswer c (resolved (fulfilled (listing c)))
    failed : IsAnswer c (resolved refused)
    lost : IsAnswer c rejected

  pub data Step : Visit → Visit → Type 0 where
    user_clicks : (v : Visit) → Step v (click v)
    page_arrives :
        (v : Visit) (c : Text) (r : Settled (Reply CanonizeJobPage))
        → v.pending ≡ some c
        → IsAnswer (some c) r
        → Step v (arrive r v)
    refresh_arrives :
        (v : Visit) (r : Settled (Reply CanonizeJobPage))
        → IsAnswer none r
        → Step v (record { page = refreshed r v.page; pending = v.pending })
    deletion_arrives :
        (v : Visit) (job now : Text) (r : Reply Text)
        → Step v (record { page = deleted job now r v.page; pending = v.pending })

  abbrev pub opened : Visit
  opened = record { page = initial (listing none); pending = none }

  pub data Reach : Visit → Type 0 where
    here : Reach opened
    next : {v w : Visit} → Reach v → Step v w → Reach w

  -- A step by which a refresh is answered while a further page is on its way.
  unfoldable pub crosses : {v w : Visit} → Step v w → Bool
  crosses (user_clicks v) = false
  crosses (page_arrives v c r p a) = false
  crosses (refresh_arrives v r a) = is_some v.pending
  crosses (deletion_arrives v job now r) = false

  -- No such step was taken.
  unfoldable pub is_orderly : {v : Visit} → Reach v → Bool
  is_orderly here = true
  is_orderly (next reach step) = is_orderly reach && not (crosses step)

  -- The ids of the jobs that the server lists behind a cursor.
  pub data Behind : Option Text → List Text → Type 0 where
    nothing : (c : Option Text) → more_after c ≡ none → Behind c []
    more :
        (c : Text) (rest : List Text)
        → more_after (some c) ≡ some c
        → Behind (listing (some c)).next_cursor rest
        → Behind (some c) (ids (listing (some c)).jobs ++ rest)

  -- The page that was asked for arrives.
  unfoldable pub answer : Option Text → Visit → Visit
  answer none v = v
  answer (some c) v = arrive (resolved (fulfilled (listing (some c)))) v

  -- Clicks that are answered, one after the other.
  unfoldable pub read_on : ℕ → Visit → Visit
  read_on zero v = v
  read_on (suc n) v = read_on n (answer (click v).pending (click v))
