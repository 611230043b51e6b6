-- ===== src/Tests/View.antt =====
-- The theorems on the components of the browser at concrete inputs, and runs of them.
use canonizr_hda.Prelude.{
  ℕ, zero, suc, Text, text, decimal, ◌≡◌, refl, ap, ◌∙◌, ◌↔◌, true, Option, none, some, List, [],
  ◌∷◌, ◌++◌, map, arith,
}
use canonizr_hda.Prelude.Double.{to_fixed, nearest, quotient, round_even, scale}
use canonizr_hda.Prelude.Decimal.{fixed}
use canonizr_hda.Usage.Print.{format_kb, format_currency, format_currency_lem}
use canonizr_hda.Jobs.Pages.{CanonizeJobPage}
use canonizr_hda.Jobs.Row.{ArtefactEntry, CanonizeJobRow, processing}
use canonizr_hda.View.Fetch.{Settled, Reply, resolved, fulfilled}
use canonizr_hda.View.Quota.{edit, initial, handle_save}
use canonizr_hda.View.Quota.Laws.{IsKept, handle_save-unchanged_iff}
use canonizr_hda.View.JobTable.{starts_with, display_label, with_page, capitalize}
use canonizr_hda.View.CodeBlock.{
  CodeSample, replace_all, escape_html, first_match, end_if, accent, mark, accent_highlight,
  highlighted,
}
use canonizr_hda.View.CodeBlock.Laws.{no_tag, decode, highlighted_lem}
use canonizr_hda.View.JobsPage.{refreshed, loaded, jobs_page, load_more, more_after}
use canonizr_hda.View.JobsPage.Steps.{
  Visit, read_on, ids, Reach, here, next, user_clicks, page_arrives, listed, Behind, nothing, more,
  click, arrive, opened, click_to, is_orderly, crosses,
}
use canonizr_hda.View.JobsPage.Laws.{Shown, Reach-Shown, IsComplete, read_on_ends}

abbrev artefact : Text → ArtefactEntry
artefact name = record {
  name = name;
  mime_type = text "image/png";
  size_bytes = 1;
  label = none;
  source_page = none;
}

abbrev pub job_row : Text → CanonizeJobRow
job_row id = record {
  submission = record {
    id = id;
    key_id = text "k";
    filename = text "a.pdf";
    mime_type = text "application/pdf";
    input_bytes = 150000;
    price_per_unit = none;
    submitted_at = text "2026-01-01";
  };
  state = processing;
}

abbrev a_page : List CanonizeJobRow → Option Text → CanonizeJobPage
a_page jobs cursor = record { jobs = jobs; next_cursor = cursor }

-- Two pages of jobs.
abbrev listing : Option Text → CanonizeJobPage
listing none = a_page (job_row (text "a") ∷ job_row (text "b") ∷ []) (some (text "2"))
listing (some c) = a_page (job_row (text "c") ∷ []) none

format_currency_lem_example :
    format_currency 510 ≡ text "$" ++ (decimal 5 ++ (text "." ++ fixed 2 10))
format_currency_lem_example = format_currency_lem 510 (omega arith)

two_digits : format_kb 1250 ≡ text "1.3 MB"
unfolding text format_kb to_fixed decimal nearest quotient round_even scale fixed
two_digits = refl

handle_save-unchanged_iff_example :
    ((handle_save (edit (initial (some 1500000)))).1 ≡ some 1500000) ↔ IsKept (some 1500000)
handle_save-unchanged_iff_example = handle_save-unchanged_iff (some 1500000)

abbrev manifest : List ArtefactEntry
manifest = artefact (text "page-1") ∷ artefact (text "text") ∷ artefact (text "preview-1") ∷ []

label_of_name : display_label (artefact (text "table-3")) ≡ text "Table 3"
unfolding text display_label with_page capitalize
label_of_name = refl

abbrev second : Settled (Reply CanonizeJobPage)
second = resolved (fulfilled (listing (some (text "2"))))

-- "Load more", and the page that was asked for.
abbrev read_both : Visit
read_both = arrive second (click (opened listing))

both_reached : Reach listing read_both
unfolding click click_to load_more canonizr_hda.View.JobsPage.initial more_after text
both_reached =
    next (next here (user_clicks (opened listing)))
      (page_arrives (click (opened listing)) (text "2") second refl listed)

behind : Behind listing (some (text "2")) (text "c" ∷ [])
unfolding more_after text
behind = more (text "2") [] refl (nothing none refl)

Reach-Shown_example : Shown listing (text "a" ∷ text "b" ∷ text "c" ∷ []) read_both
unfolding both_reached is_orderly crosses
Reach-Shown_example = Reach-Shown listing (text "c" ∷ []) behind {v = read_both} both_reached refl

read_on_ends_example :
    (n : ℕ) × IsComplete listing
      (text "a" ∷ text "b" ∷ text "c" ∷ [])
      (read_on listing n (opened listing))
unfolding is_orderly
read_on_ends_example =
    read_on_ends listing (text "c" ∷ []) behind {v = opened listing} here refl refl

-- A storage of lists of ids: each unit one higher, each id closed by a zero.
abbrev stringify : List Text → Text
stringify [] = []
stringify (id ∷ ids) = map (λ c. suc c) id ++ (0 ∷ stringify ids)

abbrev push : ℕ → List Text → List Text
push c [] = (c ∷ []) ∷ []
push c (id ∷ ids) = (c ∷ id) ∷ ids

abbrev parsed : Text → List Text
parsed [] = []
parsed (zero ∷ s) = [] ∷ parsed s
parsed (suc c ∷ s) = push c (parsed s)

parsed-id : (id : Text) (s : Text) → parsed (map (λ c. suc c) id ++ (0 ∷ s)) ≡ id ∷ parsed s
parsed-id [] s = refl
parsed-id (c ∷ id) s = ap (push c) (parsed-id id s)

parsed-stringify : (ids : List Text) → parsed (stringify ids) ≡ ids
parsed-stringify [] = refl
parsed-stringify (id ∷ ids) = parsed-id id (stringify ids) ∙ ap (λ t. id ∷ t) (parsed-stringify ids)

abbrev parse : Text → Option (List Text)
parse s = some (parsed s)

-- A sample in a language that highlight.js does not know.
abbrev sample : CodeSample
sample = record { language = text "Text"; code = text "a < b && \"KEY\"" }

highlighted_lem_example :
    (no_tag (highlighted (λ name. none) sample []) ≡ true)
    × (decode 0 (highlighted (λ name. none) sample []) ≡ sample.code)
highlighted_lem_example = highlighted_lem (λ name. none) sample refl

-- A term is accented also within a character reference.
accent_run :
    accent_highlight (escape_html (text "a<b")) (text "lt" ∷ [])
    ≡ text "a&<span class=\"hljs-accent\">lt</span>;b"
unfolding accent_highlight escape_html replace_all mark first_match starts_with accent end_if text
accent_run = refl
