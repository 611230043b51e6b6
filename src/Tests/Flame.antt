-- ===== src/Tests/Flame.antt =====
-- The theorems on the flame graph and on costs at a concrete trace.
use canonizr_hda.Prelude.{
  ℕ, ◌+◌, ◌*◌, ◌<◌, length, text, text_eq, text_lt, ◌≡◌, refl, Option, none, some, [], ◌∷◌, arith,
}
use canonizr_hda.Trace.{
  Attributes, SpanNode, span, leaf, cons, FlatSpan, flat, total_duration_ms, collect_services, sort,
  collect, get?, service_colors, add_name, insert,
}
use canonizr_hda.Trace.Cost.{
  estimate_infra_cost, walk, visit, started, worker_item, external_items, external_service_vcpus,
  token_items, has_tokens, worker_internal_services, token_cost, model_token_pricing, default_model,
  email_item,
}
use canonizr_hda.Trace.Cost.Laws.{
  total, cost_figure, prompt_figure, completion_figure, retry_figure, delay_figure,
  estimate_infra_cost_lem,
}
use canonizr_hda.Trace.Flame.{opened, visible_duration, handle_bar_click, Flame}
use canonizr_hda.Trace.Flame.Laws.{bar_clicked, here, next, out, zooming_ends}

abbrev with_tokens : Option ℕ → Option ℕ → Attributes
with_tokens prompt completion = record {
  prompt_tokens = prompt;
  completion_tokens = completion;
  model = none;
  total_retries = some 1;
  total_retry_delay_ms = some 200;
  file_size_bytes = none;
}

-- A document that is converted, with captions.
abbrev trace : SpanNode
trace = span (text "worker") none (some 4000) (with_tokens none none) (
    cons (span (text "docling") (some 100) (some 3000) (with_tokens none none) leaf) (
      cons
        (span (text "captioning") (some 3100) (some 500) (with_tokens (some 1000) (some 100)) leaf)
        leaf))

-- The worker 4 s on two virtual CPUs, docling 153 s on two, the tokens, and an email.
cost : (estimate_infra_cost trace).total_cost ≡ 192000 + 7344000 + 325000 + 250000
unfolding estimate_infra_cost total_duration_ms get? text_eq text walk visit started worker_item
    external_items external_service_vcpus token_items has_tokens worker_internal_services token_cost
    model_token_pricing default_model email_item
cost = refl

services : collect_services trace ≡ text "captioning" ∷ text "docling" ∷ []
unfolding collect_services sort collect get? service_colors text_eq text add_name insert text_lt
services = refl

estimate_infra_cost_lem_example :
    ((estimate_infra_cost trace).total_cost
      ≡ total_duration_ms trace * 48 + total cost_figure trace + 250000)
    × ((estimate_infra_cost trace).total_prompt_tokens ≡ total prompt_figure trace)
    × ((estimate_infra_cost trace).total_completion_tokens ≡ total completion_figure trace)
    × ((estimate_infra_cost trace).total_retries ≡ total retry_figure trace)
    × ((estimate_infra_cost trace).total_retry_delay_ms ≡ total delay_figure trace)
estimate_infra_cost_lem_example = estimate_infra_cost_lem trace

abbrev docling : FlatSpan
docling = flat (text "docling") 1 1 100 3000 (with_tokens none none)

abbrev zoomed : Flame
zoomed = handle_bar_click docling (opened trace)

trace-long : 0 < total_duration_ms trace
unfolding total_duration_ms
trace-long = omega arith

zooming_ends_example :
    (0 < visible_duration zoomed.zoom) × (out (length zoomed.zoom_stack) zoomed ≡ opened trace)
zooming_ends_example =
    zooming_ends trace zoomed trace-long (next here (bar_clicked docling (opened trace)))
