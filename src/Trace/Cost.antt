-- ===== src/Trace/Cost.antt =====
-- What a job costs to run, portal/lib/pure/infra-cost.ts, and the card that shows it,
-- portal/components/trace-cost-card.tsx. Costs are exact, in billionths of a dollar: the source's are
-- doubles in dollars. Durations and counts of tokens are whole.
use canonizr_hda.Prelude.{
  ℕ, ◌+◌, ◌*◌, ◌/◌, ltb, if◌then◌else◌, any, get_or, sum, Text, text, text_eq, decimal, Bool, ◌&&◌,
  ◌||◌, Option, none, some, List, [], ◌∷◌, ◌++◌, map,
}
use canonizr_hda.Trace.{Attributes, SpanNode, span, Spans, leaf, cons, get?, total_duration_ms}
use canonizr_hda.Usage.Print.{format_ms}
use canonizr_hda.Usage.Format.{to_billable_kb}
use canonizr_hda.Usage.Calc.{kb_per_unit}
pub mod Laws

-- VCPU_SECOND_COST, for a millisecond.
abbrev pub vcpu_ms_cost : ℕ
vcpu_ms_cost = 24

unfoldable pub external_service_vcpus : List (Text × ℕ)
external_service_vcpus = (text "docling", 2) ∷ (text "gotenberg", 1) ∷ []

abbrev pub worker_vcpus : ℕ
worker_vcpus = 2

unfoldable pub worker_internal_services : List Text
worker_internal_services =
    text "captioning"
    ∷ text "markitdown"
    ∷ text "passthrough"
    ∷ text "extract_pages"
    ∷ text "libreoffice"
    ∷ text "normalise_image"
    ∷ []

abbrev pub email_cost_per_send : ℕ
email_cost_per_send = 250000

-- The price of a token.
pub record Pricing : Type 0 where
  pub prompt : ℕ
  pub completion : ℕ

abbrev pub pricing : ℕ → ℕ → Pricing
pricing prompt completion = record { prompt = prompt; completion = completion }

abbrev pub nano_pricing : Pricing
nano_pricing = pricing 200 1250

unfoldable pub model_token_pricing : List (Text × Pricing)
model_token_pricing = (text "gpt-5.4-nano", nano_pricing) ∷ (text "gpt-4o", pricing 5000 15000) ∷ []

unfoldable pub default_model : Text
default_model = text "gpt-5.4-nano"

pub record CostLineItem : Type 0 where
  pub service : Text
  pub item : Text
  pub quantity : Text
  pub cost : ℕ

abbrev pub line : Text → Text → Text → ℕ → CostLineItem
line service item quantity cost = record {
  service = service;
  item = item;
  quantity = quantity;
  cost = cost;
}

-- The items and the totals so far.
pub record Tally : Type 0 where
  pub items : List CostLineItem
  pub prompt_tokens : ℕ
  pub completion_tokens : ℕ
  pub retries : ℕ
  pub retry_delay_ms : ℕ

abbrev pub vcpu_label : Text → ℕ → Text
vcpu_label what vcpus = what ++ (text " (" ++ (decimal vcpus ++ text " vCPU)"))

unfoldable pub external_items : Text → ℕ → Option ℕ → List CostLineItem
external_items name ms none = []
external_items name ms (some vcpus) =
    line name (vcpu_label (text "compute") vcpus) (format_ms ms) (ms * vcpus * vcpu_ms_cost)
    ∷ line name (vcpu_label (text "cold start") vcpus) (text "150s amortized")
        (150000 * vcpus * vcpu_ms_cost)
    ∷ []

unfoldable pub has_tokens : Attributes → Bool
has_tokens a = ltb 0 (get_or a.prompt_tokens 0) || ltb 0 (get_or a.completion_tokens 0)

unfoldable pub token_cost : Attributes → ℕ
token_cost a =
    let p = get_or (get? (get_or a.model default_model) model_token_pricing) nano_pricing in
    get_or a.prompt_tokens 0 * p.prompt + get_or a.completion_tokens 0 * p.completion

abbrev pub is_internal : Text → Bool
is_internal name = any (text_eq name) worker_internal_services

unfoldable pub token_items : Text → Attributes → List CostLineItem
token_items name a =
    if has_tokens a && is_internal name
    then line name (get_or a.model default_model ++ text " tokens")
        (decimal (get_or a.prompt_tokens 0)
          ++ (text " + " ++ decimal (get_or a.completion_tokens 0)))
        (token_cost a)
      ∷ []
    else []

-- What `walk` does for one span, before its children.
unfoldable pub visit : Text → ℕ → Attributes → Tally → Tally
visit name ms a t = record {
  items =
      t.items ++ (external_items name ms (get? name external_service_vcpus) ++ token_items name a);
  prompt_tokens = t.prompt_tokens + (if has_tokens a then get_or a.prompt_tokens 0 else 0);
  completion_tokens =
      t.completion_tokens + (if has_tokens a then get_or a.completion_tokens 0 else 0);
  retries = t.retries + get_or a.total_retries 0;
  retry_delay_ms = t.retry_delay_ms + get_or a.total_retry_delay_ms 0;
}

unfoldable mutual
  pub walk : SpanNode → Tally → Tally
  walk (span name offset duration attributes children) t =
      walk_all children (visit name (get_or duration 0) attributes t)

  pub walk_all : Spans → Tally → Tally
  walk_all leaf t = t
  walk_all (cons node nodes) t = walk_all nodes (walk node t)

pub record InfraCostEstimate : Type 0 where
  pub total_cost : ℕ
  pub total_duration_ms : ℕ
  pub items : List CostLineItem
  pub total_prompt_tokens : ℕ
  pub total_completion_tokens : ℕ
  pub total_retries : ℕ
  pub total_retry_delay_ms : ℕ

abbrev pub costs : List CostLineItem → ℕ
costs items = sum (map (λ i. i.cost) items)

unfoldable pub worker_item : ℕ → CostLineItem
worker_item ms =
    line (text "worker") (vcpu_label (text "compute") worker_vcpus) (format_ms ms)
      (ms * worker_vcpus * vcpu_ms_cost)

unfoldable pub email_item : CostLineItem
email_item = line (text "email") (text "authentication send") (text "1") email_cost_per_send

unfoldable pub started : SpanNode → Tally
started root = record {
  items = worker_item (total_duration_ms root) ∷ [];
  prompt_tokens = 0;
  completion_tokens = 0;
  retries = 0;
  retry_delay_ms = 0;
}

unfoldable pub estimate_infra_cost : SpanNode → InfraCostEstimate
estimate_infra_cost root =
    let t = walk root (started root) in
    let items = t.items ++ (email_item ∷ []) in
    record {
      total_cost = costs items;
      total_duration_ms = total_duration_ms root;
      items = items;
      total_prompt_tokens = t.prompt_tokens;
      total_completion_tokens = t.completion_tokens;
      total_retries = t.retries;
      total_retry_delay_ms = t.retry_delay_ms;
    }

unfoldable pub attributes_of : SpanNode → Attributes
attributes_of (span name offset duration attributes children) = attributes

-- The units of the card: a billable size is a multiple of a unit.
unfoldable pub card_units : SpanNode → ℕ
card_units root = to_billable_kb (get_or (attributes_of root).file_size_bytes 0) / kb_per_unit

-- For a price of a unit in billionths of a dollar.
unfoldable pub revenue : SpanNode → ℕ → ℕ
revenue root price_per_unit = card_units root * price_per_unit

-- `margin < 0`
unfoldable pub is_loss : SpanNode → ℕ → Bool
is_loss root price_per_unit =
    ltb 0 (revenue root price_per_unit)
    && ltb (revenue root price_per_unit) (estimate_infra_cost root).total_cost
