-- ===== src/Trace/Cost/Laws.antt =====
-- The total of the estimate, by the spans.
use canonizr_hda.Prelude.{
  ℕ, ◌+◌, ◌*◌, if◌then◌else◌, Bool-cases, get_or, Text, ◌≡◌, refl, inl, inr, false, Option, none,
  some, List, [], ◌∷◌, ◌++◌, arith,
}
use canonizr_hda.Trace.{Attributes, SpanNode, span, Spans, leaf, cons, get?, total_duration_ms}
use canonizr_hda.Trace.Cost.{
  CostLineItem, Tally, external_service_vcpus, external_items, has_tokens, token_cost, is_internal,
  token_items, visit, walk, walk_all, costs, started, worker_item, email_item, estimate_infra_cost,
}

-- A figure of every span, summed over the tree.
abbrev Figure : Type 0
Figure = Text → ℕ → Attributes → ℕ

mutual
  pub total : Figure → SpanNode → ℕ
  total f (span name offset duration attributes children) =
      f name (get_or duration 0) attributes + total_all f children

  pub total_all : Figure → Spans → ℕ
  total_all f leaf = 0
  total_all f (cons node nodes) = total f node + total_all f nodes

-- A container of its own is paid for the span and for 150 seconds.
pub container_of : ℕ → Option ℕ → ℕ
container_of ms none = 0
container_of ms (some vcpus) = (ms + 150000) * vcpus * 24

pub container_cost : Figure
container_cost name ms a = container_of ms (get? name external_service_vcpus)

-- Tokens are paid for where a service of the worker used them.
pub tokens_cost : Figure
tokens_cost name ms a = if is_internal name then token_cost a else 0

-- What is added to each of the totals between two tallies.
Counted : Tally → ℕ → ℕ → ℕ → ℕ → ℕ → Tally → Type 0
Counted t cost prompt completion retries delay u =
    (costs u.items ≡ costs t.items + cost)
    × (u.prompt_tokens ≡ t.prompt_tokens + prompt)
    × (u.completion_tokens ≡ t.completion_tokens + completion)
    × (u.retries ≡ t.retries + retries)
    × (u.retry_delay_ms ≡ t.retry_delay_ms + delay)

costs-append : (xs ys : List CostLineItem) → costs (xs ++ ys) ≡ costs xs + costs ys
costs-append [] ys = omega arith
costs-append (x ∷ xs) ys = omega (arith, costs-append xs ys)

costs-external_items :
    (name : Text) (ms : ℕ) (vcpus : Option ℕ)
    → costs (external_items name ms vcpus) ≡ container_of ms vcpus
unfolding container_of external_items
costs-external_items name ms none = refl
costs-external_items name ms (some v) = omega arith

no_tokens :
    (a : Attributes)
    → has_tokens a ≡ false
    → (get_or a.prompt_tokens 0 ≡ 0) × (get_or a.completion_tokens 0 ≡ 0)
unfolding has_tokens
no_tokens a h = ground arith

token_cost-none : (a : Attributes) → has_tokens a ≡ false → token_cost a ≡ 0
unfolding token_cost
token_cost-none a h = let (p, c) = no_tokens a h in rw (p, c) (omega arith)

costs-token_items :
    (name : Text) (ms : ℕ) (a : Attributes) → costs (token_items name a) ≡ tokens_cost name ms a
unfolding tokens_cost token_items
costs-token_items name ms a = elim (Bool-cases (has_tokens a)) [
  | inr h ↦ rw (h, token_cost-none a h) (ground arith)
  | inl h ↦ elim (Bool-cases (is_internal name)) [
    | inl k ↦ rw (h, k) (omega arith)
    | inr k ↦ rw (h, k) refl
  ]
]

counted_if :
    (a : Attributes)
    → ((if has_tokens a then get_or a.prompt_tokens 0 else 0) ≡ get_or a.prompt_tokens 0)
      × ((if has_tokens a then get_or a.completion_tokens 0 else 0) ≡ get_or a.completion_tokens 0)
counted_if a = elim (Bool-cases (has_tokens a)) [
  | inl h ↦ rw h (refl, refl)
  | inr h ↦ let (p, c) = no_tokens a h in rw (h, p, c) (refl, refl)
]

visit-Counted :
    (name : Text) (ms : ℕ) (a : Attributes) (t : Tally)
    → Counted t
        (container_cost name ms a + tokens_cost name ms a)
        (get_or a.prompt_tokens 0)
        (get_or a.completion_tokens 0)
        (get_or a.total_retries 0)
        (get_or a.total_retry_delay_ms 0)
        (visit name ms a t)
unfolding Counted visit container_cost
visit-Counted name ms a t =
    let vcpus = get? name external_service_vcpus in
    let (p, c) = counted_if a in
    (
      rw
          (
            costs-append t.items (external_items name ms vcpus ++ token_items name a),
            costs-append (external_items name ms vcpus) (token_items name a),
            costs-external_items name ms vcpus,
            costs-token_items name ms a,
          )
          refl,
      rw p refl,
      rw c refl,
      refl,
      refl,
    )

-- The figures of a span.
pub cost_figure : Figure
cost_figure name ms a = container_cost name ms a + tokens_cost name ms a

pub prompt_figure : Figure
prompt_figure name ms a = get_or a.prompt_tokens 0

pub completion_figure : Figure
completion_figure name ms a = get_or a.completion_tokens 0

pub retry_figure : Figure
retry_figure name ms a = get_or a.total_retries 0

pub delay_figure : Figure
delay_figure name ms a = get_or a.total_retry_delay_ms 0

Counted-nil : (t : Tally) → Counted t 0 0 0 0 0 t
unfolding Counted
Counted-nil t = (omega arith, omega arith, omega arith, omega arith, omega arith)

Counted-trans :
    (t u v : Tally) (a b c d e a' b' c' d' e' : ℕ)
    → Counted t a b c d e u
    → Counted u a' b' c' d' e' v
    → Counted t (a + a') (b + b') (c + c') (d + d') (e + e') v
unfolding Counted
Counted-trans t u v a b c d e a' b' c' d' e' h k =
    (omega arith, omega arith, omega arith, omega arith, omega arith)

mutual
  unfolding walk total cost_figure prompt_figure completion_figure retry_figure delay_figure

  walk-Counted :
      (node : SpanNode) (t : Tally)
      → Counted t
          (total cost_figure node)
          (total prompt_figure node)
          (total completion_figure node)
          (total retry_figure node)
          (total delay_figure node)
          (walk node t)
  walk-Counted (span name offset duration a children) t =
      Counted-trans t (visit name (get_or duration 0) a t) _ _ _ _ _ _ _ _ _ _ _
        (visit-Counted name (get_or duration 0) a t)
        (walk_all-Counted children (visit name (get_or duration 0) a t))

  walk_all-Counted :
      (nodes : Spans) (t : Tally)
      → Counted t
          (total_all cost_figure nodes)
          (total_all prompt_figure nodes)
          (total_all completion_figure nodes)
          (total_all retry_figure nodes)
          (total_all delay_figure nodes)
          (walk_all nodes t)
  walk_all-Counted leaf t = Counted-nil t
  walk_all-Counted (cons node nodes) t =
      Counted-trans t (walk node t) _ _ _ _ _ _ _ _ _ _ _ (walk-Counted node t)
        (walk_all-Counted nodes (walk node t))

-- The estimated cost is that of two virtual CPUs of the worker for the whole job, of one email, and, of
-- every span in the tree, of its container and its tokens; the totals of tokens, retries and delays
-- are the sums over all spans, the unpriced ones included.
pub estimate_infra_cost_lem :
    (root : SpanNode)
    → ((estimate_infra_cost root).total_cost
        ≡ total_duration_ms root * 48 + total cost_figure root + 250000)
      × ((estimate_infra_cost root).total_prompt_tokens ≡ total prompt_figure root)
      × ((estimate_infra_cost root).total_completion_tokens ≡ total completion_figure root)
      × ((estimate_infra_cost root).total_retries ≡ total retry_figure root)
      × ((estimate_infra_cost root).total_retry_delay_ms ≡ total delay_figure root)
unfolding estimate_infra_cost Counted started worker_item email_item
estimate_infra_cost_lem root =
    let (i, p, c, r, d) = walk-Counted root (started root) in
    let e = costs-append (walk root (started root)).items (email_item ∷ []) in
    (omega (arith, e, i), omega (arith, p), omega (arith, c), omega (arith, r), omega (arith, d))
