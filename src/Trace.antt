-- ===== src/Trace.antt =====
-- The span tree of a job and the rows of the flame graph: portal/lib/pure/trace.ts. Times are whole
-- milliseconds; a span without a time has 0. Of the attributes those are modelled that the portal
-- reads by name; a span without attributes has none of them.
use canonizr_hda.Prelude.{
  ℕ, zero, suc, ◌+◌, leb, if◌then◌else◌, any, get_or, is_some, Text, text, text_eq, text_lt, Option,
  none, some, List, [], ◌∷◌, ◌++◌,
}
pub mod Laws
pub mod Cost
pub mod Flame

pub record Attributes : Type 0 where
  pub prompt_tokens : Option ℕ
  pub completion_tokens : Option ℕ
  pub model : Option Text
  pub total_retries : Option ℕ
  pub total_retry_delay_ms : Option ℕ
  pub file_size_bytes : Option ℕ

mutual
  pub data SpanNode : Type 0 where
    span :
        (name : Text) (offset_ms duration_ms : Option ℕ) (attributes : Attributes)
        (children : Spans)
        → SpanNode

  pub data Spans : Type 0 where
    leaf : Spans
    cons : SpanNode → Spans → Spans

pub record FlatSpan : Type 0 where
  pub name : Text
  pub depth : ℕ
  pub row : ℕ
  pub start_ms : ℕ
  pub duration_ms : ℕ
  pub attributes : Attributes

-- `rowEnds` from the row `r` on: the first of them that is free at `start` gets the end of the span,
-- else a row is added.
unfoldable pub scan : ℕ → ℕ → ℕ → List ℕ → ℕ × List ℕ
scan r start end [] = (r, end ∷ [])
scan r start end (e ∷ ends) =
    let rest = scan (r + 1) start end ends in
    if leb e start then (r, end ∷ ends) else (rest.0, e ∷ rest.1)

-- `assignRow`, which leaves the rows before `min_row` alone.
unfoldable pub assign_row : ℕ → ℕ → ℕ → ℕ → List ℕ → ℕ × List ℕ
assign_row r start end zero ends = scan r start end ends
assign_row r start end (suc min_row) [] = (r, end ∷ [])
assign_row r start end (suc min_row) (e ∷ ends) =
    let rest = assign_row (r + 1) start end min_row ends in (rest.0, e ∷ rest.1)

-- The spans so far, in order, and the ends of the rows.
abbrev pub Layout : Type 0
Layout = List FlatSpan × List ℕ

abbrev pub flat : Text → ℕ → ℕ → ℕ → ℕ → Attributes → FlatSpan
flat name depth row start duration attributes = record {
  name = name;
  depth = depth;
  row = row;
  start_ms = start;
  duration_ms = duration;
  attributes = attributes;
}

unfoldable mutual
  pub walk : SpanNode → ℕ → Layout → Layout
  walk (span name offset duration attributes children) min_row (done, ends) =
      let start = get_or offset 0 in
      let placed = assign_row 0 start (start + get_or duration 0) min_row ends in
      walk_all children (placed.0 + 1)
        (done ++ (flat name min_row placed.0 start (get_or duration 0) attributes ∷ []), placed.1)

  pub walk_all : Spans → ℕ → Layout → Layout
  walk_all leaf min_row l = l
  walk_all (cons node nodes) min_row l = walk_all nodes min_row (walk node min_row l)

unfoldable pub flatten_spans : SpanNode → List FlatSpan
flatten_spans root = (walk root 0 ([], [])).0

unfoldable pub total_duration_ms : SpanNode → ℕ
total_duration_ms (span name offset duration attributes children) = get_or duration 0

-- SERVICE_COLORS, less what an object inherits, with the names in the order of the source.
abbrev color : Text → Text → Text
color name oklch = text "var(--color-trace-" ++ (name ++ (text ", oklch(" ++ (oklch ++ text "))")))

unfoldable pub service_colors : List (Text × Text)
service_colors =
    (text "docling", color (text "docling") (text "0.65 0.15 250"))
    ∷ (text "gotenberg", color (text "gotenberg") (text "0.65 0.15 150"))
    ∷ (text "captioning", color (text "captioning") (text "0.65 0.19 45"))
    ∷ (text "markitdown", color (text "markitdown") (text "0.65 0.15 300"))
    ∷ (text "passthrough", color (text "passthrough") (text "0.70 0.05 45"))
    ∷ (text "extract_pages", color (text "extract-pages") (text "0.65 0.12 200"))
    ∷ (text "libreoffice", color (text "libreoffice") (text "0.65 0.15 100"))
    ∷ (text "thumbnails", color (text "thumbnails") (text "0.65 0.12 180"))
    ∷ (text "artefacts", color (text "artefacts") (text "0.65 0.10 90"))
    ∷ []

-- The value under a key of a table.
unfoldable pub get? {ℓ} : {A : Type ℓ} → Text → List (Text × A) → Option A
get? name [] = none
get? name ((k, v) ∷ rows) = let rest = get? name rows in if text_eq k name then some v else rest

unfoldable pub default_color : Text
default_color = color (text "default") (text "0.55 0.05 45")

unfoldable pub color_for_service : Text → Text
color_for_service name = get_or (get? name service_colors) default_color

-- `Set.add`, in the order of insertion.
unfoldable pub add_name : Text → List Text → List Text
add_name name names = if any (text_eq name) names then names else names ++ (name ∷ [])

unfoldable mutual
  pub collect : SpanNode → List Text → List Text
  collect (span name offset duration attributes children) found =
      collect_all children
        (if is_some (get? name service_colors) then add_name name found else found)

  pub collect_all : Spans → List Text → List Text
  collect_all leaf found = found
  collect_all (cons node nodes) found = collect_all nodes (collect node found)

-- `sort` of texts, which are distinct here.
unfoldable pub insert : Text → List Text → List Text
insert name [] = name ∷ []
insert name (x ∷ xs) =
    let rest = insert name xs in if text_lt x name then x ∷ rest else name ∷ x ∷ xs

unfoldable pub sort : List Text → List Text
sort [] = []
sort (x ∷ xs) = insert x (sort xs)

unfoldable pub collect_services : SpanNode → List Text
collect_services root = sort (collect root [])
