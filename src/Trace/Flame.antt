-- ===== src/Trace/Flame.antt =====
-- The flame graph, portal/components/trace-flame.tsx: the part of the trace that is visible, and the
-- bars. The view box is 1000 wide; a width or place is given as its product with the visible duration,
-- which keeps it whole.
use canonizr_hda.Prelude.{
  ℕ, ◌+◌, ◌-◌, ◌*◌, ◌/◌, max, ltb, leb, if◌then◌else◌, length, take, Text, text, Bool, ◌||◌, List,
  [], ◌∷◌, ◌++◌,
}
use canonizr_hda.Trace.{FlatSpan, SpanNode, flatten_spans, total_duration_ms}
pub mod Laws

abbrev pub row_height : ℕ
row_height = 28

abbrev pub row_gap : ℕ
row_gap = 2

abbrev pub min_bar_width : ℕ
min_bar_width = 2

pub record Zoom : Type 0 where
  pub start_ms : ℕ
  pub end_ms : ℕ

abbrev pub range : ℕ → ℕ → Zoom
range start end = record { start_ms = start; end_ms = end }

-- `zoomStack` has the newest range first here.
pub record Flame : Type 0 where
  pub zoom : Zoom
  pub zoom_stack : List Zoom

abbrev pub flame : Zoom → List Zoom → Flame
flame zoom stack = record { zoom = zoom; zoom_stack = stack }

unfoldable pub opened : SpanNode → Flame
opened trace = flame (range 0 (total_duration_ms trace)) []

unfoldable pub visible_duration : Zoom → ℕ
visible_duration z = z.end_ms - z.start_ms

unfoldable pub handle_bar_click : FlatSpan → Flame → Flame
handle_bar_click s f =
    if leb s.duration_ms 0
    then f
    else flame (range s.start_ms (s.start_ms + s.duration_ms)) (f.zoom ∷ f.zoom_stack)

unfoldable pub zoom_to : List Zoom → Flame → Flame
zoom_to [] f = f
zoom_to (z ∷ stack) f = flame z stack

unfoldable pub handle_zoom_out : Flame → Flame
handle_zoom_out f = zoom_to f.zoom_stack f

unfoldable pub handle_reset : SpanNode → Flame → Flame
handle_reset trace f = flame (range 0 (total_duration_ms trace)) []

unfoldable pub max_row : List FlatSpan → ℕ
max_row [] = 0
max_row (s ∷ spans) = max s.row (max_row spans)

unfoldable pub svg_height : SpanNode → ℕ
svg_height trace = (max_row (flatten_spans trace) + 1) * (row_height + row_gap) + row_gap

unfoldable pub bar_y : FlatSpan → ℕ
bar_y s = s.row * (row_height + row_gap) + row_gap

-- `w`, times the visible duration.
unfoldable pub bar_width : Zoom → FlatSpan → ℕ
bar_width z s = max (s.duration_ms * 1000) (min_bar_width * visible_duration z)

-- `x + w < 0 || x > 1000`: the bar is not drawn.
unfoldable pub is_outside : Zoom → FlatSpan → Bool
is_outside z s =
    ltb (s.start_ms * 1000 + bar_width z s) (z.start_ms * 1000)
    || ltb (z.start_ms * 1000 + visible_duration z * 1000) (s.start_ms * 1000)

unfoldable pub has_label : Zoom → FlatSpan → Bool
has_label z s = ltb (40 * visible_duration z) (bar_width z s)

unfoldable pub has_duration : Zoom → FlatSpan → Bool
has_duration z s = ltb (100 * visible_duration z) (bar_width z s)

-- `truncateLabel`, for a width that has a label, so that there is room for a character.
unfoldable pub truncate_to : ℕ → Text → Text
truncate_to max_chars label =
    if leb (length label) max_chars then label else take (max_chars - 1) label ++ text "…"

unfoldable pub truncate_label : Zoom → FlatSpan → Text
truncate_label z s = truncate_to (bar_width z s / (7 * visible_duration z)) s.name
