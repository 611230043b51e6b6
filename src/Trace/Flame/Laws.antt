-- ===== src/Trace/Flame/Laws.antt =====
-- The flame graph while one trace is shown: what can be visible, and the way back.
use canonizr_hda.Prelude.{
  ℕ, zero, suc, ◌<◌, leb, Bool-cases, length, All, ◌≡◌, refl, ap, inl, inr, false, List, [], ◌∷◌,
  arith,
}
use canonizr_hda.Trace.{FlatSpan, SpanNode, total_duration_ms}
use canonizr_hda.Trace.Flame.{
  Zoom, range, Flame, flame, opened, visible_duration, handle_bar_click, zoom_to, handle_zoom_out,
  handle_reset, bar_width, is_outside,
}

pub data Step (trace : SpanNode) : Flame → Flame → Type 0 where
  bar_clicked : (s : FlatSpan) (f : Flame) → Step trace f (handle_bar_click s f)
  zoomed_out : (f : Flame) → Step trace f (handle_zoom_out f)
  reset : (f : Flame) → Step trace f (handle_reset trace f)

pub data Reach (trace : SpanNode) : Flame → Type 0 where
  here : Reach trace (opened trace)
  next : {f g : Flame} → Reach trace f → Step trace f g → Reach trace g

-- A range that is not empty.
abbrev IsVisible : Zoom → Type 0
IsVisible z = z.start_ms < z.end_ms

-- The oldest range is the whole trace.
EndsIn : Zoom → Zoom → List Zoom → Type 0
EndsIn whole z [] = z ≡ whole
EndsIn whole z (y ∷ stack) = EndsIn whole y stack

IsValid : SpanNode → Flame → Type 0
IsValid trace f =
    IsVisible f.zoom
    × All IsVisible f.zoom_stack
    × EndsIn (range 0 (total_duration_ms trace)) f.zoom f.zoom_stack

handle_zoom_out-IsValid :
    (trace : SpanNode) (z : Zoom) (stack : List Zoom)
    → IsValid trace (flame z stack)
    → IsValid trace (handle_zoom_out (flame z stack))
unfolding handle_zoom_out zoom_to IsValid EndsIn
handle_zoom_out-IsValid trace z [] v = v
handle_zoom_out-IsValid trace z (y ∷ stack) (h, st, e) = (st.0, st.1, e)

Step-IsValid :
    (trace : SpanNode) {f g : Flame}
    → 0 < total_duration_ms trace
    → Step trace f g
    → IsValid trace f
    → IsValid trace g
unfolding IsValid EndsIn handle_reset handle_bar_click
Step-IsValid trace h (reset f) v = (h, tt, refl)
Step-IsValid trace h (bar_clicked s f) (z, st, e) = elim (Bool-cases (leb s.duration_ms 0)) [
  | inl k ↦ rw k (z, st, e)
  | inr k ↦ let long : 0 < s.duration_ms = ground arith in rw k (omega arith, (z, st), e)
]
Step-IsValid trace h (zoomed_out f) v = handle_zoom_out-IsValid trace f.zoom f.zoom_stack v

Reach-IsValid :
    (trace : SpanNode) {f : Flame} → 0 < total_duration_ms trace → Reach trace f → IsValid trace f
unfolding IsValid EndsIn opened
Reach-IsValid trace h here = (h, tt, refl)
Reach-IsValid trace h (next reach step) = Step-IsValid trace h step (Reach-IsValid trace h reach)

-- So many clicks on "Zoom out".
pub out : ℕ → Flame → Flame
out zero f = f
out (suc n) f = out n (handle_zoom_out f)

out_all :
    (whole z : Zoom) (stack : List Zoom)
    → EndsIn whole z stack
    → out (length stack) (flame z stack) ≡ flame whole []
unfolding out EndsIn handle_zoom_out zoom_to
out_all whole z [] e = ap (λ y. flame y []) e
out_all whole z (y ∷ stack) e = out_all whole y stack e

-- However the user has clicked, if the trace has a duration then so has the visible part, by which the
-- bars are scaled, and as many clicks on "Zoom out" as ranges are remembered show the whole trace
-- again.
pub zooming_ends :
    (trace : SpanNode) (f : Flame)
    → 0 < total_duration_ms trace
    → Reach trace f
    → (0 < visible_duration f.zoom) × (out (length f.zoom_stack) f ≡ opened trace)
unfolding visible_duration IsValid opened
zooming_ends trace f h reach =
    let (z, st, e) = Reach-IsValid trace h reach in
    (omega arith, out_all (range 0 (total_duration_ms trace)) f.zoom f.zoom_stack e)

-- A span that is clicked and has a duration is drawn in the part that is then visible.
pub is_outside-handle_bar_click :
    (s : FlatSpan) (f : Flame)
    → 0 < s.duration_ms
    → is_outside (handle_bar_click s f).zoom s ≡ false
unfolding is_outside handle_bar_click bar_width visible_duration
is_outside-handle_bar_click s f h =
    let k : leb s.duration_ms 0 ≡ false = ground arith in rw k (ground arith)
