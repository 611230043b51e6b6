-- ===== src/Trace/Laws.antt =====
-- Spans of one row of the flame graph do not overlap.
use canonizr_hda.Prelude.{
  ℕ, zero, suc, ◌+◌, ◌≤◌, leb, ◌==◌, if◌then◌else◌, leb→le, ==_iff, Bool-cases, get_or, All, Text,
  ◌≡◌, refl, inl, inr, List, [], ◌∷◌, ◌++◌, arith,
}
use canonizr_hda.Trace.{
  SpanNode, span, Attributes, Spans, leaf, cons, FlatSpan, flat, Layout, scan, assign_row, walk,
  walk_all, flatten_spans,
}

-- The end of a row; 0 for a row that is not there.
unfoldable pub end_of : ℕ → List ℕ → ℕ
end_of j [] = 0
end_of zero (e ∷ ends) = e
end_of (suc j) (e ∷ ends) = end_of j ends

-- What placing a span from `start` to `end` does to the rows, counted from `r`.
abbrev Placed : ℕ → ℕ → ℕ → List ℕ → ℕ × List ℕ → Type 0
Placed r start end ends p =
    (k : ℕ) × (p.0 ≡ r + k)
    × (end_of k ends ≤ start)
    × ((j : ℕ) → end_of j p.1 ≡ (if j == k then end else end_of j ends))

end_of-head :
    (e end : ℕ) (ends : List ℕ) (j : ℕ)
    → end_of j (end ∷ ends) ≡ (if j == 0 then end else end_of j (e ∷ ends))
unfolding end_of
end_of-head e end ends zero = refl
end_of-head e end ends (suc j) = ground arith

end_of-new : (end j : ℕ) → end_of j (end ∷ []) ≡ (if j == 0 then end else end_of j [])
unfolding end_of
end_of-new end zero = refl
end_of-new end (suc j) = ground arith

end_of-tail :
    (k e end : ℕ) (ends placed : List ℕ)
    → ((j : ℕ) → end_of j placed ≡ (if j == k then end else end_of j ends))
    → (j : ℕ) → end_of j (e ∷ placed) ≡ (if j == suc k then end else end_of j (e ∷ ends))
unfolding end_of
end_of-tail k e end ends placed h zero = ground arith
end_of-tail k e end ends placed h (suc j) = ground (arith, h j)

Placed-new : (r start end : ℕ) → Placed r start end [] (r, end ∷ [])
unfolding end_of
Placed-new r start end = (0, omega arith, omega arith, end_of-new end)

-- The rows are those from `e` on, and the span is placed after `e`.
Placed-after :
    (r start end e : ℕ) (ends : List ℕ) (p : ℕ × List ℕ)
    → Placed (r + 1) start end ends p
    → Placed r start end (e ∷ ends) (p.0, e ∷ p.1)
unfolding end_of
Placed-after r start end e ends p (k, row, free, rest) =
    (suc k, omega arith, free, end_of-tail k e end ends p.1 rest)

scan-Placed : (r start end : ℕ) (ends : List ℕ) → Placed r start end ends (scan r start end ends)
unfolding scan end_of
scan-Placed r start end [] = Placed-new r start end
scan-Placed r start end (e ∷ ends) =
    let later = Placed-after r start end e ends _ (scan-Placed (r + 1) start end ends) in
    elim (Bool-cases (leb e start)) [
      | inl fits ↦ rw fits (0, omega arith, leb→le e start fits, end_of-head e end ends)
      | inr full ↦ rw full later
    ]

assign_row-Placed :
    (r start end min_row : ℕ) (ends : List ℕ)
    → Placed r start end ends (assign_row r start end min_row ends)
unfolding assign_row
assign_row-Placed r start end zero ends = scan-Placed r start end ends
assign_row-Placed r start end (suc min_row) [] = Placed-new r start end
assign_row-Placed r start end (suc min_row) (e ∷ ends) =
    Placed-after r start end e ends _ (assign_row-Placed (r + 1) start end min_row ends)

-- A span that comes later starts no earlier than one on the same row ends.
abbrev pub Apart : FlatSpan → FlatSpan → Type 0
Apart s t = s.row ≡ t.row → s.start_ms + s.duration_ms ≤ t.start_ms

abbrev pub NoOverlap : List FlatSpan → Type 0
NoOverlap [] = Unit
NoOverlap (s ∷ spans) = All (Apart s) spans × NoOverlap spans

-- Every span ends by the end of its row.
abbrev Within : List ℕ → FlatSpan → Type 0
Within ends s = s.start_ms + s.duration_ms ≤ end_of s.row ends

All-snoc :
    (P : FlatSpan → Type 0) (xs : List FlatSpan) (y : FlatSpan)
    → All P xs
    → P y
    → All P (xs ++ (y ∷ []))
All-snoc P [] y h p = (p, tt)
All-snoc P (x ∷ xs) y (k, h) p = (k, All-snoc P xs y h p)

All-map :
    (P Q : FlatSpan → Type 0) (xs : List FlatSpan)
    → ((x : FlatSpan) → P x → Q x)
    → All P xs
    → All Q xs
All-map P Q [] f h = tt
All-map P Q (x ∷ xs) f (k, h) = (f x k, All-map P Q xs f h)

NoOverlap-snoc :
    (xs : List FlatSpan) (y : FlatSpan)
    → NoOverlap xs
    → All (λ x. Apart x y) xs
    → NoOverlap (xs ++ (y ∷ []))
NoOverlap-snoc [] y h k = (tt, tt)
NoOverlap-snoc (x ∷ xs) y (a, h) (b, k) = (All-snoc (Apart x) xs y a b, NoOverlap-snoc xs y h k)

abbrev IsLaidOut : Layout → Type 0
IsLaidOut (done, ends) = NoOverlap done × All (Within ends) done

-- What is placed starts after the spans of its row; these and the new one end within their rows.
module _ (start end : ℕ) (ends : List ℕ) (p : ℕ × List ℕ) (placed : Placed 0 start end ends p)
    (order : start ≤ end) where
  row_free : (x : FlatSpan) → Within ends x → x.row ≡ p.0 → x.start_ms + x.duration_ms ≤ start
  row_free x h same =
      let (k, row, free, rest) = placed in
      let at_k : x.row ≡ k = omega arith in
      let h_k : x.start_ms + x.duration_ms ≤ end_of k ends = rw (← at_k) h in omega arith

  Within-kept : (x : FlatSpan) → Within ends x → Within p.1 x
  Within-kept x h =
      let (k, row, free, rest) = placed in
      let (to, back) = ==_iff x.row k in
      elim (Bool-cases (x.row == k)) [
        | inl same ↦
            let bound = row_free x h (omega (arith, to same)) in
            ground (arith, rest x.row, same, bound)
        | inr other ↦ ground (arith, rest x.row, other, h)
      ]

  end_of-placed : end_of p.0 p.1 ≡ end
  end_of-placed =
      let (k, row, free, rest) = placed in
      let at_k : p.0 ≡ k = omega arith in rw at_k (ground (arith, rest k))

-- One span more, where `assign_row` puts it.
IsLaidOut-step :
    (name : Text) (start duration min_row : ℕ) (attributes : Attributes) (done : List FlatSpan)
    (ends : List ℕ) (p : ℕ × List ℕ)
    → Placed 0 start (start + duration) ends p
    → IsLaidOut (done, ends)
    → IsLaidOut (done ++ (flat name min_row p.0 start duration attributes ∷ []), p.1)
IsLaidOut-step name start duration min_row attributes done ends p placed (apart, within) =
    let order : start ≤ start + duration = omega arith in
    let new = flat name min_row p.0 start duration attributes in
    let last = end_of-placed start (start + duration) ends p placed order in
    (
      NoOverlap-snoc done new apart (
          All-map (Within ends) (λ x. Apart x new) done
            (row_free start (start + duration) ends p placed order) within),
      All-snoc (Within p.1) done new
          (All-map (Within ends) (Within p.1) done
            (Within-kept start (start + duration) ends p placed order) within)
          (omega (arith, last)),
    )

mutual
  unfolding walk

  walk-IsLaidOut :
      (node : SpanNode) (min_row : ℕ) (l : Layout) → IsLaidOut l → IsLaidOut (walk node min_row l)
  walk-IsLaidOut (span name offset duration attributes children) min_row (done, ends) h =
      let start = get_or offset 0 in
      let length = get_or duration 0 in
      let placed = assign_row-Placed 0 start (start + length) min_row ends in
      walk_all-IsLaidOut children _ _
        (IsLaidOut-step name start length min_row attributes done ends _ placed h)

  walk_all-IsLaidOut :
      (nodes : Spans) (min_row : ℕ) (l : Layout)
      → IsLaidOut l
      → IsLaidOut (walk_all nodes min_row l)
  walk_all-IsLaidOut leaf min_row l h = h
  walk_all-IsLaidOut (cons node nodes) min_row l h =
      walk_all-IsLaidOut nodes min_row _ (walk-IsLaidOut node min_row l h)

-- In the flame graph of a job, two spans on the same row do not overlap: the one listed later starts
-- when the other has ended, or after that.
pub flatten_spans-NoOverlap : (root : SpanNode) → NoOverlap (flatten_spans root)
unfolding flatten_spans
flatten_spans-NoOverlap root = (walk-IsLaidOut root 0 ([], []) (tt, tt)).0
