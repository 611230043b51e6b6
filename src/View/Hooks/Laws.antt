-- ===== src/View/Hooks/Laws.antt =====
-- Names of keys, checked by the form in the browser and by the route.
use canonizr_hda.Prelude.{ℕ, Bool-cases, Text, ◌≡◌, refl, ap, inl, inr, false, List, [], ◌∷◌}
use canonizr_hda.Keys.Names.{is_space, trim_start, trim_end, close, trim, validate_key_name}

trim_end-close : (c : ℕ) (t : Text) → trim_end t ≡ t → trim_end (close c t) ≡ close c t
trim_end-close c [] h = elim (Bool-cases (is_space c)) [
  | inl e ↦ rw e (unfold trim_end in refl)
  | inr e ↦ rw e (unfold trim_end in rw e refl)
]
trim_end-close c (d ∷ t) h = unfold trim_end in ap (λ u. close c u) h

trim_end_idem : (s : Text) → trim_end (trim_end s) ≡ trim_end s
unfolding trim_end
trim_end_idem [] = refl
trim_end_idem (c ∷ s) = trim_end-close c (trim_end s) (trim_end_idem s)

-- A text that `trim_start` leaves alone.
trim_start-close : (c : ℕ) (t : Text) → is_space c ≡ false → trim_start (close c t) ≡ close c t
unfolding trim_start
trim_start-close c [] h = rw (h, h) refl
trim_start-close c (d ∷ t) h = rw h refl

trim_start-trim : (s : Text) → trim_start (trim_end (trim_start s)) ≡ trim_end (trim_start s)
unfolding trim_start
trim_start-trim [] = unfold trim_end in refl
trim_start-trim (c ∷ s) = elim (Bool-cases (is_space c)) [
  | inl e ↦ rw e (trim_start-trim s)
  | inr e ↦ rw e (unfold trim_end in trim_start-close c (trim_end s) e)
]

trim_idem : (s : Text) → trim (trim s) ≡ trim s
unfolding trim
trim_idem s = rw (trim_start-trim s) (trim_end_idem (trim_start s))

-- The route, which gets the trimmed name and trims it again, finds the same fault in it as the form,
-- or none, when both know the same names.
pub validate_key_name-trim :
    (name : Text) (existing : List Text)
    → validate_key_name (trim (trim name)) existing ≡ validate_key_name name existing
unfolding validate_key_name
validate_key_name-trim name existing = rw (trim_idem name, trim_idem name) refl
