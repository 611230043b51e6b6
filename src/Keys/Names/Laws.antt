-- ===== src/Keys/Names/Laws.antt =====
-- Which names are accepted, and that they stay distinct.
use canonizr_hda.Prelude.{
  ◌≤◌, length, any, All, Text, text_eq_iff, ◌≡◌, refl, ◌≢◌, ◌↔◌, true, false, none, List, [], ◌∷◌,
  arith,
}
use canonizr_hda.Keys.Names.{
  key_name_max_length, trim, matches_pattern, to_lower_case, same_name, validate_key_name,
  check_trimmed,
}

-- No listed name has the lower-case form of this one.
abbrev pub IsNewName : Text → List Text → Type 0
IsNewName name existing = All (λ n. to_lower_case n ≢ to_lower_case name) existing

any-same_name :
    (name : Text) (existing : List Text)
    → (any (same_name name) existing ≡ false) ↔ IsNewName name existing
any-same_name name [] = (λ h. tt, λ h. refl)
any-same_name name (n ∷ ns) =
    let e = text_eq_iff (to_lower_case n) (to_lower_case name) in
    let ih = any-same_name name ns in ground (arith, e, ih)

check_trimmed_iff :
    (name : Text) (existing : List Text)
    → (check_trimmed name existing ≡ none) ↔ (
        (length name ≤ key_name_max_length)
        × (matches_pattern name ≡ true)
        × IsNewName name existing)
unfolding check_trimmed matches_pattern
check_trimmed_iff [] existing = ground arith
check_trimmed_iff (c ∷ s) existing =
    let e = any-same_name (c ∷ s) existing in (λ h. ground arith, λ h. ground arith)

-- A name is accepted exactly if, trimmed, it is within the length, matches the pattern and differs
-- from every existing name by more than the case of letters.
pub validate_key_name_iff :
    (name : Text) (existing : List Text)
    → (validate_key_name name existing ≡ none) ↔ (
        (length (trim name) ≤ key_name_max_length)
        × (matches_pattern (trim name) ≡ true)
        × IsNewName (trim name) existing)
unfolding validate_key_name
validate_key_name_iff name existing = check_trimmed_iff (trim name) existing
