-- ===== src/View/Quota/Laws.antt =====
-- What the quota editor sends for the quota that it shows.
use canonizr_hda.Prelude.{
  ℕ, ◌+◌, ◌/◌, ◌%◌, ◌≤◌, ◌<◌, ltb, leb, ltb→lt, le→leb, Bool-cases, length, length-append, Text,
  decimal, decimal_from, ◌≡◌, refl, ap, ◌∙◌, ◌≢◌, ◌↔◌, inl, inr, false, none, some, [], ◌∷◌, arith,
  to_number, Option, if◌then◌else◌,
}
use canonizr_hda.Prelude.Decimal.{to_number-decimal}
use canonizr_hda.View.Quota.{
  SizeUnit, mb, gb, kb_to_display, display_to_kb, fields_of, initial, edit, new_quota_kb,
  handle_save, round_div,
}

-- A multiple of the unit in which it is shown.
pub IsWhole : ℕ → Type 0
IsWhole kb = kb % (if ltb kb 1000000 then 1000 else 1000000) ≡ 0

-- No limit, or a quota that is such a multiple.
pub IsKept : Option ℕ → Type 0
IsKept none = Unit
IsKept (some kb) = IsWhole kb

-- Numbers are shown in the larger unit from 1,000,000 on.
kb_to_display-big : (kb : ℕ) → 1000000 ≤ kb → kb_to_display kb ≡ (round_div kb 1000000, gb)
unfolding kb_to_display
kb_to_display-big kb h = rw (le→leb 1000000 kb h) refl

kb_to_display-small : (kb : ℕ) → kb < 1000000 → kb_to_display kb ≡ (round_div kb 1000, mb)
unfolding kb_to_display
kb_to_display-small kb h = let e : leb 1000000 kb ≡ false = ground arith in rw e refl

display_to_kb-kb_to_display_iff :
    (kb : ℕ) → (display_to_kb (kb_to_display kb).0 (kb_to_display kb).1 ≡ kb) ↔ IsWhole kb
unfolding display_to_kb IsWhole
display_to_kb-kb_to_display_iff kb = elim (Bool-cases (ltb kb 1000000)) [
  | inl e ↦ rw (e, kb_to_display-small kb (ltb→lt _ _ e)) (λ h. omega arith, λ w. omega arith)
  | inr e ↦
      let big : 1000000 ≤ kb = ground arith in
      rw (e, kb_to_display-big kb big) (λ h. omega arith, λ w. omega arith)
]

new_quota_kb-some :
    (s : Text) (u : SizeUnit) → s ≢ [] → new_quota_kb s u ≡ some (display_to_kb (to_number s) u)
unfolding new_quota_kb
new_quota_kb-some [] u h = absurd (h refl)
new_quota_kb-some (c ∷ s) u h = refl

decimal-length : (n : ℕ) → 0 < length (decimal n)
unfolding decimal decimal_from
decimal-length n = elim (Bool-cases (ltb n 10)) [
  | inl e ↦ rw e (omega arith)
  | inr e ↦ rw e (omega (arith, length-append (decimal_from n (n / 10)) ((48 + n % 10) ∷ [])))
]

new_quota_kb-decimal :
    (n : ℕ) (u : SizeUnit) → new_quota_kb (decimal n) u ≡ some (display_to_kb n u)
new_quota_kb-decimal n u =
    let long = decimal-length n in
    new_quota_kb-some (decimal n) u (λ e. absurd (omega (arith, ap length e)))
    ∙ ap (λ m. some (display_to_kb m u)) (to_number-decimal n)

-- Opening the editor and saving without a change sends the key's quota exactly if this is no limit or
-- a multiple of the unit in which it is shown: of 1,000,000 KB from 1,000,000 KB on, else of 1,000 KB.
pub handle_save-unchanged_iff :
    (quota : Option ℕ) → ((handle_save (edit (initial quota))).1 ≡ quota) ↔ IsKept quota
unfolding handle_save edit initial fields_of IsKept
handle_save-unchanged_iff none = (λ h. tt, λ u. unfold new_quota_kb in refl)
handle_save-unchanged_iff (some kb) =
    let e = new_quota_kb-decimal (kb_to_display kb).0 (kb_to_display kb).1 in
    let same = display_to_kb-kb_to_display_iff kb in
    rw e (λ h. same.0 (cc), λ w. ap (λ n. some n) (same.1 w))
