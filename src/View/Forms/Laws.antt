-- ===== src/View/Forms/Laws.antt =====
-- What the forms send, and what the session remembers.
use canonizr_hda.Prelude.{
  ℕ, zero, suc, Option-cases, take, Text, ◌≡◌, refl, ap, ◌∙◌, inl, inr, Option, none, some, List,
  [], ◌∷◌, ◌++◌, arith, sym,
}
use canonizr_hda.Keys.Names.{trim, validate_key_name}
use canonizr_hda.View.Hooks.Laws.{validate_key_name-trim}
use canonizr_hda.View.Forms.Upload.{get_session_job_ids, add_session_job_id}
use canonizr_hda.View.Forms.{CreateForm, handle_create, create_if}

-- A name that the form sends is the one typed, and the route, which trims what the hook has trimmed,
-- finds no fault in it when it knows the same names.
pub handle_create_lem :
    (existing : List Text) (s : CreateForm) (n : Text)
    → (handle_create existing s).1 ≡ some n
    → (n ≡ s.name) × (validate_key_name (trim (trim n)) existing ≡ none)
unfolding handle_create create_if
handle_create_lem existing s n h = elim (Option-cases (validate_key_name s.name existing)) [
  | inl e ↦
      let k : some s.name ≡ some n = ap (λ o. (create_if o s).1) (sym e) ∙ h in
      let same : n ≡ s.name = cc in (same, rw same (validate_key_name-trim s.name existing ∙ e))
  | inr (m, e) ↦
      let k : none ≡ some n = ap (λ o. (create_if o s).1) (sym e) ∙ h in absurd (ground arith)
]

take-take : {A : Type 0} (n : ℕ) (xs : List A) → take n (take (suc n) xs) ≡ take n xs
take-take zero xs = refl
take-take (suc n) [] = refl
take-take (suc n) (x ∷ xs) = ap (λ t. x ∷ t) (take-take n xs)

module _ (parse : Text → Option (List Text)) (stringify : List Text → Text) where
  -- The storage after jobs were accepted, the newest first.
  pub add_all : List Text → Option Text → Option Text
  add_all [] stored = stored
  add_all (job ∷ jobs) stored = add_session_job_id parse stringify job (add_all jobs stored)

  remembered :
      ((ids : List Text) → parse (stringify ids) ≡ some ids)
      → (job : Text) (stored : Option Text)
      → get_session_job_ids parse stringify (add_session_job_id parse stringify job stored)
        ≡ take 100 (job ∷ get_session_job_ids parse stringify stored)
  unfolding get_session_job_ids add_session_job_id
  remembered law job stored =
      rw (law (take 100 (job ∷ get_session_job_ids parse stringify stored))) refl

  -- When what is stored is read back, the session remembers the newest hundred of the jobs submitted
  -- and those it remembered before, the newest first.
  pub get_session_job_ids-add_all :
      ((ids : List Text) → parse (stringify ids) ≡ some ids)
      → (job : Text) (jobs : List Text) (stored : Option Text)
      → get_session_job_ids parse stringify (add_all (job ∷ jobs) stored)
        ≡ take 100 (job ∷ jobs ++ get_session_job_ids parse stringify stored)
  unfolding add_all
  get_session_job_ids-add_all law job [] stored = remembered law job stored
  get_session_job_ids-add_all law job (k ∷ jobs) stored =
      let ids : List Text = k ∷ jobs ++ get_session_job_ids parse stringify stored in
      remembered law job (add_all (k ∷ jobs) stored)
      ∙ ap (λ t. take 100 (job ∷ t)) (get_session_job_ids-add_all law k jobs stored)
      ∙ ap (λ t. job ∷ t) (take-take 99 ids)
