-- ===== src/View/JobsPage/Laws.antt =====
-- What the page of jobs shows of the listing.
use canonizr_hda.Prelude.{
  ℕ, suc, Bool-cases, &&-eq-true, is_some, Text, text_eq, ◌≡◌, refl, sym, ap, ◌∙◌, subst, ◌⊎◌, inl,
  inr, true, false, not, Option, none, some, List, [], ◌∷◌, ◌++◌, map, append-nil, append_assoc,
  arith,
}
use canonizr_hda.Jobs.Pages.{CanonizeJobPage}
use canonizr_hda.Jobs.Row.{CanonizeJobRow}
use canonizr_hda.View.Fetch.{Settled, Reply, fulfilled, refused}
use canonizr_hda.View.JobsPage.{
  JobsPage, jobs_page, initial, refreshed, expire_row, deleted, more_after, load_more, loaded,
}
use canonizr_hda.View.JobsPage.Steps.{
  Visit, ids, click_to, click, arrive, IsAnswer, listed, failed, lost, Step, user_clicks,
  page_arrives, refresh_arrives, deletion_arrives, opened, Reach, here, next, crosses, is_orderly,
  Behind, nothing, more, answer, read_on,
}

ids-append : (xs ys : List CanonizeJobRow) → ids (xs ++ ys) ≡ ids xs ++ ids ys
ids-append [] ys = refl
ids-append (x ∷ xs) ys = ap (λ t. x.submission.id ∷ t) (ids-append xs ys)

expire_row-id :
    (job now : Text) (r : CanonizeJobRow) → (expire_row job now r).submission.id ≡ r.submission.id
unfolding expire_row
expire_row-id job now r = elim (Bool-cases (text_eq r.submission.id job)) [
  | inl e ↦ rw e refl
  | inr e ↦ rw e refl
]

ids-deleted :
    (job now : Text) (rows : List CanonizeJobRow) → ids (map (expire_row job now) rows) ≡ ids rows
ids-deleted job now [] = refl
ids-deleted job now (r ∷ rows) = rw (expire_row-id job now r, ids-deleted job now rows) refl

load_more-loading : (s : JobsPage) → s.loading_more ≡ true → load_more s ≡ (s, none)
unfolding load_more
load_more-loading s h = rw h refl

load_more-end : (s : JobsPage) → more_after s.cursor ≡ none → load_more s ≡ (s, none)
unfolding load_more
load_more-end s h = elim (Bool-cases s.loading_more) [ inl e ↦ rw e refl | inr e ↦ rw (e, h) refl ]

load_more-more :
    (s : JobsPage) (c : Text)
    → s.loading_more ≡ false
    → s.cursor ≡ some c
    → more_after (some c) ≡ some c
    → load_more s ≡ (jobs_page s.requests (some c) true, some c)
unfolding load_more
load_more-more s c l e h = rw (l, e, h) refl

more_after-cases :
    (c : Option Text)
    → (more_after c ≡ none) ⊎ ((d : Text) × (c ≡ some d) × (more_after (some d) ≡ some d))
unfolding more_after
more_after-cases none = inl refl
more_after-cases (some []) = inl refl
more_after-cases (some (c ∷ cs)) = inr (c ∷ cs, refl, refl)

is_some-none : (o : Option Text) → is_some o ≡ false → o ≡ none
is_some-none none h = refl
is_some-none (some c) h = cc

module _ (listing : Option Text → CanonizeJobPage) where
  -- A page of the listing is on its way exactly while the button says so, and it is the one behind the
  -- rows.
  pub Tied : Visit → Type 0
  Tied v =
      ((v.pending ≡ none) × (v.page.loading_more ≡ false))
      ⊎ ((c : Text) × (v.pending ≡ some c)
          × (v.page.cursor ≡ some c)
          × (more_after (some c) ≡ some c)
          × (v.page.loading_more ≡ true))

  -- The rows and what is listed behind the cursor make up the whole.
  pub Shown : List Text → Visit → Type 0
  Shown whole v =
      (rest : List Text) × (ids v.page.requests ++ rest ≡ whole)
      × Behind listing v.page.cursor rest
      × Tied v

  Tied-loading : (v : Visit) → Tied v → v.pending ≡ none → v.page.loading_more ≡ false
  unfolding Tied
  Tied-loading v (inl t) p = t.1
  Tied-loading v (inr (c, q, k, m, l)) p = absurd (ground arith)

  Behind-inv :
      {o : Option Text} {rest : List Text}
      → Behind listing o rest
      → (c : Text) → o ≡ some c
      → more_after (some c) ≡ some c
      → (rest' : List Text) × (rest ≡ ids (listing (some c)).jobs ++ rest')
        × Behind listing (listing (some c)).next_cursor rest'
  Behind-inv (nothing o h) c e m =
      let k : more_after (some c) ≡ none = ap more_after (sym e) ∙ h in absurd (ground arith)
  Behind-inv (more d rest h b) c e m = rw (sym e) (rest, refl, b)

  Shown-opened :
      (rest : List Text)
      → Behind listing (listing none).next_cursor rest
      → Shown (ids (listing none).jobs ++ rest) (opened listing)
  unfolding Shown Tied initial
  Shown-opened rest b = (rest, refl, b, inl (refl, refl))

  Shown-click : (whole : List Text) (v : Visit) → Shown whole v → Shown whole (click v)
  unfolding Shown Tied click click_to
  Shown-click whole v (rest, e, b, inr (c, p, k, m, l)) =
      rw (load_more-loading v.page l) (rest, e, b, inr (c, p, k, m, l))
  Shown-click whole v (rest, e, b, inl (p, l)) = elim (more_after-cases v.page.cursor) [
    | inl h ↦ rw (load_more-end v.page h) (rest, e, b, inl (p, l))
    | inr (c, k, m) ↦
        rw (load_more-more v.page c l k m)
          (rest, e, subst (λ o. Behind listing o rest) k b, inr (c, refl, refl, m, refl))
  ]

  Shown-arrive :
      (whole : List Text) (v : Visit) (c : Text) (r : Settled (Reply CanonizeJobPage))
      → v.pending ≡ some c
      → IsAnswer listing (some c) r
      → Shown whole v
      → Shown whole (arrive r v)
  unfolding Shown Tied arrive loaded
  Shown-arrive whole v c r p failed (rest, e, b, t) = (rest, e, b, inl (refl, refl))
  Shown-arrive whole v c r p lost (rest, e, b, t) = (rest, e, b, inl (refl, refl))
  Shown-arrive whole v c r p listed (rest, e, b, inl (q, l)) = absurd (ground arith)
  Shown-arrive whole v c r p listed (rest, e, b, inr (d, q, k, m, l)) =
      let same : some d ≡ some c = sym q ∙ p in
      let inv = Behind-inv b c (k ∙ same) (ap more_after (sym same) ∙ m ∙ same) in
      let rows = v.page.requests in
      let jobs = (listing (some c)).jobs in
      (
        inv.0,
        rw (ids-append rows jobs, append_assoc (ids rows) (ids jobs) inv.0, sym inv.1) e,
        inv.2,
        inl (refl, refl),
      )

  Shown-deleted :
      (whole : List Text) (v : Visit) (job now : Text) (r : Reply Text)
      → Shown whole v
      → Shown whole (record { page = deleted job now r v.page; pending = v.pending })
  unfolding Shown Tied deleted
  Shown-deleted whole v job now refused s = s
  Shown-deleted whole v job now (fulfilled body) s =
      (s.0, rw (ids-deleted job now v.page.requests) s.1, s.2, s.3)

  Shown-refreshed :
      (rest : List Text) (v : Visit) (r : Settled (Reply CanonizeJobPage))
      → Behind listing (listing none).next_cursor rest
      → v.pending ≡ none
      → IsAnswer listing none r
      → Shown (ids (listing none).jobs ++ rest) v
      → Shown
          (ids (listing none).jobs ++ rest)
          (record { page = refreshed r v.page; pending = v.pending })
  unfolding Shown Tied refreshed
  Shown-refreshed rest v r b p failed (x, e, c, t) = (x, e, c, t)
  Shown-refreshed rest v r b p lost (x, e, c, t) = (x, e, c, t)
  Shown-refreshed rest v r b p listed (x, e, c, t) = (rest, refl, b, inl (p, Tied-loading v t p))

  Shown-Step :
      (rest : List Text) {v w : Visit}
      → Behind listing (listing none).next_cursor rest
      → (step : Step listing v w) → crosses listing step ≡ false
      → Shown (ids (listing none).jobs ++ rest) v
      → Shown (ids (listing none).jobs ++ rest) w
  unfolding crosses
  Shown-Step rest b (user_clicks v) o s = Shown-click (ids (listing none).jobs ++ rest) v s
  Shown-Step rest b (page_arrives v c r p a) o s =
      Shown-arrive (ids (listing none).jobs ++ rest) v c r p a s
  Shown-Step rest b (refresh_arrives v r a) o s =
      Shown-refreshed rest v r b (is_some-none v.pending o) a s
  Shown-Step rest b (deletion_arrives v job now r) o s =
      Shown-deleted (ids (listing none).jobs ++ rest) v job now r s

  -- Provided that no refresh was answered while a further page was on its way: whatever else the user
  -- and the answers did, the jobs that the page shows are the first ones of the listing, in its order
  -- and each as often as it is listed, and the cursor stands behind the last of them.
  pub Reach-Shown :
      (rest : List Text)
      → Behind listing (listing none).next_cursor rest
      → {v : Visit} (reach : Reach listing v) → is_orderly listing reach ≡ true
      → Shown (ids (listing none).jobs ++ rest) v
  unfolding is_orderly
  Reach-Shown rest b here o = Shown-opened rest b
  Reach-Shown rest b (next reach step) o =
      let (before, calm) = &&-eq-true (is_orderly listing reach) (not (crosses listing step)) o in
      Shown-Step rest b step (ground arith) (Reach-Shown rest b reach before)

  abbrev further : Text → Visit → Visit
  further c v = record {
    page =
        jobs_page (v.page.requests ++ (listing (some c)).jobs) (listing (some c)).next_cursor false;
    pending = none;
  }

  answer-click :
      (c : Text) (v : Visit)
      → v.page.loading_more ≡ false
      → v.page.cursor ≡ some c
      → more_after (some c) ≡ some c
      → answer listing (click v).pending (click v) ≡ further c v
  unfolding answer click click_to arrive loaded
  answer-click c v l k m = rw (load_more-more v.page c l k m) refl

  -- All that is listed is shown, and nothing is left.
  pub IsComplete : List Text → Visit → Type 0
  IsComplete whole v = (ids v.page.requests ≡ whole) × (more_after v.page.cursor ≡ none)

  read_on-IsComplete :
      (whole : List Text) {o : Option Text} {rest : List Text}
      → Behind listing o rest
      → (v : Visit) → v.page.cursor ≡ o
      → v.page.loading_more ≡ false
      → ids v.page.requests ++ rest ≡ whole
      → (n : ℕ) × IsComplete whole (read_on listing n v)
  unfolding read_on IsComplete
  read_on-IsComplete whole (nothing o h) v k l e =
      (0, (sym (append-nil (ids v.page.requests)) ∙ e, ap more_after k ∙ h))
  read_on-IsComplete whole (more c rest h b) v k l e =
      let rows = v.page.requests in
      let jobs = (listing (some c)).jobs in
      let run =
        read_on-IsComplete whole b (further c v) refl refl
          (rw (ids-append rows jobs, append_assoc (ids rows) (ids jobs) rest) e) in
      (
        suc run.0,
        subst (λ x. IsComplete whole (read_on listing run.0 x)) (sym (answer-click c v l k h))
            run.1,
      )

  -- Provided that no refresh was answered while a further page was on its way: from every state that
  -- is reached and in which no page is on its way, a number of clicks, each of them answered, shows the
  -- whole listing, each job in its place, and ends with no further page to ask for.
  pub read_on_ends :
      (rest : List Text)
      → Behind listing (listing none).next_cursor rest
      → {v : Visit} (reach : Reach listing v) → is_orderly listing reach ≡ true
      → v.pending ≡ none
      → (n : ℕ) × IsComplete (ids (listing none).jobs ++ rest) (read_on listing n v)
  unfolding Shown
  read_on_ends rest b {v} reach o p =
      let (x, e, c, t) = Reach-Shown rest b reach o in
      read_on-IsComplete (ids (listing none).jobs ++ rest) c v refl (Tied-loading v t p) e
