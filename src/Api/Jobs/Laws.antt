-- ===== src/Api/Jobs/Laws.antt =====
-- Which names of artefacts reach the gateway.
use canonizr_hda.Prelude.{
  Bool-cases, &&-eq-true, all, Text, ◌≡◌, refl, inl, inr, true, false, [], ◌∷◌, arith,
}
use canonizr_hda.World.Actions.{Env, World, Action}
use canonizr_hda.Api.Jobs.{
  GatewayRequest, GatewayAnswer, is_lower_alnum, is_inner, matches_rest, is_artefact_name,
  fetch_artefact, get_artefact,
}

matches_rest-inner : (s : Text) → matches_rest s ≡ true → all is_inner s ≡ true
unfolding matches_rest
matches_rest-inner [] h = refl
matches_rest-inner (c ∷ []) h = ground arith
matches_rest-inner (c ∷ d ∷ s) h =
    let k = &&-eq-true (is_inner c) (matches_rest (d ∷ s)) h in
    rw (k.0, matches_rest-inner (d ∷ s) k.1) refl

-- A name that is accepted has only small letters, digits and dashes.
is_artefact_name-inner : (s : Text) → is_artefact_name s ≡ true → all is_inner s ≡ true
unfolding is_artefact_name
is_artefact_name-inner [] h = ground arith
is_artefact_name-inner (c ∷ s) h =
    let k = &&-eq-true (is_lower_alnum c) (matches_rest s) h in
    rw (k.0, matches_rest-inner s k.1) refl

module _ {env : Env} where
  -- For a name that is not of small letters, digits and dashes the answer and the world after it are the
  -- same whatever the gateway does: the gateway is not called.
  pub get_artefact_ignores :
      (gateway other : GatewayRequest → Action env GatewayAnswer) (id name : Text) (w : World env)
      → all is_inner name ≡ false
      → get_artefact gateway id name w ≡ get_artefact other id name w
  unfolding get_artefact fetch_artefact
  get_artefact_ignores gateway other id name w h = elim (Bool-cases (is_artefact_name name)) [
    | inl e ↦ absurd (let k = is_artefact_name-inner name e in ground arith)
    | inr e ↦ rw e refl
  ]
