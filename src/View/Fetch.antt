-- ===== src/View/Fetch.antt =====
-- What a call of `fetch` gives a component: the request, and the promise of the answer.
use canonizr_hda.Prelude.{ℕ, Text, Bool, Option, true, false}

-- The JSON of a request, with its one or more fields.
pub data Body : Type 0 where
  no_body : Body
  name_body : Text → Body
  quota_body : Option ℕ → Body
  paid_body : Bool → Body
  cap_body : Option ℕ → Body
  limits_body : (free_units : Option ℕ) (max_keys : ℕ) (comp : Bool) → Body

pub record Request : Type 0 where
  pub method : Text
  pub path : Text
  pub body : Body

abbrev pub request : Text → Text → Body → Request
request method path body = record { method = method; path = path; body = body }

-- A promise that has settled.
pub data Settled {ℓ} (A : Type ℓ) : Type ℓ where
  resolved : A → Settled A
  rejected : Settled A

abbrev pub is_resolved {ℓ} : {A : Type ℓ} → Settled A → Bool
is_resolved (resolved a) = true
is_resolved rejected = false

-- An answer: `res.ok` with a body, or a refusal.
pub data Reply {ℓ} (A : Type ℓ) : Type ℓ where
  fulfilled : A → Reply A
  refused : Reply A

-- What a handler's promise settled to, and whether the page was refreshed.
abbrev pub Done {ℓ} : Type ℓ → Type ℓ
Done A = Settled A × Bool
