-- ===== src/Api/Route.antt =====
-- The envelope of the route handlers, portal/lib/api/route.ts: what a handler throws becomes an
-- answer. Handlers are given their decoded request; the answer of a handler that throws is the
-- envelope's.
use canonizr_hda.Prelude.{text, ◌≡◌, refl, none, some}
use canonizr_hda.World.Actions.{
  Fault, auth_error, api_error, Outcome, ok, err, Env, World, Action, catch, handle, pure,
}
use canonizr_hda.Api.Response.{Response}

-- `authStatus` of the wrapper.
pub data AuthStatus : Type 0 where
  unauthorized hidden : AuthStatus

-- The payload `{ ok: true }`.
pub data Done : Type 0 where
  done : Done

unfoldable pub answer_of : {A : Type 0} → AuthStatus → Fault → Response A
answer_of unauthorized (auth_error code) = Response.failed 401 (some (text "Unauthorized"))
answer_of hidden (auth_error code) = Response.failed 404 none
answer_of s (api_error status message) = Response.failed status (some message)
answer_of s Fault.rate_limit_error = Response.failed 500 (some (text "Internal error"))
answer_of s (Fault.email_send_error status) = Response.failed 500 (some (text "Internal error"))
answer_of s (Fault.redirect to) = Response.failed 500 (some (text "Internal error"))
answer_of s Fault.not_found = Response.failed 500 (some (text "Internal error"))
answer_of s (Fault.failure message) = Response.failed 500 (some (text "Internal error"))

module _ {env : Env} where
  unfoldable pub route :
      {A : Type 0} → AuthStatus → Action env (Response A) → Action env (Response A)
  route s handler = catch handler (λ e. pure (answer_of s e))

  answered :
      {A : Type 0}
      → (s : AuthStatus) (o : Outcome (Response A) × World env)
      → (r : Response A) × (handle o (λ e. pure (answer_of s e)) ≡ (ok r, o.1))
  answered s (ok r, w) = (r, refl)
  answered s (err e, w) = (answer_of s e, refl)

  -- A route answers whatever its handler does.
  pub route_total :
      {A : Type 0}
      → (s : AuthStatus) (handler : Action env (Response A)) (w : World env)
      → (r : Response A) × (route s handler w ≡ (ok r, (handler w).1))
  unfolding route
  route_total s handler w = answered s (handler w)
