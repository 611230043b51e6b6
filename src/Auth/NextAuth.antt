-- ===== src/Auth/NextAuth.antt =====
-- The callbacks of the sign-in, portal/lib/auth/auth.ts, and the guard of the dashboard,
-- portal/proxy.ts. The token and the session are the fields that the callbacks touch.
use canonizr_hda.Prelude.{get_or, Text, text, Option, none, some, [], ◌∷◌, ◌++◌}
use canonizr_hda.World.Actions.{Env, Action, SessionUser, ◌>>=◌, pure, gets}

-- A token without an id has none or an empty one.
pub record Token : Type 0 where
  pub user_id : Option Text

-- A user is there when they have just signed in.
unfoldable pub jwt : Token → Option Text → Token
jwt token none = token
jwt token (some id) = record { user_id = some id }

unfoldable pub session_with : SessionUser → Option Text → SessionUser
session_with s none = s
session_with s (some []) = s
session_with s (some (c ∷ id)) = record s { id = some (c ∷ id) }

unfoldable pub session_of : SessionUser → Token → SessionUser
session_of s token = session_with s token.user_id

pub data Passage : Type 0 where
  redirect_to : Text → Passage
  next : Passage

unfoldable pub pass : Env → Option SessionUser → Passage
pass env none = redirect_to (get_or env.auth_url (text "http://localhost:3000") ++ text "/auth")
pass env (some s) = next

unfoldable pub proxy : {env : Env} → Action env Passage
proxy {env} = do session ← gets (λ w. w.session); pure (pass env session)
