-- ===== src/View/SignIn.antt =====
-- The page of the sign-in, portal/app/auth/page.tsx. What `signIn` settles to is a parameter: whether
-- it is ok.
use canonizr_hda.Prelude.{ℕ, Text, Bool, true, false, Option, none, some, [], ◌∷◌}
use canonizr_hda.Keys.Names.{trim}
use canonizr_hda.View.Fetch.{Settled, resolved, rejected}

pub record AuthPage : Type 0 where
  pub email : Text
  pub sent_at : Option ℕ
  pub loading : Bool

abbrev pub auth_page : Text → Option ℕ → Bool → AuthPage
auth_page email sent_at loading = record { email = email; sent_at = sent_at; loading = loading }

-- `handleSubmit` for the trimmed address, until it awaits: the address that it sends.
unfoldable pub submit : Text → AuthPage → AuthPage × Option Text
submit [] s = (s, none)
submit (c ∷ email) s = (auth_page s.email s.sent_at true, some (c ∷ email))

unfoldable pub handle_submit : AuthPage → AuthPage × Option Text
handle_submit s = submit (trim s.email) s

-- What follows, at a time.
unfoldable pub submitted : ℕ → Settled Bool → AuthPage → AuthPage
submitted now rejected s = s
submitted now (resolved false) s = auth_page s.email s.sent_at false
submitted now (resolved true) s = auth_page s.email (some now) false

unfoldable pub go_back : AuthPage → AuthPage
go_back s = auth_page s.email none s.loading
