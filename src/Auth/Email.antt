-- ===== src/Auth/Email.antt =====
-- Sign-in links by email: portal/lib/auth/email.ts, with the content of portal/lib/auth/email-template.ts.
-- The transport, portal/lib/auth/email-transport.ts, talks to a mail service and is a parameter. The two
-- checks run one after the other, as JavaScript runs them.
use canonizr_hda.Prelude.{
  ℕ, max, ◌==◌, if◌then◌else◌, Text, text, Bool, true, false, ◌&&◌, Option, none, some, [], ◌∷◌,
  ◌++◌,
}
use canonizr_hda.World.Actions.{Env, World, Action, ◌>>=◌, ◌>>◌, pure, raise, Fault}
use canonizr_hda.Auth.RateLimit.{RateLimitConfig, check}
use canonizr_hda.Keys.Names.{trim}
pub mod Laws

-- `{ subject, html }`.
pub record VerificationEmail : Type 0 where
  pub subject : Text
  pub html : Text

unfoldable pub build_verification_email : Text → VerificationEmail
build_verification_email url = record {
  subject = text "Sign in to Canonizr";
  html =
      text "<p>Click the link below to sign in to your Canonizr account.</p>"
      ++ (10
          ∷ (text "<p><a href="
              ++ (34
                  ∷ (url
                      ++ (34
                          ∷ (text ">Sign in to Canonizr</a></p>"
                              ++ (10
                                  ∷ text
                                      "<p>If you didn't request this, you can safely ignore this email.</p>")))))));
}

abbrev pub fifteen_minutes : ℕ
fifteen_minutes = 900000

abbrev pub email_limits : RateLimitConfig
email_limits = record { max = 3; window_ms = fifteen_minutes }

abbrev pub ip_limits : RateLimitConfig
ip_limits = record { max = 10; window_ms = fifteen_minutes }

-- Up to the first comma.
unfoldable pub before_comma : Text → Text
before_comma [] = []
before_comma (c ∷ s) = let rest = before_comma s in if c == 44 then [] else c ∷ rest

-- The first address of `x-forwarded-for`.
abbrev pub ip_of : Option Text → Text
ip_of none = text "unknown"
ip_of (some forwarded) = trim (before_comma forwarded)

abbrev pub email_key : Text → Text
email_key email = text "email:" ++ email

abbrev pub ip_key : Text → Text
ip_key ip = text "ip:" ++ ip

module _ {env : Env} where
  unfoldable pub check_email : Text → Action env Bool
  check_email email w =
      let checked = check email_limits (email_key email) w.now w.email_entries in
      pure checked.0 (record w { email_entries = checked.1 })

  unfoldable pub check_ip : Text → Action env Bool
  check_ip ip w =
      let checked = check ip_limits (ip_key ip) w.now w.ip_entries in
      pure checked.0 (record w { ip_entries = checked.1 })

  module _ (send_email : Text → VerificationEmail → Action env Unit) where
    unfoldable pub send_if : Bool → Text → Text → Action env Unit
    send_if false email url = raise Fault.rate_limit_error
    send_if true email url = send_email email (build_verification_email url)

    unfoldable pub send_verification_request : Text → Text → Option Text → Action env Unit
    send_verification_request email url forwarded = do
      email_allowed ← check_email email
      ip_allowed ← check_ip (ip_of forwarded)
      send_if (email_allowed && ip_allowed) email url
