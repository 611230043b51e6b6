-- ===== src/Auth/Email/Laws.antt =====
-- When a sign-in link is refused.
use canonizr_hda.Prelude.{◌≤◌, ◌<◌, Text, ◌≡◌, refl, ap, ◌∙◌, false, Option, some, arith}
use canonizr_hda.World.Actions.{err, Env, World, Action, Fault}
use canonizr_hda.Auth.RateLimit.{Entry, get, check}
use canonizr_hda.Auth.RateLimit.Laws.{check_open}
use canonizr_hda.Auth.Email.{
  VerificationEmail, email_key, email_limits, check_email, check_ip, send_if,
  send_verification_request,
}

module _ {env : Env} where
  -- Once three links were asked for an address in a window that is still open, a further request for
  -- it is refused, whatever the transport and the sender's address are; no message is handed to the
  -- transport and the tables are left alone.
  pub send_verification_request_refused :
      (send_email : Text → VerificationEmail → Action env Unit) (email url : Text)
      (forwarded : Option Text) (e : Entry) (w : World env)
      → get (email_key email) w.email_entries ≡ some e
      → w.now < e.expires_at
      → 3 ≤ e.count
      → ((send_verification_request send_email email url forwarded w).0
          ≡ err Fault.rate_limit_error)
        × ((send_verification_request send_email email url forwarded w).1.outbox ≡ w.outbox)
        × ((send_verification_request send_email email url forwarded w).1.tables ≡ w.tables)
  unfolding send_verification_request check_email check_ip send_if
  send_verification_request_refused send_email email url forwarded e w h open_still full =
      let refused : (check email_limits (email_key email) w.now w.email_entries).0 ≡ false =
        ap (λ p. p.0)
          (check_open email_limits (email_key email) w.now w.email_entries e.count e.expires_at h
            open_still)
        ∙ ground arith in
      rw refused (refl, refl, refl)
