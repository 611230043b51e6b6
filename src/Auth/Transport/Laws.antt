-- ===== src/Auth/Transport/Laws.antt =====
-- How a message can fail.
use canonizr_hda.Prelude.{Text, text, ◌≡◌, refl, none}
use canonizr_hda.World.Actions.{
  Fault, email_send_error, auth_error, api_error, rate_limit_error, redirect, not_found, failure,
  handle, Outcome, ok, err, Env, World, Action,
}
use canonizr_hda.Auth.Email.{VerificationEmail}
use canonizr_hda.Auth.Transport.{
  MailConfig, EmailClient, set?, as_send_error, send_via_azure, send_by, send_email,
}

-- Whatever Azure does, a failure that reaches the caller is an error of sending.
pub IsSendError : {A : Type 0} → Outcome A → Type 0
IsSendError (ok a) = Unit
IsSendError (err e) = (status : Text) × (e ≡ email_send_error status)

module _ {env : Env} where
  as_send_error-IsSendError : (e : Fault) (w : World env) → IsSendError (as_send_error e w).0
  unfolding as_send_error IsSendError
  as_send_error-IsSendError (email_send_error status) w = (status, refl)
  as_send_error-IsSendError (auth_error code) w = (text "TransportError", refl)
  as_send_error-IsSendError (api_error status message) w = (text "TransportError", refl)
  as_send_error-IsSendError rate_limit_error w = (text "TransportError", refl)
  as_send_error-IsSendError (redirect to) w = (text "TransportError", refl)
  as_send_error-IsSendError not_found w = (text "TransportError", refl)
  as_send_error-IsSendError (failure message) w = (text "TransportError", refl)

  handled : (o : Outcome Unit × World env) → IsSendError (handle o as_send_error).0
  unfolding IsSendError
  handled (ok a, w) = tt
  handled (err e, w) = as_send_error-IsSendError e w

  -- Without the stub, whatever fails on the way to Azure, the configuration included, reaches the caller
  -- as an error of sending.
  pub send_email-IsSendError :
      (post : Text → Text → VerificationEmail → Action env Unit)
      (send : EmailClient → Text → VerificationEmail → Action env Text) (config : MailConfig)
      (to : Text) (content : VerificationEmail) (w : World env)
      → set? config.mail_stub ≡ none
      → IsSendError (send_email post send config to content w).0
  unfolding send_email send_by send_via_azure
  send_email-IsSendError post send config to content w h = rw h (handled _)
