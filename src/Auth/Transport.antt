-- ===== src/Auth/Transport.antt =====
-- How a message is sent, portal/lib/auth/email-transport.ts. Azure Communication Services and the
-- local stub are parameters: an operation may throw, and a send ends in a status.
use canonizr_hda.Prelude.{if◌then◌else◌, Text, text, text_eq, Option, none, some, [], ◌∷◌}
use canonizr_hda.World.Actions.{
  Fault, email_send_error, failure, Env, Action, ◌>>=◌, ◌>>◌, pure, raise, catch,
}
use canonizr_hda.Auth.Email.{VerificationEmail}
pub mod Laws

-- COMMS_ENDPOINT, COMMS_CONNECTION_STRING and MAIL_STUB_ENDPOINT.
pub record MailConfig : Type 0 where
  pub comms_endpoint : Option Text
  pub comms_connection_string : Option Text
  pub mail_stub : Option Text

-- A client of the endpoint with the managed identity, or of a connection string.
pub data EmailClient : Type 0 where
  managed connected : Text → EmailClient

abbrev pub set? : Option Text → Option Text
set? none = none
set? (some []) = none
set? (some (c ∷ s)) = some (c ∷ s)

unfoldable pub client_of : Option Text → Option Text → Option EmailClient
client_of (some endpoint) connection = some (managed endpoint)
client_of none (some connection) = some (connected connection)
client_of none none = none

module _ {env : Env} where
  unfoldable pub given : Option EmailClient → Action env EmailClient
  given none = raise (failure (text "Set COMMS_ENDPOINT or COMMS_CONNECTION_STRING"))
  given (some client) = pure client

  unfoldable pub get_email_client : MailConfig → Action env EmailClient
  get_email_client config =
      given (client_of (set? config.comms_endpoint) (set? config.comms_connection_string))

  -- A status other than "Succeeded" is thrown.
  unfoldable pub succeeded : Text → Action env Unit
  succeeded status =
      if text_eq status (text "Succeeded") then pure tt else raise (email_send_error status)

  unfoldable pub as_send_error : Fault → Action env Unit
  as_send_error (email_send_error status) = raise (email_send_error status)
  as_send_error e = raise (email_send_error (text "TransportError"))

  module _ (post : Text → Text → VerificationEmail → Action env Unit)
      (send : EmailClient → Text → VerificationEmail → Action env Text) where
    unfoldable pub send_via_azure : MailConfig → Text → VerificationEmail → Action env Unit
    send_via_azure config to content =
        catch
          (do client ← get_email_client config; status ← send client to content; succeeded status)
          as_send_error

    unfoldable pub send_by : Option Text → MailConfig → Text → VerificationEmail → Action env Unit
    send_by (some stub) config to content = post stub to content
    send_by none config to content = send_via_azure config to content

    unfoldable pub send_email : MailConfig → Text → VerificationEmail → Action env Unit
    send_email config to content = send_by (set? config.mail_stub) config to content
