-- ===== src/Tests/Mails.antt =====
-- Mails over a relay that knows no TLS, and over one that does.
use ai_virtual_try_on.Prelude.{◌≡◌, refl, true, [], ◌∷◌}
use ai_virtual_try_on.Configuration.{SmtpEmailService}
use ai_virtual_try_on.Mail.{
  Command, connect, starttls, login, send_message, Reply, accepted, delivery_error,
  email_delivery_error, message_for, run_commands, run_session, quit_session, send_smtp, quit,
}
use ai_virtual_try_on.Mail.Secrecy.{is_sent, all_accepted, session, is_guarded, send_smtp_lem}

abbrev service : SmtpEmailService
service = record {
  host = "mail.x.org";
  port = 587;
  username = "app";
  password = "pw";
  use_tls = true;
  from_address = "no-reply@x.org";
  from_name = "AI Try-On";
}

abbrev open_relay : Command → Reply
open_relay c = accepted

abbrev plain_relay : Command → Reply
plain_relay (connect host port) = accepted
plain_relay starttls = delivery_error
plain_relay (login username password) = accepted
plain_relay (send_message message) = accepted
plain_relay quit = accepted

send_smtp_lem_example :
    let (end, made) = send_smtp open_relay service 30 "ann@x.org" "https://x.org" in
    (is_sent end
      ≡ all_accepted open_relay
          (session service (message_for service 30 "ann@x.org" "https://x.org")))
    × (is_guarded open_relay made ≡ true)
send_smtp_lem_example = send_smtp_lem open_relay service 30 "ann@x.org" "https://x.org" refl

no_tls_no_mail :
    send_smtp plain_relay service 30 "ann@x.org" "https://x.org"
    ≡ (email_delivery_error, connect "mail.x.org" 587 ∷ starttls ∷ quit ∷ [])
unfolding send_smtp run_session quit_session run_commands
no_tls_no_mail = refl
