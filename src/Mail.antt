-- ===== src/Mail.antt =====
-- EmailService of backend/app/services/email_service.py: the password reset mail, as the SMTP commands
-- that its sending makes. What smtplib does is an argument: which commands raise SMTPException or
-- OSError, and which another exception. The `with` block ends with QUIT, after an error too; a
-- relay that hangs up on QUIT counts as accepting it, since smtplib passes over that. The text of a
-- mail stands as its link and its minutes.
pub mod Secrecy
use ai_virtual_try_on.Prelude.{
  ℕ, String, Bool, true, false, not, List, [], ◌∷◌, ◌++◌, str_eq, if◌then◌else◌,
}
use ai_virtual_try_on.Configuration.{SmtpEmailService, EmailService, console_service, smtp_service}

pub record EmailMessage : Type 0 where
  pub sender_name : String
  pub sender : String
  pub recipient : String
  pub reset_url : String
  pub expire_minutes : ℕ

-- The calls of smtplib: `SMTP(host, port)`, `starttls`, `login`, `send_message`, and the QUIT of
-- `__exit__`.
pub data Command : Type 0 where
  connect : String → ℕ → Command
  starttls : Command
  login : String → String → Command
  send_message : EmailMessage → Command
  quit : Command

-- How smtplib answers a command.
pub data Reply : Type 0 where
  accepted : Reply
  delivery_error : Reply
  other_error : Reply

-- How the call ends: sent, with EmailDeliveryError, or with another exception.
pub data MailEnd : Type 0 where
  sent : MailEnd
  email_delivery_error : MailEnd
  propagates : MailEnd

abbrev pub message_for : SmtpEmailService → ℕ → String → String → EmailMessage
message_for s minutes to_email reset_url = record {
  sender_name = s.from_name;
  sender = s.from_address;
  recipient = to_email;
  reset_url = reset_url;
  expire_minutes = minutes;
}

-- The commands of the `with` block, in order.
abbrev pub commands : SmtpEmailService → EmailMessage → List Command
commands s message =
    ((if s.use_tls then starttls ∷ [] else [])
      ++ ((if not (str_eq s.username "") then login s.username s.password ∷ [] else [])
          ++ send_message message ∷ []))

-- The commands up to the first that raises; those made are logged.
unfoldable pub run_commands : (Command → Reply) → List Command → MailEnd × List Command
run_commands relay [] = (sent, [])
run_commands relay (c ∷ rest) =
    let (end, made) = run_commands relay rest in
    elim (relay c) [
      | accepted ↦ (end, c ∷ made)
      | delivery_error ↦ (email_delivery_error, c ∷ [])
      | other_error ↦ (propagates, c ∷ [])
    ]

-- The block ends with QUIT: its exception takes the place of the one before.
unfoldable pub quit_session : (Command → Reply) → MailEnd × List Command → MailEnd × List Command
quit_session relay (end, made) = elim (relay quit) [
  | accepted ↦ (end, made ++ quit ∷ [])
  | delivery_error ↦ (email_delivery_error, made ++ quit ∷ [])
  | other_error ↦ (propagates, made ++ quit ∷ [])
]

-- `with smtplib.SMTP(host, port) as server`: a connection that fails enters no block.
unfoldable pub run_session : (Command → Reply) → Command → List Command → MailEnd × List Command
run_session relay opening block =
    let (end, made) = quit_session relay (run_commands relay block) in
    elim (relay opening) [
      | accepted ↦ (end, opening ∷ made)
      | delivery_error ↦ (email_delivery_error, opening ∷ [])
      | other_error ↦ (propagates, opening ∷ [])
    ]

-- SmtpEmailService.send_password_reset_email
unfoldable pub send_smtp :
    (Command → Reply) → SmtpEmailService → ℕ → String → String → MailEnd × List Command
send_smtp relay s minutes to_email reset_url =
    run_session relay (connect s.host s.port)
      (commands s (message_for s minutes to_email reset_url))

-- The console service makes no command.
abbrev pub send_password_reset_email :
    (Command → Reply) → EmailService → ℕ → String → String → MailEnd × List Command
send_password_reset_email relay console_service minutes to_email reset_url = (sent, [])
send_password_reset_email relay (smtp_service s) minutes to_email reset_url =
    send_smtp relay s minutes to_email reset_url
