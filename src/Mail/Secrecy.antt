-- ===== src/Mail/Secrecy.antt =====
-- Nothing secret goes over the wire before TLS, and only a whole session counts as sent.
use ai_virtual_try_on.Prelude.{
  ℕ, ◌≡◌, refl, String, Bool, true, false, ◌&&◌, List, [], ◌∷◌, ◌++◌, arith, if◌then◌else◌,
}
use ai_virtual_try_on.Configuration.{SmtpEmailService}
use ai_virtual_try_on.Mail.{
  EmailMessage, Command, connect, starttls, login, send_message, quit, Reply, accepted,
  delivery_error, other_error, MailEnd, sent, email_delivery_error, propagates, message_for,
  commands, run_commands, quit_session, run_session, send_smtp,
}

abbrev pub is_secret : Command → Bool
is_secret (connect host port) = false
is_secret starttls = false
is_secret (login username password) = true
is_secret (send_message message) = true
is_secret quit = false

abbrev pub is_accepted : Reply → Bool
is_accepted accepted = true
is_accepted delivery_error = false
is_accepted other_error = false

abbrev pub is_sent : MailEnd → Bool
is_sent sent = true
is_sent email_delivery_error = false
is_sent propagates = false

-- No secret command is made before a starttls that is accepted.
abbrev pub is_guarded : (Command → Reply) → List Command → Bool
is_guarded relay [] = true
is_guarded relay (starttls ∷ rest) =
    let guarded = is_guarded relay rest in if is_accepted (relay starttls) then true else guarded
is_guarded relay (connect host port ∷ rest) = is_guarded relay rest
is_guarded relay (login username password ∷ rest) = false
is_guarded relay (send_message message ∷ rest) = false
is_guarded relay (quit ∷ rest) = is_guarded relay rest

abbrev pub all_accepted : (Command → Reply) → List Command → Bool
all_accepted relay [] = true
all_accepted relay (c ∷ rest) = is_accepted (relay c) && all_accepted relay rest

run-is_sent :
    (relay : Command → Reply) (cs : List Command)
    → is_sent (run_commands relay cs).0 ≡ all_accepted relay cs
unfolding run_commands
run-is_sent relay [] = refl
run-is_sent relay (c ∷ cs) = ground (arith, run-is_sent relay cs)

-- The commands of a whole session.
abbrev pub session : SmtpEmailService → EmailMessage → List Command
session s message = connect s.host s.port ∷ (commands s message ++ quit ∷ [])

all_accepted-append :
    (relay : Command → Reply) (cs ds : List Command)
    → all_accepted relay (cs ++ ds) ≡ (all_accepted relay cs && all_accepted relay ds)
all_accepted-append relay [] ds = refl
all_accepted-append relay (c ∷ cs) ds = ground (arith, all_accepted-append relay cs ds)

quit-is_sent :
    (relay : Command → Reply) (end : MailEnd) (made : List Command)
    → is_sent (quit_session relay (end, made)).0 ≡ (is_sent end && is_accepted (relay quit))
unfolding quit_session
quit-is_sent relay end made = ground arith

session-is_sent :
    (relay : Command → Reply) (opening : Command) (block : List Command)
    → is_sent (run_session relay opening block).0
      ≡ all_accepted relay (opening ∷ (block ++ quit ∷ []))
unfolding run_session
session-is_sent relay opening block = ground (
  arith,
  run-is_sent relay block,
  quit-is_sent relay (run_commands relay block).0 (run_commands relay block).1,
  all_accepted-append relay block (quit ∷ []),
)

-- A mail is sent exactly if the relay accepts every command of the session, QUIT at its end too; and with TLS neither the
-- password nor the message leaves before the relay has accepted starttls, however it answers.
pub send_smtp_lem :
    (relay : Command → Reply) (s : SmtpEmailService) (minutes : ℕ) (to_email reset_url : String)
    → s.use_tls ≡ true
    → let (end, made) = send_smtp relay s minutes to_email reset_url in
      (is_sent end ≡ all_accepted relay (session s (message_for s minutes to_email reset_url)))
      × (is_guarded relay made ≡ true)
unfolding send_smtp run_session quit_session run_commands
send_smtp_lem relay s minutes to_email reset_url tls = (
  session-is_sent relay (connect s.host s.port)
      (commands s (message_for s minutes to_email reset_url)),
  ground (arith, tls),
)
