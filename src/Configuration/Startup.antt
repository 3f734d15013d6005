-- ===== src/Configuration/Startup.antt =====
-- Which settings the app starts with, and what it sends mail with.
use ai_virtual_try_on.Prelude.{
  ◌≡◌, ◌⊎◌, refl, Bool, true, false, not, ◌&&◌, ◌||◌, str_eq, any_of, arith, Bool-cases, inl, inr,
}
use ai_virtual_try_on.Configuration.{
  EmailProvider, console, smtp, Settings, insecure_jwt_secret_key, has_marker, is_production, Start,
  started, refused, console_service, smtp_service, startup,
}

abbrev pub is_smtp : EmailProvider → Bool
is_smtp smtp = true
is_smtp console = false

-- The settings that a mail service over SMTP needs.
abbrev pub names_relay : Settings → Bool
names_relay s = not (str_eq s.smtp_host "") && not (str_eq s.email_from_address "")

abbrev pub is_secure : Settings → Bool
is_secure s =
    not (str_eq s.jwt_secret_key insecure_jwt_secret_key)
    && (not (has_marker s) && not (any_of (λ origin. str_eq origin "*") s.cors_origins))

abbrev pub is_acceptable : Settings → Bool
is_acceptable s =
    (not (is_production s) || (is_secure s && is_smtp s.email_provider))
    && (not (is_smtp s.email_provider) || names_relay s)

abbrev pub runs : Start → Bool
runs (started service) = true
runs (refused e) = false

abbrev pub sends_mail : Start → Bool
sends_mail (started console_service) = false
sends_mail (started (smtp_service service)) = true
sends_mail (refused e) = false

provider_cases : (p : EmailProvider) → (p ≡ smtp) ⊎ (p ≡ console)
provider_cases smtp = inl refl
provider_cases console = inr refl

-- The app starts exactly with acceptable settings: in production the secret is not the default, the
-- database link has no development password, no origin is a wildcard and mail goes over SMTP; and
-- wherever mail goes over SMTP, the host and the sender are not blank. It sends real mail exactly if
-- it starts and the provider is SMTP.
pub startup_lem :
    (s : Settings)
    → (runs (startup s) ≡ is_acceptable s)
      × (sends_mail (startup s) ≡ (is_acceptable s && is_smtp s.email_provider))
unfolding startup
startup_lem s = elim (provider_cases s.email_provider) [
  | inl mail ↦ elim (Bool-cases (str_eq s.smtp_host "")) [
    | inl no_host ↦ ground arith
    | inr host ↦ ground arith
  ]
  | inr printed ↦ ground arith
]
