-- ===== src/Configuration.antt =====
-- The checks of backend/app/config.py that run before the app serves a request, and the choice of the
-- mail service by lifespan of backend/app/main.py (backend/app/services/email_service.py). The other
-- settings, and what else lifespan builds, are left out.
pub mod Startup
use Prim.Native.Char.{code}
use mathlib.Core.Option
use ai_virtual_try_on.Prelude.{
  ℕ, String, Bool, true, false, not, Option, none, some, List, [], ◌∷◌, ◌++◌, ◌==◌, str_eq, any_of,
  if◌then◌else◌,
}

-- `Literal["console", "smtp"]`
pub data EmailProvider : Type 0 where
  console smtp : EmailProvider

pub record Settings : Type 0 where
  pub environment : String
  pub jwt_secret_key : String
  pub database_url : String
  pub cors_origins : List String
  pub email_provider : EmailProvider
  pub smtp_host : String
  pub smtp_port : ℕ
  pub smtp_username : String
  pub smtp_password : String
  pub smtp_use_tls : Bool
  pub email_from_address : String
  pub email_from_name : String

abbrev pub insecure_jwt_secret_key : String
insecure_jwt_secret_key = "dev-only-insecure-secret-change-me"

abbrev pub insecure_database_credential_marker : String
insecure_database_credential_marker = "devpassword"

-- `needle in text`, on code points.
abbrev pub codes : String → List ℕ
codes String.[] = []
codes (String.◌∷◌ c s) = code c ∷ codes s

unfoldable pub starts_with : List ℕ → List ℕ → Bool
starts_with [] text = true
starts_with (n ∷ needle) [] = false
starts_with (n ∷ needle) (c ∷ text) =
    let rest = starts_with needle text in if n == c then rest else false

unfoldable pub contains : List ℕ → List ℕ → Bool
contains needle [] = starts_with needle []
contains needle (c ∷ text) =
    let rest = contains needle text in if starts_with needle (c ∷ text) then true else rest

unfoldable pub has_marker : Settings → Bool
has_marker s = contains (codes insecure_database_credential_marker) (codes s.database_url)

abbrev pub is_production : Settings → Bool
is_production s = str_eq s.environment "production"

-- InsecureProductionConfigError with its introduction and problems, or ValueError.
pub data StartError : Type 0 where
  insecure_production : String → List String → StartError
  value_error : String → StartError

abbrev pub raise_problems : String → List String → Option StartError
raise_problems intro [] = none
raise_problems intro (p ∷ problems) = some (insecure_production intro (p ∷ problems))

abbrev pub secret_problems : Settings → List String
secret_problems s =
    (if str_eq s.jwt_secret_key insecure_jwt_secret_key
      then "AITRYON_JWT_SECRET_KEY is still the insecure local-dev default. Generate a real one with: python -c \"import secrets; print(secrets.token_hex(32))\""
        ∷ []
      else [])
    ++ (if has_marker s
        then "AITRYON_DATABASE_URL still contains the insecure local-dev database credential. Set it to your production database's own connection string."
          ∷ []
        else [])

abbrev pub check_production_secrets : Settings → Option StartError
check_production_secrets s =
    if not (is_production s)
    then none
    else raise_problems
        "Refusing to start with AITRYON_ENVIRONMENT=production while insecure development defaults are still in use:"
        (secret_problems s)

abbrev pub check_production_cors : Settings → Option StartError
check_production_cors s =
    if not (is_production s)
    then none
    else if any_of (λ origin. str_eq origin "*") s.cors_origins
    then some (
        insecure_production
          "Refusing to start with AITRYON_ENVIRONMENT=production while AITRYON_CORS_ORIGINS contains a wildcard (\"*\"). Set it to your production frontend's exact origin(s)."
          [])
    else none

abbrev pub email_problems : EmailProvider → Settings → List String
email_problems console s =
    "AITRYON_EMAIL_PROVIDER is still \"console\" (prints password reset links to the server console instead of emailing them). Set AITRYON_EMAIL_PROVIDER=smtp and the accompanying AITRYON_SMTP_*/AITRYON_EMAIL_FROM_ADDRESS settings."
    ∷ []
email_problems smtp s =
    (if str_eq s.smtp_host ""
      then "AITRYON_SMTP_HOST is required when AITRYON_EMAIL_PROVIDER=smtp." ∷ []
      else [])
    ++ (if str_eq s.email_from_address ""
        then "AITRYON_EMAIL_FROM_ADDRESS is required when AITRYON_EMAIL_PROVIDER=smtp." ∷ []
        else [])

abbrev pub check_production_email_provider : Settings → Option StartError
check_production_email_provider s =
    if not (is_production s)
    then none
    else raise_problems
        "Refusing to start with AITRYON_ENVIRONMENT=production while email delivery isn't properly configured:"
        (email_problems s.email_provider s)

pub record SmtpEmailService : Type 0 where
  pub host : String
  pub port : ℕ
  pub username : String
  pub password : String
  pub use_tls : Bool
  pub from_address : String
  pub from_name : String

pub data EmailService : Type 0 where
  console_service : EmailService
  smtp_service : SmtpEmailService → EmailService

-- The settings pass, with the mail service that the app gets, or an error stops the start.
pub data Start : Type 0 where
  started : EmailService → Start
  refused : StartError → Start

abbrev pub smtp_email_service : Settings → Start
smtp_email_service s =
    if str_eq s.smtp_host ""
    then refused (value_error "SmtpEmailService requires a non-empty host (AITRYON_SMTP_HOST).")
    else if str_eq s.email_from_address ""
    then refused (
        value_error
          "SmtpEmailService requires a non-empty from_address (AITRYON_EMAIL_FROM_ADDRESS).")
    else started (
        smtp_service (record {
          host = s.smtp_host;
          port = s.smtp_port;
          username = s.smtp_username;
          password = s.smtp_password;
          use_tls = s.smtp_use_tls;
          from_address = s.email_from_address;
          from_name = s.email_from_name;
        }))

abbrev pub email_service : EmailProvider → Settings → Start
email_service smtp s = smtp_email_service s
email_service console s = started console_service

abbrev pub unless_refused : Option StartError → Start → Start
unless_refused (some e) next = refused e
unless_refused none next = next

-- The three calls at the end of config.py, and lifespan.
unfoldable pub startup : Settings → Start
startup s = unless_refused (check_production_secrets s) (
    unless_refused (check_production_cors s)
      (unless_refused (check_production_email_provider s) (email_service s.email_provider s)))
