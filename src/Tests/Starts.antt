-- ===== src/Tests/Starts.antt =====
-- Settings that the app starts with, and some that it refuses.
use ai_virtual_try_on.Prelude.{◌≡◌, refl, true, false, ◌&&◌, [], ◌∷◌}
use ai_virtual_try_on.Configuration.{
  Settings, console, smtp, has_marker, starts_with, contains, started, console_service, startup,
}
use ai_virtual_try_on.Configuration.Startup.{runs, sends_mail, is_smtp, is_acceptable, startup_lem}

abbrev settings : Settings
settings = record {
  environment = "production";
  jwt_secret_key = "s3cret";
  database_url = "postgresql://app:pw@db/aitryon";
  cors_origins = "https://x.org" ∷ [];
  email_provider = smtp;
  smtp_host = "mail.x.org";
  smtp_port = 587;
  smtp_username = "app";
  smtp_password = "pw";
  smtp_use_tls = true;
  email_from_address = "no-reply@x.org";
  email_from_name = "AI Try-On";
}

startup_lem_example :
    (runs (startup settings) ≡ is_acceptable settings)
    × (sends_mail (startup settings) ≡ (is_acceptable settings && is_smtp settings.email_provider))
startup_lem_example = startup_lem settings

production_runs : is_acceptable settings ≡ true
unfolding has_marker contains starts_with
production_runs = refl

development_password :
    runs (startup (record settings { database_url = "postgresql://postgres:devpassword@db/a" }))
    ≡ false
unfolding startup has_marker contains starts_with
development_password = refl

wildcard_refused :
    runs (startup (record settings { cors_origins = "https://x.org" ∷ "*" ∷ [] })) ≡ false
unfolding startup has_marker contains starts_with
wildcard_refused = refl

-- Outside production the defaults do.
development_runs :
    startup (record settings {
      environment = "development";
      jwt_secret_key = "dev-only-insecure-secret-change-me";
      email_provider = console;
    })
    ≡ started console_service
unfolding startup
development_runs = refl
