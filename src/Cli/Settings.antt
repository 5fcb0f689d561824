-- ===== src/Cli/Settings.antt =====
-- What a user can ask for on the command line, the arguments for it, and what it changes.
use Prim.Native.Char.{code}
use opc_server.Prelude.{ℕ, List, [], ◌∷◌, ◌++◌, Option, some, String, true, false, ◌==◌, ◌≡◌, ltb}
use opc_server.Prelude.Int.{ℤ, pos}
use opc_server.Cli.{CliOptions, LogLevelOption, MetricsExportOption}

-- What a user can ask for. A number comes with the text that stands for it.
pub data Setting : Type 0 where
  show_help show_version run_once print_watchlist doctor strict_certs accept_untrusted
        deny_anonymous allow_anonymous allow_none_password allow_identity allow_none_certificate
        no_opcua no_historian :
      Setting
  certificate private_key project database journal log_path collector trusted revoked :
      String → Setting
  user : String → String → Setting
  period capacity : String → ℕ → Setting
  level : LogLevelOption → Setting
  metrics traces : MetricsExportOption → Setting

abbrev pub print_level : LogLevelOption → String
print_level LogLevelOption.trace = "trace"
print_level LogLevelOption.debug = "debug"
print_level LogLevelOption.info = "info"
print_level LogLevelOption.warn = "warn"
print_level LogLevelOption.error = "error"

abbrev pub print_export : MetricsExportOption → String
print_export MetricsExportOption.no_export = "none"
print_export MetricsExportOption.ostream = "ostream"
print_export MetricsExportOption.otlp_http = "otlp"

-- The name, a colon and the password.
abbrev pub join_user : String → String → String
join_user String.[] pass = String.◌∷◌ ":" pass
join_user (String.◌∷◌ c name) pass = String.◌∷◌ c (join_user name pass)

-- The arguments for a setting.
abbrev pub print_setting : Setting → List String
print_setting Setting.show_help = "--help" ∷ []
print_setting Setting.show_version = "--version" ∷ []
print_setting Setting.run_once = "--once" ∷ []
print_setting Setting.print_watchlist = "--watch" ∷ []
print_setting Setting.doctor = "--runtime-doctor" ∷ []
print_setting Setting.strict_certs = "--ua-strict-certs" ∷ []
print_setting Setting.accept_untrusted = "--ua-accept-untrusted" ∷ []
print_setting Setting.deny_anonymous = "--ua-deny-anonymous" ∷ []
print_setting Setting.allow_anonymous = "--ua-allow-anonymous" ∷ []
print_setting Setting.allow_none_password = "--ua-allow-none-password" ∷ []
print_setting Setting.allow_identity = "--ua-allow-certificate-identity" ∷ []
print_setting Setting.allow_none_certificate = "--ua-allow-none-certificate" ∷ []
print_setting Setting.no_opcua = "--no-opcua" ∷ []
print_setting Setting.no_historian = "--no-historian" ∷ []
print_setting (Setting.certificate text) = "--ua-cert" ∷ text ∷ []
print_setting (Setting.private_key text) = "--ua-key" ∷ text ∷ []
print_setting (Setting.project text) = "--project" ∷ text ∷ []
print_setting (Setting.database text) = "--historian-db" ∷ text ∷ []
print_setting (Setting.journal text) = "--frame-log" ∷ text ∷ []
print_setting (Setting.log_path text) = "--log-file" ∷ text ∷ []
print_setting (Setting.collector text) = "--otlp-endpoint" ∷ text ∷ []
print_setting (Setting.trusted text) = "--ua-trust" ∷ text ∷ []
print_setting (Setting.revoked text) = "--ua-crl" ∷ text ∷ []
print_setting (Setting.user name pass) = "--ua-user" ∷ join_user name pass ∷ []
print_setting (Setting.period text n) = "--period-ms" ∷ text ∷ []
print_setting (Setting.capacity text n) = "--historian-capacity" ∷ text ∷ []
print_setting (Setting.level l) = "--log-level" ∷ print_level l ∷ []
print_setting (Setting.metrics e) = "--metrics-export" ∷ print_export e ∷ []
print_setting (Setting.traces e) = "--traces-export" ∷ print_export e ∷ []

-- What a setting changes.
abbrev pub apply : Setting → CliOptions → CliOptions
apply Setting.show_help o = record o { help = true }
apply Setting.show_version o = record o { version = true }
apply Setting.run_once o = record o { once = true }
apply Setting.print_watchlist o = record o { watch = true }
apply Setting.doctor o = record o { runtime_doctor = true }
apply Setting.strict_certs o = record o { ua_strict_certs = true }
apply Setting.accept_untrusted o = record o { ua_accept_untrusted = true }
apply Setting.deny_anonymous o = record o { ua_deny_anonymous = true }
apply Setting.allow_anonymous o = record o { ua_allow_anonymous = true }
apply Setting.allow_none_password o = record o { ua_allow_none_password = true }
apply Setting.allow_identity o = record o { ua_allow_certificate_identity = true }
apply Setting.allow_none_certificate o = record o { ua_allow_none_certificate = true }
apply Setting.no_opcua o = record o { enable_opcua = false }
apply Setting.no_historian o = record o { enable_historian = false }
apply (Setting.certificate text) o = record o { ua_cert_path = text }
apply (Setting.private_key text) o = record o { ua_key_path = text }
apply (Setting.project text) o = record o { project_path = text }
apply (Setting.database text) o = record o { historian_db = text }
apply (Setting.journal text) o = record o { frame_log_path = text }
apply (Setting.log_path text) o = record o { log_file = text }
apply (Setting.collector text) o = record o { otlp_endpoint = text }
apply (Setting.trusted text) o = record o { ua_trust_paths = o.ua_trust_paths ++ text ∷ [] }
apply (Setting.revoked text) o = record o {
  ua_revocation_paths = o.ua_revocation_paths ++ text ∷ [];
}
apply (Setting.user name pass) o = record o {
  ua_users = o.ua_users ++ record { username = name; password = pass } ∷ [];
}
apply (Setting.period text n) o = record o { watch_period_ms = pos n }
apply (Setting.capacity text n) o = record o { historian_capacity = n }
apply (Setting.level l) o = record o { log_level = l }
apply (Setting.metrics e) o = record o { metrics_export = e }
apply (Setting.traces e) o = record o { traces_export = e }

abbrev pub print_settings : List Setting → List String
print_settings [] = []
print_settings (s ∷ settings) = print_setting s ++ print_settings settings

abbrev pub apply_all : List Setting → CliOptions → CliOptions
apply_all [] o = o
apply_all (s ∷ settings) o = apply_all settings (apply s o)

abbrev pub HasNoColon : String → Type 0
HasNoColon String.[] = Unit
HasNoColon (String.◌∷◌ c s) = ((code c == 58) ≡ false) × HasNoColon s

abbrev pub IsUserName : String → Type 0
IsUserName String.[] = ⊥
IsUserName (String.◌∷◌ c s) = HasNoColon (String.◌∷◌ c s)

-- A number is the one that its text is read as, a capacity is positive, and a user name is not empty
-- and has no colon.
abbrev pub IsPrintable : (String → Option ℤ) → Setting → Type 0
IsPrintable stoi (Setting.user name pass) = IsUserName name
IsPrintable stoi (Setting.period text n) = stoi text ≡ some (pos n)
IsPrintable stoi (Setting.capacity text n) = (stoi text ≡ some (pos n)) × (ltb n 1 ≡ false)
IsPrintable stoi _ = Unit
