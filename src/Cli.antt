-- ===== src/Cli.antt =====
-- Src/app/cli_options.cpp: the options of the command line, and how each of its values is set.
pub mod Parse
pub mod Settings
pub mod RoundTrip
mod Tests
use Prim.Native.Char.{Char, code}
use opc_server.Prelude.{
  ℕ, List, [], ◌∷◌, ◌++◌, Option, none, some, String, Bool, true, false, ◌||◌, ◌==◌, ltb,
  if◌then◌else◌,
}
use opc_server.Prelude.Int.{ℤ, pos, negsuc}
use opc_server.Prelude.Eq.{◌=?◌, string_eq}
use opc_server.Prelude.Text.{concat}

pub data LogLevelOption : Type 0 where
  trace debug info warn error : LogLevelOption

pub data MetricsExportOption : Type 0 where
  no_export ostream otlp_http : MetricsExportOption

pub record UaUser : Type 0 where
  pub username : String
  pub password : String

pub record CliOptions : Type 0 where
  pub project_path : String
  pub once : Bool
  pub watch : Bool
  pub watch_period_ms : ℤ
  pub enable_opcua : Bool
  pub enable_historian : Bool
  pub historian_capacity : ℕ
  pub historian_db : String
  pub frame_log_path : String
  pub log_level : LogLevelOption
  pub log_file : String
  pub metrics_export : MetricsExportOption
  pub traces_export : MetricsExportOption
  pub otlp_endpoint : String
  pub runtime_doctor : Bool
  pub ua_cert_path : String
  pub ua_key_path : String
  pub ua_trust_paths : List String
  pub ua_revocation_paths : List String
  pub ua_strict_certs : Bool
  pub ua_accept_untrusted : Bool
  pub ua_users : List UaUser
  pub ua_deny_anonymous : Bool
  pub ua_allow_anonymous : Bool
  pub ua_allow_none_password : Bool
  pub ua_allow_certificate_identity : Bool
  pub ua_allow_none_certificate : Bool
  pub help : Bool
  pub version : Bool
  pub errors : List String

abbrev pub default_options : CliOptions
default_options = record {
  project_path = "";
  once = false;
  watch = false;
  watch_period_ms = pos 1000;
  enable_opcua = true;
  enable_historian = true;
  historian_capacity = 4096;
  historian_db = "";
  frame_log_path = "";
  log_level = LogLevelOption.info;
  log_file = "";
  metrics_export = MetricsExportOption.no_export;
  traces_export = MetricsExportOption.no_export;
  otlp_endpoint = "";
  runtime_doctor = false;
  ua_cert_path = "";
  ua_key_path = "";
  ua_trust_paths = [];
  ua_revocation_paths = [];
  ua_strict_certs = false;
  ua_accept_untrusted = false;
  ua_users = [];
  ua_deny_anonymous = false;
  ua_allow_anonymous = false;
  ua_allow_none_password = false;
  ua_allow_certificate_identity = false;
  ua_allow_none_certificate = false;
  help = false;
  version = false;
  errors = [];
}

unfoldable pub parse_log_level : String → Option LogLevelOption
parse_log_level text =
    if text =? "trace"
    then some LogLevelOption.trace
    else if text =? "debug"
    then some LogLevelOption.debug
    else if text =? "info"
    then some LogLevelOption.info
    else if (text =? "warn") || (text =? "warning")
    then some LogLevelOption.warn
    else if text =? "error"
    then some LogLevelOption.error
    else none

unfoldable pub parse_metrics_export : String → Option MetricsExportOption
parse_metrics_export text =
    if text =? "none"
    then some MetricsExportOption.no_export
    else if (text =? "ostream") || (text =? "stdout")
    then some MetricsExportOption.ostream
    else if (text =? "otlp") || (text =? "otlp-http")
    then some MetricsExportOption.otlp_http
    else none

abbrev pub add_error : String → CliOptions → CliOptions
add_error message o = record o { errors = o.errors ++ message ∷ [] }

abbrev pub before : Char → Option (String × String) → Option (String × String)
before c none = none
before c (some (left, right)) = some (String.◌∷◌ c left, right)

-- What stands before and after the first colon.
unfoldable pub split_at_colon : String → Option (String × String)
split_at_colon String.[] = none
split_at_colon (String.◌∷◌ c rest) =
    let later = split_at_colon rest in
    if code c == 58 then some (String.[], rest) else before c later

abbrev pub add_user : Option (String × String) → CliOptions → CliOptions
add_user none o = add_error "--ua-user expects user:pass (non-empty user)" o
add_user (some (String.[], pass)) o = add_error "--ua-user expects user:pass (non-empty user)" o
add_user (some (String.◌∷◌ c name, pass)) o = record o {
  ua_users = o.ua_users ++ record { username = String.◌∷◌ c name; password = pass } ∷ [];
}

abbrev pub set_period : Option ℤ → CliOptions → CliOptions
set_period none o = add_error "invalid --period-ms value" o
set_period (some n) o = record o { watch_period_ms = n }

abbrev pub set_capacity : Option ℤ → CliOptions → CliOptions
set_capacity none o = add_error "invalid --historian-capacity value" o
set_capacity (some (negsuc n)) o = add_error "--historian-capacity must be >= 1" o
set_capacity (some (pos n)) o =
    if ltb n 1
    then add_error "--historian-capacity must be >= 1" o
    else record o { historian_capacity = n }

abbrev pub set_log_level : Option LogLevelOption → CliOptions → CliOptions
set_log_level none o = add_error "invalid --log-level (use trace|debug|info|warn|error)" o
set_log_level (some level) o = record o { log_level = level }

abbrev pub set_metrics : Option MetricsExportOption → CliOptions → CliOptions
set_metrics none o = add_error "invalid --metrics-export (use none|ostream|otlp)" o
set_metrics (some export) o = record o { metrics_export = export }

abbrev pub set_traces : Option MetricsExportOption → CliOptions → CliOptions
set_traces none o = add_error "invalid --traces-export (use none|ostream|otlp)" o
set_traces (some export) o = record o { traces_export = export }
