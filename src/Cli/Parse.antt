-- ===== src/Cli/Parse.antt =====
-- Src/app/cli_options.cpp: parsing the command line. The arguments come without the program's name.
-- std::stoi, which takes a number from the front of a text, is a parameter: `none` is a throw.
use opc_server.Prelude.{
  List, [], ◌∷◌, ◌++◌, Option, String, Bool, true, false, ◌||◌, ltb, if◌then◌else◌,
}
use opc_server.Prelude.Int.{ℤ, pos, negsuc}
use opc_server.Prelude.Eq.{◌=?◌, string_eq}
use opc_server.Prelude.Text.{concat}
use opc_server.Cli.{
  CliOptions, default_options, parse_log_level, parse_metrics_export, add_error, split_at_colon,
  add_user, set_period, set_capacity, set_log_level, set_metrics, set_traces,
}

-- What an argument means: a setting; or a setting by the next argument, and the message if there is
-- none; or nothing.
pub data Argument : Type 0 where
  flag : (CliOptions → CliOptions) → Argument
  valued : String → (String → CliOptions → CliOptions) → Argument
  unknown : Argument

unfoldable pub argument : (String → Option ℤ) → String → Argument
argument stoi arg =
    if (arg =? "--help") || (arg =? "-h")
    then Argument.flag (λ o. record o { help = true })
    else if (arg =? "--version") || (arg =? "-V")
    then Argument.flag (λ o. record o { version = true })
    else if arg =? "--once"
    then Argument.flag (λ o. record o { once = true })
    else if arg =? "--watch"
    then Argument.flag (λ o. record o { watch = true })
    else if arg =? "--runtime-doctor"
    then Argument.flag (λ o. record o { runtime_doctor = true })
    else if arg =? "--ua-strict-certs"
    then Argument.flag (λ o. record o { ua_strict_certs = true })
    else if arg =? "--ua-accept-untrusted"
    then Argument.flag (λ o. record o { ua_accept_untrusted = true })
    else if arg =? "--ua-deny-anonymous"
    then Argument.flag (λ o. record o { ua_deny_anonymous = true })
    else if arg =? "--ua-allow-anonymous"
    then Argument.flag (λ o. record o { ua_allow_anonymous = true })
    else if arg =? "--ua-allow-none-password"
    then Argument.flag (λ o. record o { ua_allow_none_password = true })
    else if arg =? "--ua-allow-certificate-identity"
    then Argument.flag (λ o. record o { ua_allow_certificate_identity = true })
    else if arg =? "--ua-allow-none-certificate"
    then Argument.flag (λ o. record o { ua_allow_none_certificate = true })
    else if arg =? "--ua-user"
    then Argument.valued "--ua-user requires user:pass" (λ s o. add_user (split_at_colon s) o)
    else if arg =? "--ua-cert"
    then Argument.valued "--ua-cert requires a path" (λ s o. record o { ua_cert_path = s })
    else if arg =? "--ua-key"
    then Argument.valued "--ua-key requires a path" (λ s o. record o { ua_key_path = s })
    else if arg =? "--ua-trust"
    then Argument.valued "--ua-trust requires a path"
        (λ s o. record o { ua_trust_paths = o.ua_trust_paths ++ s ∷ [] })
    else if arg =? "--ua-crl"
    then Argument.valued "--ua-crl requires a path"
        (λ s o. record o { ua_revocation_paths = o.ua_revocation_paths ++ s ∷ [] })
    else if arg =? "--no-opcua"
    then Argument.flag (λ o. record o { enable_opcua = false })
    else if arg =? "--no-historian"
    then Argument.flag (λ o. record o { enable_historian = false })
    else if arg =? "--project"
    then Argument.valued "--project requires a path" (λ s o. record o { project_path = s })
    else if arg =? "--period-ms"
    then Argument.valued "--period-ms requires a number" (λ s o. set_period (stoi s) o)
    else if arg =? "--historian-capacity"
    then Argument.valued "--historian-capacity requires a number" (λ s o. set_capacity (stoi s) o)
    else if arg =? "--historian-db"
    then Argument.valued "--historian-db requires a path" (λ s o. record o { historian_db = s })
    else if arg =? "--frame-log"
    then Argument.valued "--frame-log requires a path" (λ s o. record o { frame_log_path = s })
    else if arg =? "--log-level"
    then Argument.valued "--log-level requires a value" (λ s o. set_log_level (parse_log_level s) o)
    else if arg =? "--log-file"
    then Argument.valued "--log-file requires a path" (λ s o. record o { log_file = s })
    else if arg =? "--metrics-export"
    then Argument.valued "--metrics-export requires a value"
        (λ s o. set_metrics (parse_metrics_export s) o)
    else if arg =? "--traces-export"
    then Argument.valued "--traces-export requires a value"
        (λ s o. set_traces (parse_metrics_export s) o)
    else if arg =? "--otlp-endpoint"
    then Argument.valued "--otlp-endpoint requires a URL" (λ s o. record o { otlp_endpoint = s })
    else Argument.unknown

-- An argument that nothing comes after.
abbrev pub last_argument : Argument → String → CliOptions → CliOptions
last_argument (Argument.flag set) arg o = set o
last_argument (Argument.valued missing set) arg o = add_error missing o
last_argument Argument.unknown arg o = add_error (concat "unknown argument: " arg) o

-- The loop of parse_cli.
unfoldable pub parse_args : (String → Option ℤ) → List String → CliOptions → CliOptions
parse_args stoi [] o = o
parse_args stoi (arg ∷ []) o = last_argument (argument stoi arg) arg o
parse_args stoi (arg ∷ next ∷ rest) o = elim (argument stoi arg) [
  | Argument.flag set ↦ parse_args stoi (next ∷ rest) (set o)
  | Argument.valued missing set ↦ parse_args stoi rest (set next o)
  | Argument.unknown ↦ parse_args stoi (next ∷ rest) (add_error (concat "unknown argument: " arg) o)
]

abbrev pub is_below_ten : ℤ → Bool
is_below_ten (pos n) = ltb n 10
is_below_ten (negsuc n) = true

abbrev pub check_period : CliOptions → CliOptions
check_period o =
    if is_below_ten o.watch_period_ms then add_error "--period-ms must be >= 10" o else o

unfoldable pub parse_cli : (String → Option ℤ) → List String → CliOptions
parse_cli stoi args = check_period (parse_args stoi args default_options)
