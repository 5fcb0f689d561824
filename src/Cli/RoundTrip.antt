-- ===== src/Cli/RoundTrip.antt =====
-- The arguments that stand for a list of settings set exactly these.
use opc_server.Prelude.{
  ℕ, List, [], ◌∷◌, ◌++◌, Option, some, String, false, ◌≡◌, All, refl, ap, ◌∙◌, ltb,
}
use opc_server.Prelude.Int.{ℤ, pos}
use opc_server.Cli.{
  CliOptions, LogLevelOption, MetricsExportOption, default_options, split_at_colon, parse_log_level,
  parse_metrics_export, add_user, before, set_period, set_capacity, set_log_level, set_metrics,
  set_traces,
}
use opc_server.Cli.Parse.{Argument, argument, parse_args, parse_cli, check_period}
use opc_server.Cli.Settings.{
  Setting, print_level, print_export, join_user, print_setting, apply, print_settings, apply_all,
  HasNoColon, IsUserName, IsPrintable,
}

parse_args-flag :
    (stoi : String → Option ℤ) (arg : String) (set : CliOptions → CliOptions) (rest : List String)
    (o : CliOptions)
    → argument stoi arg ≡ Argument.flag set
    → parse_args stoi (arg ∷ rest) o ≡ parse_args stoi rest (set o)
unfolding parse_args
parse_args-flag stoi arg set [] o h = rw h refl
parse_args-flag stoi arg set (next ∷ rest) o h = rw (h, parse_args) refl

parse_args-valued :
    (stoi : String → Option ℤ) (arg missing : String) (set : String → CliOptions → CliOptions)
    (next : String) (rest : List String) (o : CliOptions)
    → argument stoi arg ≡ Argument.valued missing set
    → parse_args stoi (arg ∷ next ∷ rest) o ≡ parse_args stoi rest (set next o)
unfolding parse_args
parse_args-valued stoi arg missing set next rest o h = rw (h, parse_args) refl

split_at_colon-join_user :
    (name pass : String)
    → HasNoColon name
    → split_at_colon (join_user name pass) ≡ some (name, pass)
unfolding split_at_colon
split_at_colon-join_user String.[] pass h = refl
split_at_colon-join_user (String.◌∷◌ c name) pass (plain, h) =
    rw plain (ap (before c) (split_at_colon-join_user name pass h))

add_user-join_user :
    (name pass : String) (o : CliOptions)
    → IsUserName name
    → add_user (split_at_colon (join_user name pass)) o ≡ apply (Setting.user name pass) o
add_user-join_user String.[] pass o h = elim h [ ]
add_user-join_user (String.◌∷◌ c name) pass o h =
    ap (λ parts. add_user parts o) (split_at_colon-join_user (String.◌∷◌ c name) pass h)

parse_log_level-print_level : (l : LogLevelOption) → parse_log_level (print_level l) ≡ some l
unfolding parse_log_level
parse_log_level-print_level LogLevelOption.trace = refl
parse_log_level-print_level LogLevelOption.debug = refl
parse_log_level-print_level LogLevelOption.info = refl
parse_log_level-print_level LogLevelOption.warn = refl
parse_log_level-print_level LogLevelOption.error = refl

parse_metrics_export-print_export :
    (e : MetricsExportOption) → parse_metrics_export (print_export e) ≡ some e
unfolding parse_metrics_export
parse_metrics_export-print_export MetricsExportOption.no_export = refl
parse_metrics_export-print_export MetricsExportOption.ostream = refl
parse_metrics_export-print_export MetricsExportOption.otlp_http = refl

set_capacity-pos :
    (n : ℕ) (o : CliOptions)
    → ltb n 1 ≡ false
    → set_capacity (some (pos n)) o ≡ record o { historian_capacity = n }
set_capacity-pos n o h = rw h refl

-- The arguments for a setting set it, whatever comes after them.
parse_args-print_setting :
    (stoi : String → Option ℤ) (s : Setting) (rest : List String) (o : CliOptions)
    → IsPrintable stoi s
    → parse_args stoi (print_setting s ++ rest) o ≡ parse_args stoi rest (apply s o)
unfolding argument
parse_args-print_setting stoi Setting.show_help rest o h =
    parse_args-flag stoi "--help" _ rest o refl
parse_args-print_setting stoi Setting.show_version rest o h =
    parse_args-flag stoi "--version" _ rest o refl
parse_args-print_setting stoi Setting.run_once rest o h =
    parse_args-flag stoi "--once" _ rest o refl
parse_args-print_setting stoi Setting.print_watchlist rest o h =
    parse_args-flag stoi "--watch" _ rest o refl
parse_args-print_setting stoi Setting.doctor rest o h =
    parse_args-flag stoi "--runtime-doctor" _ rest o refl
parse_args-print_setting stoi Setting.strict_certs rest o h =
    parse_args-flag stoi "--ua-strict-certs" _ rest o refl
parse_args-print_setting stoi Setting.accept_untrusted rest o h =
    parse_args-flag stoi "--ua-accept-untrusted" _ rest o refl
parse_args-print_setting stoi Setting.deny_anonymous rest o h =
    parse_args-flag stoi "--ua-deny-anonymous" _ rest o refl
parse_args-print_setting stoi Setting.allow_anonymous rest o h =
    parse_args-flag stoi "--ua-allow-anonymous" _ rest o refl
parse_args-print_setting stoi Setting.allow_none_password rest o h =
    parse_args-flag stoi "--ua-allow-none-password" _ rest o refl
parse_args-print_setting stoi Setting.allow_identity rest o h =
    parse_args-flag stoi "--ua-allow-certificate-identity" _ rest o refl
parse_args-print_setting stoi Setting.allow_none_certificate rest o h =
    parse_args-flag stoi "--ua-allow-none-certificate" _ rest o refl
parse_args-print_setting stoi Setting.no_opcua rest o h =
    parse_args-flag stoi "--no-opcua" _ rest o refl
parse_args-print_setting stoi Setting.no_historian rest o h =
    parse_args-flag stoi "--no-historian" _ rest o refl
parse_args-print_setting stoi (Setting.certificate text) rest o h =
    parse_args-valued stoi "--ua-cert" _ _ text rest o refl
parse_args-print_setting stoi (Setting.private_key text) rest o h =
    parse_args-valued stoi "--ua-key" _ _ text rest o refl
parse_args-print_setting stoi (Setting.project text) rest o h =
    parse_args-valued stoi "--project" _ _ text rest o refl
parse_args-print_setting stoi (Setting.database text) rest o h =
    parse_args-valued stoi "--historian-db" _ _ text rest o refl
parse_args-print_setting stoi (Setting.journal text) rest o h =
    parse_args-valued stoi "--frame-log" _ _ text rest o refl
parse_args-print_setting stoi (Setting.log_path text) rest o h =
    parse_args-valued stoi "--log-file" _ _ text rest o refl
parse_args-print_setting stoi (Setting.collector text) rest o h =
    parse_args-valued stoi "--otlp-endpoint" _ _ text rest o refl
parse_args-print_setting stoi (Setting.trusted text) rest o h =
    parse_args-valued stoi "--ua-trust" _ _ text rest o refl
parse_args-print_setting stoi (Setting.revoked text) rest o h =
    parse_args-valued stoi "--ua-crl" _ _ text rest o refl
parse_args-print_setting stoi (Setting.user name pass) rest o h =
    parse_args-valued stoi "--ua-user" _ _ _ rest o refl
    ∙ ap (parse_args stoi rest) (add_user-join_user name pass o h)
parse_args-print_setting stoi (Setting.period text n) rest o h =
    parse_args-valued stoi "--period-ms" _ _ text rest o refl
    ∙ ap (λ m. parse_args stoi rest (set_period m o)) h
parse_args-print_setting stoi (Setting.capacity text n) rest o (h, positive) =
    parse_args-valued stoi "--historian-capacity" _ _ text rest o refl
    ∙ ap (λ m. parse_args stoi rest (set_capacity m o)) h
    ∙ ap (parse_args stoi rest) (set_capacity-pos n o positive)
parse_args-print_setting stoi (Setting.level l) rest o h =
    parse_args-valued stoi "--log-level" _ _ _ rest o refl
    ∙ ap (λ m. parse_args stoi rest (set_log_level m o)) (parse_log_level-print_level l)
parse_args-print_setting stoi (Setting.metrics e) rest o h =
    parse_args-valued stoi "--metrics-export" _ _ _ rest o refl
    ∙ ap (λ m. parse_args stoi rest (set_metrics m o)) (parse_metrics_export-print_export e)
parse_args-print_setting stoi (Setting.traces e) rest o h =
    parse_args-valued stoi "--traces-export" _ _ _ rest o refl
    ∙ ap (λ m. parse_args stoi rest (set_traces m o)) (parse_metrics_export-print_export e)

parse_args-print_settings :
    (stoi : String → Option ℤ) (settings : List Setting) (o : CliOptions)
    → All (IsPrintable stoi) settings
    → parse_args stoi (print_settings settings) o ≡ apply_all settings o
unfolding parse_args
parse_args-print_settings stoi [] o h = refl
parse_args-print_settings stoi (s ∷ settings) o (h, hs) =
    parse_args-print_setting stoi s (print_settings settings) o h
    ∙ parse_args-print_settings stoi settings (apply s o) hs

-- For any list of settings whose numbers are what their texts are read as, whose capacities are
-- positive and whose user names are not empty and have no colon, the arguments for them, in order,
-- parse to the default options changed by each setting in order, with no error but the one for a
-- period below 10 ms.
pub parse_cli-print_settings :
    (stoi : String → Option ℤ) (settings : List Setting)
    → All (IsPrintable stoi) settings
    → parse_cli stoi (print_settings settings) ≡ check_period (apply_all settings default_options)
unfolding parse_cli
parse_cli-print_settings stoi settings h =
    ap check_period (parse_args-print_settings stoi settings default_options h)
