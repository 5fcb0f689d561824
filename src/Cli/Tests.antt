-- ===== src/Cli/Tests.antt =====
-- A command line with a flag, a path, a user, a number and a level.
use opc_server.Prelude.{List, [], ◌∷◌, Option, some, String, ◌≡◌, refl}
use opc_server.Prelude.Int.{ℤ, pos}
use opc_server.Cli.{LogLevelOption, default_options}
use opc_server.Cli.Parse.{parse_cli, check_period}
use opc_server.Cli.Settings.{Setting, print_settings, apply_all}
use opc_server.Cli.RoundTrip.{parse_cli-print_settings}

-- Reads every text as 500.
abbrev five_hundred : String → Option ℤ
five_hundred text = some (pos 500)

abbrev wanted : List Setting
wanted =
    Setting.run_once
    ∷ Setting.project "plant.json"
    ∷ Setting.user "ann" "se:cret"
    ∷ Setting.period "500" 500
    ∷ Setting.capacity "500" 500
    ∷ Setting.level LogLevelOption.debug
    ∷ []

parse_cli-print_settings_example :
    parse_cli five_hundred (print_settings wanted) ≡ check_period (apply_all wanted default_options)
parse_cli-print_settings_example =
    parse_cli-print_settings five_hundred wanted
      (tt, (tt, ((refl, (refl, (refl, tt))), (refl, ((refl, refl), (tt, tt))))))
