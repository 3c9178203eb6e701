-- ===== src/Tests/Config.antt =====
-- Command lines.
use netscope.Base.{Bytes, none, some, List, [], ◌∷◌, ◌≡◌, refl, length, arith}
use netscope.Run.{Returns}
use netscope.Util.Text.{decimal}
use netscope.Util.Format.{codes}
use netscope.Config.Port.{parse_port, accept_port, strtol}
use netscope.Config.Port.Decimal.{parse_port-decimal}
use netscope.Config.Parse.{Getopt, opt_interface, opt_port}
use netscope.Config.Checks.{config_parse}
use netscope.Config.Valid.{IsConfig, Judged}
use netscope.Config.Valid.Accepted.{config_parse-IsConfig}

abbrev pub listen_argv : List Bytes
listen_argv = codes "netscope" ∷ codes "-i" ∷ codes "lo" ∷ codes "--port" ∷ codes "53" ∷ []

-- What `getopt_long` makes of that command line.
abbrev pub listen : Getopt
listen = record {
  options = λ argv. opt_interface (codes "lo") ∷ opt_port (codes "53") ∷ [];
  optind = λ argv. length argv;
}

parse_port-decimal_example : parse_port (decimal 8080) ≡ some 8080
parse_port-decimal_example = parse_port-decimal 8080 (omega arith)

port_rest : parse_port (codes "80x") ≡ none
unfolding parse_port accept_port strtol
port_rest = refl

port_large : parse_port (codes "65536") ≡ none
unfolding parse_port accept_port strtol
port_large = refl

config_parse-IsConfig_example : Returns (config_parse listen listen_argv 512) (Judged 512 IsConfig)
config_parse-IsConfig_example = config_parse-IsConfig listen listen_argv 512 (tt, (tt, tt))
