-- ===== src/Config/Checks.antt =====
-- The loop of `ns_config_parse` of src/config.c, and what it checks behind the loop.
use netscope.Base.{
  ℕ, Bytes, Bool, true, false, ◌&&◌, ◌||◌, not, List, [], ◌∷◌, ltb, length, if◌then◌else◌,
}
use netscope.Run.{Outcome, refused, accepted, Run, done, ◌>>=◌}
use netscope.Util.Text.{snprintf, printed}
use netscope.Util.Format.{codes, is_empty}
use netscope.Protocols.Dns.Message.{slot_at}
use netscope.Config.Data.{Config, live_input, file_input, OutputFormat, text_format, json_format}
use netscope.Config.Parse.{Opt, Getopt, Parse, start, parse_option}

unfoldable pub option_loop : List Bytes → ℕ → Parse → List Opt → Run (Outcome Parse)
option_loop argv err_len p [] = done (accepted p)
option_loop argv err_len p (o ∷ more) = parse_option argv err_len p o >>= (λ r. elim r [
  | refused message ↦ done (refused message)
  | accepted p' ↦ option_loop argv err_len p' more
])

abbrev pub is_json : OutputFormat → Bool
is_json json_format = true
is_json text_format = false

-- The input mode: the last of the checks.
unfoldable pub choose_input : ℕ → Parse → Outcome Config
choose_input err_len p =
    if p.have_interface
    then accepted (record (p.out) { input_mode = live_input })
    else if p.have_read_file
    then accepted (record (p.out) { input_mode = file_input })
    else refused (snprintf err_len (codes "either -i <interface> or -r <file> is required"))

unfoldable pub check_options : ℕ → Parse → Outcome Config
check_options err_len p =
    if p.out.show_help || p.out.show_version
    then accepted p.out
    else if p.have_interface && p.have_read_file
    then refused (snprintf err_len (codes "-i and -r cannot be used simultaneously"))
    else if p.out.has_raw_filter && p.any_simple_filter
    then refused (
        snprintf err_len
          (codes "--filter cannot be combined with --tcp/--udp/--icmp/--port/--host/--src/--dst"))
    else if not (is_empty p.out.output_file) && not (is_json p.out.format)
    then refused (snprintf err_len (codes "--output requires --format json"))
    else if p.out.list_interfaces
    then accepted p.out
    else choose_input err_len p

unfoldable pub options_parsed : List Bytes → ℕ → ℕ → Outcome Parse → Run (Outcome Config)
options_parsed argv err_len optind (refused message) = done (refused message)
options_parsed argv err_len optind (accepted p) =
    if ltb optind (length argv)
    then slot_at argv optind >>= (λ arg.
      done (
        refused
          (snprintf err_len (printed (codes "unexpected argument '" ∷ arg ∷ codes "'" ∷ [])))))
    else done (check_options err_len p)

unfoldable pub config_parse : Getopt → List Bytes → ℕ → Run (Outcome Config)
config_parse getopt argv err_len =
    option_loop argv err_len start (getopt.options argv)
    >>= options_parsed argv err_len (getopt.optind argv)
