-- ===== src/Config/Parse.antt =====
-- `ns_config_parse` of src/config.c. `getopt_long` is a parameter.
use netscope.Base.{
  ℕ, ◌-◌, ◌%◌, Bytes, Bool, true, false, ◌&&◌, not, Option, none, some, List, [], ◌∷◌, ◌==◌, ltb,
  if◌then◌else◌,
}
use netscope.Run.{Run, done, ◌>>=◌, Outcome, refused, accepted}
use netscope.Util.Text.{snprintf, printed}
use netscope.Util.Format.{codes}
use netscope.Protocols.Dns.Message.{slot_at}
use netscope.Config.Data.{
  Config, no_input, text_format, json_format, LogLevel, log_error, log_warn, log_info, log_debug,
  str_len,
}
use netscope.Config.Port.{parse_port}

-- What one call of `getopt_long` finds, by the table `kLongOptions` and the short options "i:r:hv":
-- an option with its argument, or '?' with `optopt` and `optind`.
pub data Opt : Type 0 where
  opt_interface opt_read : Bytes → Opt
  opt_help opt_verbosity opt_version opt_list_interfaces opt_tcp opt_udp opt_icmp : Opt
  opt_port opt_host opt_src opt_dst opt_filter : Bytes → Opt
  opt_no_color opt_verbose opt_quiet opt_stats opt_hex : Opt
  opt_write opt_format opt_output : Bytes → Opt
  opt_debug : Opt
  opt_unknown : (optopt optind : ℕ) → Opt

-- The calls of `getopt_long` on `argv` up to the one that answers -1, and `optind` after it.
pub record Getopt : Type 0 where
  pub options : List Bytes → List Opt
  pub optind : List Bytes → ℕ

-- The locals of `ns_config_parse`.
pub record Parse : Type 0 where
  pub out : Config
  pub have_interface : Bool
  pub have_read_file : Bool
  pub any_simple_filter : Bool

abbrev pub zero_config : Config
zero_config = record {
  input_mode = no_input;
  interface = [];
  read_file = [];
  write_file = [];
  output_file = [];
  filter_tcp = false;
  filter_udp = false;
  filter_icmp = false;
  filter_port = none;
  filter_host = [];
  filter_src = [];
  filter_dst = [];
  raw_filter = [];
  has_raw_filter = false;
  no_color = false;
  verbose_output = false;
  quiet = false;
  show_stats = false;
  hex_dump = false;
  format = text_format;
  log_level = log_warn;
  list_interfaces = false;
  show_help = false;
  show_version = false;
}

abbrev pub start : Parse
start = record {
  out = zero_config;
  have_interface = false;
  have_read_file = false;
  any_simple_filter = false;
}

unfoldable pub copy_str : Bytes → Bytes
unfolding snprintf
copy_str src = snprintf str_len src

-- `if (level < NS_LOG_DEBUG) level++;`
unfoldable pub more_verbose : LogLevel → LogLevel
more_verbose log_error = log_warn
more_verbose log_warn = log_info
more_verbose log_info = log_debug
more_verbose log_debug = log_debug

abbrev pub text_eq : Bytes → Bytes → Bool
text_eq [] [] = true
text_eq (c ∷ s) (d ∷ t) = c == d && text_eq s t
text_eq s t = false

abbrev pub simple : Parse → Config → Parse
simple p out = record p { out = out; any_simple_filter = true }

abbrev pub set_out : Parse → Config → Parse
set_out p out = record p { out = out }

abbrev pub port_option : Parse → ℕ → Bytes → Option ℕ → Outcome Parse
port_option p err_buf_len text none = refused (
    snprintf err_buf_len
      (printed (codes "invalid port '" ∷ text ∷ codes "' (expected 0-65535)" ∷ [])))
port_option p err_buf_len text (some port) =
    accepted (simple p (record (p.out) { filter_port = some port }))

unfoldable pub format_option : Parse → ℕ → Bytes → Outcome Parse
format_option p err_buf_len text =
    if text_eq text (codes "json")
    then accepted (set_out p (record (p.out) { format = json_format }))
    else if text_eq text (codes "text")
    then accepted (set_out p (record (p.out) { format = text_format }))
    else refused (
        snprintf err_buf_len (
          printed
            (codes "unknown --format value '" ∷ text ∷ codes "' (expected 'text' or 'json')" ∷ [])))

-- The case '?': `%c` prints `optopt` as an unsigned char, and `argv[optind - 1]` must be there.
unfoldable pub unknown_option : List Bytes → ℕ → ℕ → ℕ → Run Bytes
unknown_option argv err_buf_len optopt optind =
    if not (optopt == 0)
    then done (
        snprintf err_buf_len (
          printed (
            codes "unrecognized option or missing argument: '-"
            ∷ (optopt % 256 ∷ [])
            ∷ codes "'"
            ∷ [])))
    else if ltb 1 optind
    then slot_at argv (optind - 1) >>= (λ arg.
      done (snprintf err_buf_len (printed (codes "unrecognized option '" ∷ arg ∷ codes "'" ∷ []))))
    else done (snprintf err_buf_len (codes "unrecognized option"))

-- One turn of the loop.
unfoldable pub parse_option : List Bytes → ℕ → Parse → Opt → Run (Outcome Parse)
unfolding copy_str more_verbose format_option unknown_option
parse_option argv err_len p (opt_interface arg) = done (
    accepted
      (record p { out = record (p.out) { interface = copy_str arg }; have_interface = true }))
parse_option argv err_len p (opt_read arg) = done (
    accepted
      (record p { out = record (p.out) { read_file = copy_str arg }; have_read_file = true }))
parse_option argv err_len p opt_help =
    done (accepted (set_out p (record (p.out) { show_help = true })))
parse_option argv err_len p opt_verbosity =
    done (accepted (set_out p (record (p.out) { log_level = more_verbose p.out.log_level })))
parse_option argv err_len p opt_version =
    done (accepted (set_out p (record (p.out) { show_version = true })))
parse_option argv err_len p opt_list_interfaces =
    done (accepted (set_out p (record (p.out) { list_interfaces = true })))
parse_option argv err_len p opt_tcp =
    done (accepted (simple p (record (p.out) { filter_tcp = true })))
parse_option argv err_len p opt_udp =
    done (accepted (simple p (record (p.out) { filter_udp = true })))
parse_option argv err_len p opt_icmp =
    done (accepted (simple p (record (p.out) { filter_icmp = true })))
parse_option argv err_len p (opt_port arg) = done (port_option p err_len arg (parse_port arg))
parse_option argv err_len p (opt_host arg) =
    done (accepted (simple p (record (p.out) { filter_host = copy_str arg })))
parse_option argv err_len p (opt_src arg) =
    done (accepted (simple p (record (p.out) { filter_src = copy_str arg })))
parse_option argv err_len p (opt_dst arg) =
    done (accepted (simple p (record (p.out) { filter_dst = copy_str arg })))
parse_option argv err_len p (opt_filter arg) =
    done
      (accepted (set_out p (record (p.out) { raw_filter = copy_str arg; has_raw_filter = true })))
parse_option argv err_len p opt_no_color =
    done (accepted (set_out p (record (p.out) { no_color = true })))
parse_option argv err_len p opt_verbose =
    done (accepted (set_out p (record (p.out) { verbose_output = true })))
parse_option argv err_len p opt_quiet =
    done (accepted (set_out p (record (p.out) { quiet = true })))
parse_option argv err_len p opt_stats =
    done (accepted (set_out p (record (p.out) { show_stats = true })))
parse_option argv err_len p opt_hex =
    done (accepted (set_out p (record (p.out) { hex_dump = true })))
parse_option argv err_len p (opt_write arg) =
    done (accepted (set_out p (record (p.out) { write_file = copy_str arg })))
parse_option argv err_len p (opt_format arg) = done (format_option p err_len arg)
parse_option argv err_len p (opt_output arg) =
    done (accepted (set_out p (record (p.out) { output_file = copy_str arg })))
parse_option argv err_len p opt_debug =
    done (accepted (set_out p (record (p.out) { log_level = log_debug })))
parse_option argv err_len p (opt_unknown optopt optind) =
    unknown_option argv err_len optopt optind >>= (λ message. done (refused message))
