-- ===== src/Main/Run.antt =====
-- `main` of src/main.c, with its early returns, and `handle_packet`. The file for the JSON output is
-- what it holds; the call of `ns_stats_print` is kept with its argument.
use netscope.Base.{
  Bytes, Bool, true, false, not, ◌&&◌, ◌||◌, none, some, List, [], ◌∷◌, ◌++◌, if◌then◌else◌,
}
use netscope.Run.{Run, done, ◌>>=◌, Outcome, refused, accepted}
use netscope.Util.Text.{snprintf, printed}
use netscope.Util.Format.{codes, is_empty}
use netscope.Config.Data.{Config, InputMode, live_input}
use netscope.Config.Checks.{is_json, config_parse}
use netscope.Filter.{FilterSpec, filter_build_bpf}
use netscope.Packet.Data.{Packet}
use netscope.Stats.Data.{Stats, stats_init}
use netscope.Stats.Update.{stats_update}
use netscope.Capture.Data.{Life, live, Sys, Frame, Capture, need, close}
use netscope.Capture.Devices.{capture_list_interfaces, capture_interface_exists}
use netscope.Capture.Open.{capture_open_live, capture_open_offline, capture_open_dump}
use netscope.Capture.Loop.{capture_run, capture_close}
use netscope.Output.Data.{Clock, OutputOptions, output_should_use_color}
use netscope.Output.{output_packet}
use netscope.Main.Usage.{ns_name, ns_version, config_print_help, config_print_version}
use netscope.Main.World.{World, Exit, program_name, print_error, closed_sys, leave}

-- A stream that is used must be open: the output file, or stdout, which always is.
unfoldable pub need_stream : Bool → Sys → Run Life
need_stream true sys = need sys.file
need_stream false sys = done live

-- The context: the statistics and the text of the output stream, which is handed on for every packet;
-- `file` says whether it is the output file.
unfoldable pub handle_packet :
    Clock → OutputOptions → Bool → Sys → Stats × Bytes → Packet → Run (Stats × Bytes)
handle_packet clock opts file sys (stats, out) pkt = do
  stats ← stats_update stats pkt
  stream ← need_stream file sys
  out ← output_packet clock pkt opts out
  done (stats, out)

abbrev pub is_live : InputMode → Bool
is_live live_input = true
is_live other = false

-- Whether there are colours is asked of the output stream, which `run_capture` has open.
unfoldable pub output_options : World → Config → OutputOptions
output_options world config = record {
  color = output_should_use_color config.no_color world.isatty;
  verbose = config.verbose_output;
  quiet = config.quiet;
  hex = config.hex_dump;
  format = config.format;
}

-- Whether the output goes to a file.
abbrev pub to_file : Config → Bool
to_file config = is_json config.format && not (is_empty config.output_file)

unfoldable pub live_banner : Config → Bytes
live_banner config =
    if is_live config.input_mode && not (is_json config.format) && not config.quiet
    then printed (
        ns_name
        ∷ codes " "
        ∷ ns_version
        ∷ codes "\nInterface: "
        ∷ config.interface
        ∷ codes "\nCapture started. Press Ctrl+C to stop.\n\n"
        ∷ [])
    else []

-- `fclose(output_stream)`, unless it is stdout.
unfoldable pub close_output : Config → Sys → Run Sys
close_output config sys =
    if to_file config
    then close sys.file >>= (λ life. done (record sys { file = life }))
    else done sys

-- The end of `main`, once the loop is over and everything is closed.
unfoldable pub finish :
    Config → Sys → Bytes → List Frame → Stats × Bytes → Outcome (Unit {0}) → Exit
finish config sys banner dumped (stats, out) (refused message) = record {
  code = 1;
  sys = sys;
  stdout = if to_file config then banner else banner ++ out;
  stderr = print_error message;
  output = if to_file config then out else [];
  dumped = dumped;
  printed_stats = none;
}
finish config sys banner dumped (stats, out) (accepted u) = record {
  code = 0;
  sys = sys;
  stdout = if to_file config then banner else banner ++ out;
  stderr = [];
  output = if to_file config then out else [];
  dumped = dumped;
  printed_stats = if config.show_stats || is_live config.input_mode then some stats else none;
}

unfoldable pub run_capture : World → Config → Sys → Capture → Run Exit
run_capture world config sys cap = do
  stream ← need_stream (to_file config) sys
  let opts = output_options world config
  (sys, (cap, dumped, ctx), result) ←
      capture_run (handle_packet world.clock opts (to_file config)) world.pcap sys
        (cap, [], (stats_init, [])) 512
  (sys, cap) ← capture_close sys cap
  sys ← close_output config sys
  done (finish config sys (live_banner config) dumped ctx result)

-- The output file.
unfoldable pub open_output : World → Config → Sys → Capture → Run Exit
open_output world config sys cap =
    if to_file config
    then (if world.fopen config.output_file
        then run_capture world config (record sys { file = live }) cap
        else (do
          (sys, cap) ← capture_close sys cap
          done (
              leave 1 sys [] (
                print_error (
                  snprintf 512 (
                    printed (
                      codes "failed to open '"
                      ∷ config.output_file
                      ∷ codes "' for writing"
                      ∷ [])))))))
    else run_capture world config sys cap

unfoldable pub dump_opened : World → Config → Capture → Sys × Outcome Capture → Run Exit
dump_opened world config cap (sys, refused message) =
    capture_close sys cap >>= (λ r. done (leave 1 r.0 [] (print_error message)))
dump_opened world config cap (sys, accepted cap') = open_output world config sys cap'

unfoldable pub capture_opened : World → Config → Sys × Outcome Capture → Run Exit
capture_opened world config (sys, refused message) = done (leave 1 sys [] (print_error message))
capture_opened world config (sys, accepted cap) =
    if not (is_empty config.write_file)
    then capture_open_dump world.pcap sys cap config.write_file 512 >>= dump_opened world config cap
    else open_output world config sys cap

unfoldable pub filter_spec : Config → FilterSpec
filter_spec config = record {
  tcp = config.filter_tcp;
  udp = config.filter_udp;
  icmp = config.filter_icmp;
  port = config.filter_port;
  host = some config.filter_host;
  src = some config.filter_src;
  dst = some config.filter_dst;
  raw = if config.has_raw_filter then some config.raw_filter else none;
}

unfoldable pub filter_built : World → Config → Sys → Bool × Bytes → Run Exit
filter_built world config sys (false, bpf_expr) =
    done (leave 1 sys [] (print_error (codes "capture filter expression is too long")))
filter_built world config sys (true, bpf_expr) =
    (if is_live config.input_mode
      then capture_open_live world.pcap sys config.interface bpf_expr 512
      else capture_open_offline world.pcap sys config.read_file bpf_expr 512)
    >>= capture_opened world config

unfoldable pub build_filter : World → Config → Sys → Run Exit
build_filter world config sys =
    filter_build_bpf (filter_spec config) 512 >>= filter_built world config sys

unfoldable pub check_interface : World → Config → Sys → Run Exit
check_interface world config sys =
    if is_live config.input_mode
    then (do
      (sys, exists) ← capture_interface_exists world.pcap sys config.interface
      if exists
          then build_filter world config sys
          else done (
              leave 1 sys [] (
                print_error (
                  snprintf 512 (
                    printed
                      (codes "interface '" ∷ config.interface ∷ codes "' does not exist" ∷ []))))))
    else build_filter world config sys

unfoldable pub interfaces_listed : Sys × Outcome Bytes → Exit
interfaces_listed (sys, refused message) = leave 1 sys [] (print_error message)
interfaces_listed (sys, accepted text) = leave 0 sys text []

unfoldable pub configured : World → Outcome Config → Run Exit
configured world (refused message) = done (
    leave 1 closed_sys [] (
      printed
        (print_error message ∷ codes "Try '" ∷ program_name ∷ codes " --help' for usage.\n" ∷ [])))
configured world (accepted config) =
    if config.show_help
    then done (leave 0 closed_sys (config_print_help program_name) [])
    else if config.show_version
    then done (leave 0 closed_sys config_print_version [])
    else if config.list_interfaces
    then capture_list_interfaces world.pcap closed_sys >>= (λ r. done (interfaces_listed r))
    else check_interface world config closed_sys

unfoldable pub main : World → Run Exit
main world = config_parse world.getopt world.argv 512 >>= configured world
