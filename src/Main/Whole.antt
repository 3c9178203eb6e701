-- ===== src/Main/Whole.antt =====
-- `main` of src/main.c as a whole, from the command line to each of its returns.
use netscope.Base.{
  ◌^◌, ◌<◌, Bytes, Bool, true, false, not, [], ◌≡◌, refl, sym, length, All, if-intro, arith,
}
use mathlib.Core.Path.{subst}
use netscope.Run.{Run, Returns, Returns-bind, Returns-Ends, Outcome, refused, accepted}
use netscope.Util.Format.{is_empty}
use netscope.Config.Data.{Config}
use netscope.Config.Checks.{config_parse}
use netscope.Config.Valid.{IsConfig, Judged, InArgv}
use netscope.Config.Valid.Accepted.{config_parse-IsConfig}
use netscope.Filter.{filter_build_bpf}
use netscope.Filter.Built.{filter_build_bpf-IsBuilt}
use netscope.Filter.Append.{IsBuilt}
use netscope.Output.Data.{IsClock}
use netscope.Capture.Data.{live, Sys, Capture}
use netscope.Capture.Devices.{capture_list_interfaces, capture_interface_exists}
use netscope.Capture.Open.{capture_open_live, capture_open_offline, capture_open_dump}
use netscope.Capture.Loop.{capture_close}
use netscope.Capture.Loop.Counted.{IsFrame}
use netscope.Capture.Life.{
  IsShut, IsClean, IsOpen, ClosedBut, ClosedBut-IsClean, capture_close-ClosedBut,
}
use netscope.Capture.Listed.{capture_interface_exists-IsClean, capture_list_interfaces-IsClean}
use netscope.Capture.Opening.{
  Opening, DumpOpening, capture_open_live-Opening, capture_open_offline-Opening,
  capture_open_dump-DumpOpening,
}
use netscope.Main.World.{World, Exit, closed_sys, leave}
use netscope.Main.Run.{
  is_live, to_file, open_output, dump_opened, capture_opened, filter_spec, filter_built,
  build_filter, check_interface, interfaces_listed, configured, main,
}
use netscope.Main.Counts.{HasFile}
use netscope.Main.Closed.{IsExit, closed-IsClean, leave-IsExit, run_capture-IsExit}

module _ (world : World) (clock : IsClock world.clock) (frames : All IsFrame world.pcap.frames)
    (few : length world.pcap.frames < 2 ^ 64) where
  abbrev Good : Exit → Type 0
  Good = IsExit (length world.pcap.frames)

  failed : (sys : Sys) (stderr : Bytes) → IsClean sys → Good (leave 1 sys [] stderr)
  failed sys stderr h = leave-IsExit (length world.pcap.frames) 1 sys [] stderr (omega arith) h

  open_output-IsExit :
      (config : Config) (sys : Sys) (cap : Capture)
      → IsOpen sys cap
      → IsShut sys.file
      → cap.next_packet_number ≡ 0
      → Returns (open_output world config sys cap) Good
  unfolding open_output
  open_output-IsExit config sys cap h f zero =
      if-intro (λ m. Returns m Good) (to_file config) _ _
        (λ e.
          if-intro (λ m. Returns m Good) (world.fopen config.output_file) _ _
            (λ opened.
              run_capture-IsExit world clock frames few config (record sys { file = live }) cap
                (record {
                  handle = h.handle;
                  pcap = h.pcap;
                  dumper = h.dumper;
                  devices = h.devices;
                  signal = h.signal;
                })
                zero (subst (λ (b : Bool). HasFile b live) (sym e) refl))
            (λ not_opened.
              Returns-bind (capture_close sys cap) _ (ClosedBut sys) Good
                (capture_close-ClosedBut sys cap h)
                (λ r hr. failed r.0 _ (ClosedBut-IsClean sys r hr f))))
        (λ e.
          run_capture-IsExit world clock frames few config sys cap h zero
            (subst (λ (b : Bool). HasFile b sys.file) (sym e) f))

  dump_opened-IsExit :
      (config : Config) (sys : Sys) (cap : Capture) (r : Sys × Outcome Capture)
      → DumpOpening sys cap r
      → Returns (dump_opened world config cap r) Good
  unfolding dump_opened
  dump_opened-IsExit config sys cap (sys', refused message) h =
      Returns-bind (capture_close sys' cap) _ (ClosedBut sys') Good
        (capture_close-ClosedBut sys' cap h.0)
        (λ r hr. failed r.0 _ (ClosedBut-IsClean sys' r hr h.1))
  dump_opened-IsExit config sys cap (sys', accepted cap') h =
      open_output-IsExit config sys' cap' h.0 h.1 h.2

  capture_opened-IsExit :
      (config : Config) (r : Sys × Outcome Capture)
      → Opening r
      → Returns (capture_opened world config r) Good
  unfolding capture_opened
  capture_opened-IsExit config (sys, refused message) h = failed sys _ h
  capture_opened-IsExit config (sys, accepted cap) h =
      if-intro (λ m. Returns m Good) (not (is_empty config.write_file)) _ _
        (λ e.
          Returns-bind (capture_open_dump world.pcap sys cap config.write_file 512) _
            (DumpOpening sys cap) Good
            (capture_open_dump-DumpOpening world.pcap sys cap config.write_file 512 h.0 h.1 h.2)
            (dump_opened-IsExit config sys cap))
        (λ e. open_output-IsExit config sys cap h.0 h.1 h.2)

  filter_built-IsExit :
      (config : Config) (sys : Sys) (r : Bool × Bytes)
      → IsClean sys
      → Returns (filter_built world config sys r) Good
  unfolding filter_built
  filter_built-IsExit config sys (false, bpf_expr) h = failed sys _ h
  filter_built-IsExit config sys (true, bpf_expr) h =
      Returns-bind _ _ Opening Good
        (if-intro (λ (m : Run (Sys × Outcome Capture)). Returns m Opening)
          (is_live config.input_mode)
          (capture_open_live world.pcap sys config.interface bpf_expr 512)
          (capture_open_offline world.pcap sys config.read_file bpf_expr 512)
          (λ e. capture_open_live-Opening world.pcap sys config.interface bpf_expr 512 h)
          (λ e. capture_open_offline-Opening world.pcap sys config.read_file bpf_expr 512 h))
        (capture_opened-IsExit config)

  build_filter-IsExit :
      (config : Config) (sys : Sys) → IsClean sys → Returns (build_filter world config sys) Good
  unfolding build_filter
  build_filter-IsExit config sys h =
      Returns-bind (filter_build_bpf (filter_spec config) 512) _ (λ r. Unit) Good
        (Returns-Ends _ (IsBuilt 512 _)
          (filter_build_bpf-IsBuilt (filter_spec config) 512 (omega arith)))
        (λ r u. filter_built-IsExit config sys r h)

  check_interface-IsExit :
      (config : Config) (sys : Sys) → IsClean sys → Returns (check_interface world config sys) Good
  unfolding check_interface
  check_interface-IsExit config sys h =
      if-intro (λ m. Returns m Good) (is_live config.input_mode) _ _
        (λ e.
          Returns-bind (capture_interface_exists world.pcap sys config.interface) _
            (λ r. IsClean r.0) Good
            (capture_interface_exists-IsClean world.pcap sys config.interface h)
            (λ r hr.
              if-intro (λ m. Returns m Good) r.1 _ _ (λ e'. build_filter-IsExit config r.0 hr)
                (λ e'. failed r.0 _ hr)))
        (λ e. build_filter-IsExit config sys h)

  interfaces_listed-IsExit : (r : Sys × Outcome Bytes) → IsClean r.0 → Good (interfaces_listed r)
  unfolding interfaces_listed
  interfaces_listed-IsExit (sys, refused message) h = failed sys _ h
  interfaces_listed-IsExit (sys, accepted text) h =
      leave-IsExit (length world.pcap.frames) 0 sys text [] (omega arith) h

  configured-IsExit : (r : Outcome Config) → Returns (configured world r) Good
  unfolding configured
  configured-IsExit (refused message) = failed closed_sys _ closed-IsClean
  configured-IsExit (accepted config) =
      if-intro (λ m. Returns m Good) config.show_help _ _
        (λ e. leave-IsExit _ 0 closed_sys _ [] (omega arith) closed-IsClean)
        (λ e.
          if-intro (λ m. Returns m Good) config.show_version _ _
            (λ e'. leave-IsExit _ 0 closed_sys _ [] (omega arith) closed-IsClean)
            (λ e'.
              if-intro (λ m. Returns m Good) config.list_interfaces _ _
                (λ list.
                  Returns-bind (capture_list_interfaces world.pcap closed_sys) _ (λ r. IsClean r.0)
                    Good (capture_list_interfaces-IsClean world.pcap closed_sys closed-IsClean)
                    interfaces_listed-IsExit)
                (λ capture. check_interface-IsExit config closed_sys closed-IsClean)))

  -- The whole program, for every command line and whatever the libraries answer: given that
  -- `getopt_long` and `strftime` stay inside what they are handed, that every frame has the bytes,
  -- fewer than 2^32, that its header announces, and that there are fewer than 2^64 frames, `main` ends
  -- without a fault, with code 0 or 1. The capture handle, the dump file, the list of devices and the
  -- output file are closed if they were opened, each once and never used after it, and the signal
  -- handler is left without a handle. If the statistics are printed, they are consistent and count every frame.
  pub main-IsExit :
      All (InArgv (length world.argv)) (world.getopt.options world.argv) → Returns (main world) Good
  unfolding main
  main-IsExit h =
      Returns-bind (config_parse world.getopt world.argv 512) _ (Judged 512 IsConfig) Good
        (config_parse-IsConfig world.getopt world.argv 512 h) (λ r u. configured-IsExit r)
