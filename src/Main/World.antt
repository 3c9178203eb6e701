-- ===== src/Main/World.antt =====
-- What `main` of src/main.c finds and leaves, and its messages.
use netscope.Base.{
  ℕ, Bytes, Bool, true, false, ◌&&◌, ◌||◌, Option, none, List, [], ◌∷◌, ◌++◌, ◌==◌, if◌then◌else◌,
}
use netscope.Util.Text.{printed}
use netscope.Util.Format.{codes}
use netscope.Config.Parse.{Getopt}
use netscope.Stats.Data.{Stats}
use netscope.Capture.Data.{absent, Sys, Frame, Pcap}
use netscope.Output.Data.{Clock}

-- What the program finds: its arguments, the libraries, and whether the output file can be opened
-- and the output stream is a terminal.
pub record World : Type 0 where
  pub argv : List Bytes
  pub getopt : Getopt
  pub pcap : Pcap
  pub clock : Clock
  pub fopen : Bytes → Bool
  pub isatty : Bool

-- What the program leaves.
pub record Exit : Type 0 where
  pub code : ℕ
  pub sys : Sys
  pub stdout : Bytes
  pub stderr : Bytes
  pub output : Bytes
  pub dumped : List Frame
  pub printed_stats : Option Stats

abbrev pub program_name : Bytes
program_name = codes "netscope"

abbrev pub prefix_of : Bytes → Bytes → Bool
prefix_of [] t = true
prefix_of (c ∷ s) [] = false
prefix_of (c ∷ s) (d ∷ t) = c == d && prefix_of s t

-- `strstr(message, part) != NULL`
unfoldable pub strstr : Bytes → Bytes → Bool
strstr [] part = prefix_of part []
strstr (c ∷ s) part = prefix_of part (c ∷ s) || strstr s part

unfoldable pub print_error : Bytes → Bytes
print_error message = printed (
    program_name
    ∷ codes ": "
    ∷ message
    ∷ codes "\n"
    ∷ (if strstr message (codes "ermission")
        then codes "hint: try running with elevated capture privileges "
          ++ codes "(see README.md for platform-specific guidance)\n"
        else [])
    ∷ [])

abbrev pub closed_sys : Sys
closed_sys = record {
  pcap = absent;
  dumper = absent;
  devices = absent;
  file = absent;
  signal_handle = false;
}

-- `return code`, with what has been written.
abbrev pub leave : ℕ → Sys → Bytes → Bytes → Exit
leave code sys stdout stderr = record {
  code = code;
  sys = sys;
  stdout = stdout;
  stderr = stderr;
  output = [];
  dumped = [];
  printed_stats = none;
}
