-- ===== src/Tests/Main.antt =====
-- A run of the program on one frame.
use netscope.Base.{ℕ, ◌+◌, true, none, some, refl, ◌<◌, ◌^◌, [], ◌∷◌, ◌≡◌, arith}
use netscope.Run.{Run, done, Returns}
use netscope.Util.Format.{codes}
use netscope.Packet.Data.{Packet, ethernet_link}
use netscope.Packet.WellFormed.{IsPacket}
use netscope.Capture.Data.{live, Sys, Frame, activated, end_of_file, Pcap, Capture}
use netscope.Capture.Loop.{frame_loop}
use netscope.Capture.Loop.Counted.{IsFrame, Looped, frame_loop-Looped}
use netscope.Main.World.{World, closed_sys}
use netscope.Main.Run.{main}
use netscope.Main.Closed.{IsExit}
use netscope.Main.Whole.{main-IsExit}
use netscope.Tests.Frames.{eth_query, eth_query-IsBuffer}
use netscope.Tests.Config.{listen, listen_argv}
use netscope.Tests.Output.{stopped, stopped-IsClock}

abbrev query_frame : Frame
query_frame = record {
  ts = record { seconds = 43200; microseconds = 7 };
  caplen = 62;
  len = 62;
  buf = eth_query;
}

query_frame-IsFrame : IsFrame query_frame
query_frame-IsFrame = record { buffer = eth_query-IsBuffer; short = omega arith }

-- A library in which every call succeeds.
abbrev working : Pcap
working = record {
  error = [];
  findalldevs = some (record { name = codes "lo"; description = none; addresses = [] } ∷ []);
  create = λ name. true;
  activate = activated;
  open_offline = λ path. true;
  datalink = 1;
  datalink_name = none;
  compile = λ filter. true;
  setfilter = true;
  dump_open = λ path. true;
  frames = query_frame ∷ [];
  loop_end = end_of_file;
}

abbrev world : World
world = record {
  argv = listen_argv;
  getopt = listen;
  pcap = working;
  clock = stopped;
  fopen = λ path. true;
  isatty = true;
}

main-IsExit_example : Returns (main world) (IsExit 1)
main-IsExit_example =
    main-IsExit world stopped-IsClock (query_frame-IsFrame, tt) (omega arith) (tt, (tt, tt))

-- A callback that counts.
abbrev count_packet : Sys → ℕ → Packet → Run ℕ
count_packet sys n pkt = done (n + 1)

abbrev writing : Capture
writing = record { handle = true; link_type = ethernet_link; dumper = true; next_packet_number = 0 }

abbrev writing_sys : Sys
writing_sys = record closed_sys { pcap = live; dumper = live }

abbrev Counted : ℕ → ℕ → Type 0
Counted n c = c ≡ n

count_packet-Counted :
    (n k c : ℕ) (pkt : Packet)
    → Counted n c
    → n + 1 < 2 ^ 64
    → k < 2 ^ 32
    → IsPacket k pkt
    → Returns (count_packet writing_sys c pkt) (Counted (n + 1))
count_packet-Counted n k c pkt h room short hp = omega arith

frame_loop-Looped_example :
    Returns
      (frame_loop count_packet writing_sys (writing, [], 0) (query_frame ∷ query_frame ∷ []))
      (Looped (count_packet writing_sys) Counted 0 writing [] 0 (query_frame ∷ query_frame ∷ []))
frame_loop-Looped_example =
    frame_loop-Looped count_packet Counted writing_sys count_packet-Counted
      (query_frame ∷ query_frame ∷ []) 0 writing [] 0 refl
      (query_frame-IsFrame, (query_frame-IsFrame, tt)) refl (omega arith) refl
