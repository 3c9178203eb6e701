-- ===== src/Main/Closed.antt =====
-- The part of `main` of src/main.c that runs the capture, and what is closed behind it.
use netscope.Base.{
  ℕ, ◌+◌, ◌^◌, ◌<◌, ◌≤◌, Bytes, Bool, true, false, ◌||◌, Option, none, some, List, [], ◌≡◌, refl,
  sym, ◌∙◌, length, All, if-intro, arith,
}
use mathlib.Core.Path.{subst}
use netscope.Run.{done, ◌>>=◌, Returns, Returns-bind, Ends, Ends-bind, Outcome, refused, accepted}
use netscope.Config.Data.{Config}
use netscope.Stats.Data.{Stats, stats_init}
use netscope.Stats.Counts.{IsStats, stats_init-IsStats}
use netscope.Output.Data.{IsClock, OutputOptions}
use netscope.Capture.Data.{
  live, LoopEnd, end_of_file, broken, loop_error, Sys, need, geterr, close, Frame, Capture,
}
use netscope.Capture.Loop.{capture_run, loop_outcome, capture_close, frame_loop}
use netscope.Capture.Loop.Counted.{IsFrame, DumpOpen, Looped, frame_loop-Looped}
use netscope.Capture.Life.{
  IsShut, IsClean, HasDumper, IsOpen, ClosedBut, ClosedBut-IsClean, close-Returns, need-Returns,
  geterr-Ends, capture_close-ClosedBut,
}
use netscope.Main.World.{World, Exit, closed_sys, leave}
use netscope.Main.Run.{
  need_stream, live_banner, handle_packet, is_live, to_file, output_options, close_output, finish,
  run_capture,
}
use netscope.Main.Counts.{zero_total, Counts, HasFile, need_stream-Ends, handle_packet-Counts}

-- The statistics that are printed count all frames.
abbrev pub StatsOf : ℕ → Option Stats → Type 0
StatsOf n none = Unit
StatsOf n (some s) = IsStats s × (s.total_packets ≡ n)

-- The program leaves nothing open.
pub record IsExit (frames : ℕ) (r : Exit) : Type 0 where
  pub clean : IsClean r.sys
  pub code : r.code ≤ 1
  pub stats : StatsOf frames r.printed_stats

pub closed-IsClean : IsClean closed_sys
closed-IsClean = record { pcap = tt; dumper = tt; devices = tt; file = tt; signal = refl }

pub leave-IsExit :
    (n code : ℕ) (sys : Sys) (stdout stderr : Bytes)
    → code ≤ 1
    → IsClean sys
    → IsExit n (leave code sys stdout stderr)
leave-IsExit n code sys stdout stderr small h = record { clean = h; code = small; stats = tt }

module _ (world : World) (clock : IsClock world.clock) (frames : All IsFrame world.pcap.frames)
    (few : length world.pcap.frames < 2 ^ 64) where
  abbrev Good : Exit → Type 0
  Good = IsExit (length world.pcap.frames)

  finish-IsExit :
      (config : Config) (sys : Sys) (banner : Bytes) (dumped : List Frame) (ctx : Stats × Bytes)
      (result : Outcome (Unit {0}))
      → IsClean sys
      → Counts (length world.pcap.frames) ctx
      → Good (finish config sys banner dumped ctx result)
  unfolding finish
  finish-IsExit config sys banner dumped (stats, out) (refused message) h k = record {
    clean = h;
    code = omega arith;
    stats = tt;
  }
  finish-IsExit config sys banner dumped (stats, out) (accepted u) h k = record {
    clean = h;
    code = omega arith;
    stats =
        if-intro (StatsOf (length world.pcap.frames))
          (config.show_stats || is_live config.input_mode) _ _ (λ e. k) (λ e. tt);
  }

  close_output-IsClean :
      (config : Config) (sys : Sys) (r : Sys × Capture)
      → ClosedBut sys r
      → HasFile (to_file config) sys.file
      → Returns (close_output config r.0) IsClean
  unfolding close_output
  close_output-IsClean config sys r h f =
      if-intro (λ m. Returns m IsClean) (to_file config) _ _
        (λ e.
          Returns-bind (close r.0.file) _ IsShut IsClean
            (close-Returns r.0.file (h.file ∙ subst (λ (b : Bool). HasFile b sys.file) e f))
            (λ life shut. record {
              pcap = h.pcap;
              dumper = h.dumper;
              devices = h.devices;
              file = shut;
              signal = h.signal;
            }))
        (λ e. ClosedBut-IsClean sys r h (subst (λ (b : Bool). HasFile b sys.file) e f))

  -- The loop is over: the capture is open as before, and all frames are counted.
  abbrev LoopDone :
      Sys → Sys × (Capture × List Frame × (Stats × Bytes)) × Outcome (Unit {0}) → Type 0
  LoopDone sys (sys', (cap', dumped, ctx), result) =
      IsOpen sys' cap' × (sys'.file ≡ sys.file) × Counts (length world.pcap.frames) ctx

  loop_outcome-Ends :
      (opts : OutputOptions) (file : Bool) (sys : Sys)
      → sys.pcap ≡ live
      → (e : LoopEnd)
      → Ends (loop_outcome (handle_packet world.clock opts file) world.pcap sys 512 e)
  unfolding loop_outcome
  loop_outcome-Ends opts file sys h end_of_file = tt
  loop_outcome-Ends opts file sys h broken = tt
  loop_outcome-Ends opts file sys h loop_error =
      Ends-bind (geterr world.pcap sys) _ (geterr-Ends world.pcap sys h) (λ error. tt)

  capture_run-LoopDone :
      (opts : OutputOptions) (file : Bool) (sys : Sys) (cap : Capture)
      → IsOpen sys cap
      → HasFile file sys.file
      → cap.next_packet_number ≡ 0
      → Returns
          (capture_run
            (handle_packet world.clock opts file)
            world.pcap
            sys
            (cap, [], (stats_init, []))
            512)
          (LoopDone sys)
  unfolding capture_run
  capture_run-LoopDone opts file sys cap h hf zero =
      Returns-bind (need sys.pcap) _ (λ u. Unit) (LoopDone sys) (need-Returns sys.pcap h.pcap)
        (λ l u.
          Returns-bind
            (frame_loop (handle_packet world.clock opts file) (record sys { signal_handle = true })
              (cap, [], (stats_init, [])) world.pcap.frames)
            _
            (Looped (handle_packet world.clock opts file (record sys { signal_handle = true }))
              Counts 0 cap [] (stats_init, []) world.pcap.frames)
            (LoopDone sys)
            (frame_loop-Looped (handle_packet world.clock opts file) Counts
              (record sys { signal_handle = true })
              (handle_packet-Counts world.clock opts file (record sys { signal_handle = true })
                clock hf)
              world.pcap.frames 0 cap [] (stats_init, []) (dump_open cap.dumper h.dumper) frames
              zero (omega arith) (stats_init-IsStats, zero_total))
            (λ s l.
              Returns-bind
                (loop_outcome (handle_packet world.clock opts file) world.pcap
                  (record sys { signal_handle = false }) 512 world.pcap.loop_end)
                _ (λ r. Unit) (LoopDone sys)
                (loop_outcome-Ends opts file (record sys { signal_handle = false }) h.pcap
                  world.pcap.loop_end)
                (λ r u'. (
                  record {
                    handle = l.handle ∙ h.handle;
                    pcap = h.pcap;
                    dumper = subst (λ (b : Bool). HasDumper b sys.dumper) (sym l.dumper) h.dumper;
                    devices = h.devices;
                    signal = refl;
                  },
                  refl,
                  (l.context.0, l.context.1 ∙ plain (length world.pcap.frames)),
                ))))
    where
      dump_open :
          (b : Bool) → HasDumper b sys.dumper → DumpOpen (record sys { signal_handle = true }) b
      dump_open true e = e
      dump_open false e = tt

      plain : (n : ℕ) → 0 + n ≡ n
      plain n = omega arith

  -- The loop is run, and everything is closed.
  captured-IsExit :
      (config : Config) (sys : Sys) (cap : Capture)
      → IsOpen sys cap
      → cap.next_packet_number ≡ 0
      → HasFile (to_file config) sys.file
      → Returns
          (capture_run
              (handle_packet world.clock (output_options world config) (to_file config))
              world.pcap
              sys
              (cap, [], (stats_init, []))
              512
            >>= (λ r. capture_close r.0 r.1.0 >>= (λ c.
                close_output config c.0
                >>= (λ s. done (finish config s (live_banner config) r.1.1 r.1.2 r.2)))))
          Good
  captured-IsExit config sys cap h zero f =
      Returns-bind
        (capture_run (handle_packet world.clock (output_options world config) (to_file config))
          world.pcap sys (cap, [], (stats_init, [])) 512)
        _ (LoopDone sys) Good
        (capture_run-LoopDone (output_options world config) (to_file config) sys cap h f zero)
        (λ r d.
          Returns-bind (capture_close r.0 r.1.0) _ (ClosedBut r.0) Good
            (capture_close-ClosedBut r.0 r.1.0 d.0)
            (λ c hc.
              Returns-bind (close_output config c.0) _ IsClean Good
                (close_output-IsClean config r.0 c hc
                  (subst (HasFile (to_file config)) (sym d.1) f))
                (λ s hs. finish-IsExit config s _ _ r.1.2 r.2 hs d.2)))

  pub run_capture-IsExit :
      (config : Config) (sys : Sys) (cap : Capture)
      → IsOpen sys cap
      → cap.next_packet_number ≡ 0
      → HasFile (to_file config) sys.file
      → Returns (run_capture world config sys cap) Good
  unfolding run_capture
  run_capture-IsExit config sys cap h zero f =
      Returns-bind (need_stream (to_file config) sys) _ (λ l. Unit) Good
        (need_stream-Ends (to_file config) sys f) (λ l u. captured-IsExit config sys cap h zero f)
