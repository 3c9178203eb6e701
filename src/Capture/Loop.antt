-- ===== src/Capture/Loop.antt =====
-- `pcap_packet_callback`, `ns_capture_run` and `ns_capture_close` of src/capture.c.
pub mod Counted
use netscope.Base.{ℕ, ◌+◌, ◌%◌, ◌^◌, Bytes, Bool, true, false, List, [], ◌∷◌, ◌++◌, if◌then◌else◌}
use netscope.Run.{Run, done, ◌>>=◌, Outcome, refused, accepted}
use netscope.Util.Text.{snprintf, printed}
use netscope.Util.Format.{codes}
use netscope.Packet.Data.{Packet}
use netscope.Packet.Dissect.{packet_parse}
use netscope.Capture.Data.{
  Sys, need, geterr, close, Frame, LoopEnd, end_of_file, broken, loop_error, Pcap, Capture,
}

-- `on_packet` and its context. It runs while the loop runs, and may use what is open then.
module _ {C : Type 0} (on_packet : Sys → C → Packet → Run C) where
  -- `++cap->next_packet_number`, on uint64_t.
  unfoldable pub next_number : Capture → Capture
  next_number cap = record cap { next_packet_number = (cap.next_packet_number + 1) % 2 ^ 64 }

  -- The callback: the capture, the frames in the dump file, and the context of `on_packet`.
  unfoldable pub packet_callback :
      Sys → Capture × List Frame × C → Frame → Run (Capture × List Frame × C)
  unfolding next_number
  packet_callback sys (cap, dumped, ctx) frame = do
    dumped ←
        if cap.dumper
        then need sys.dumper >>= (λ handle. done (dumped ++ (frame ∷ [])))
        else done dumped
    let cap = next_number cap
    pkt ←
        packet_parse frame.buf frame.caplen frame.len frame.ts cap.next_packet_number cap.link_type
    ctx ← on_packet sys ctx pkt
    done (cap, dumped, ctx)

  -- `pcap_loop`: a call for each frame.
  unfoldable pub frame_loop :
      Sys → Capture × List Frame × C → List Frame → Run (Capture × List Frame × C)
  unfolding packet_callback
  frame_loop sys state [] = done state
  frame_loop sys state (frame ∷ more) =
      packet_callback sys state frame >>= (λ state'. frame_loop sys state' more)

  unfoldable pub loop_outcome : Pcap → Sys → ℕ → LoopEnd → Run (Outcome (Unit {0}))
  loop_outcome pcap sys err_len loop_error = geterr pcap sys >>= (λ error.
      done (refused (snprintf err_len (printed (codes "capture loop failed: " ∷ error ∷ [])))))
  loop_outcome pcap sys err_len end_of_file = done (accepted tt)
  loop_outcome pcap sys err_len broken = done (accepted tt)

  unfoldable pub capture_run :
      Pcap
      → Sys
      → Capture × List Frame × C
      → ℕ
      → Run (Sys × (Capture × List Frame × C) × Outcome (Unit {0}))
  unfolding frame_loop loop_outcome
  capture_run pcap sys state err_len = do
    let sys = record sys { signal_handle = true }
    handle ← need sys.pcap
    state ← frame_loop sys state pcap.frames
    let sys = record sys { signal_handle = false }
    result ← loop_outcome pcap sys err_len pcap.loop_end
    done (sys, state, result)

unfoldable pub close_dumper : Sys → Capture → Run (Sys × Capture)
close_dumper sys cap =
    if cap.dumper
    then close sys.dumper
      >>= (λ life. done (record sys { dumper = life }, record cap { dumper = false }))
    else done (sys, cap)

unfoldable pub close_handle : Sys → Capture → Run (Sys × Capture)
close_handle sys cap =
    if cap.handle
    then close sys.pcap
      >>= (λ life. done (record sys { pcap = life }, record cap { handle = false }))
    else done (sys, cap)

unfoldable pub capture_close : Sys → Capture → Run (Sys × Capture)
capture_close sys cap = close_dumper sys cap >>= (λ r. close_handle r.0 r.1)
