-- ===== src/Main/Counts.antt =====
-- `handle_packet` of src/main.c, its count of packets and its stream.
use netscope.Base.{ℕ, ◌+◌, ◌^◌, ◌<◌, Bytes, Bool, true, false, ◌≡◌, refl, arith}
use netscope.Run.{Returns, Returns-bind, Ends}
use netscope.Packet.Data.{Packet}
use netscope.Packet.WellFormed.{IsPacket}
use netscope.Stats.Data.{Stats, stats_init}
use netscope.Stats.Counts.{IsStats, stats_update-IsStats}
use netscope.Stats.Update.{stats_update}
use netscope.Output.Data.{Clock, IsClock, OutputOptions}
use netscope.Output.{output_packet}
use netscope.Output.Safe.{Appends, output_packet-Appends}
use netscope.Capture.Data.{Life, live, Sys}
use netscope.Capture.Life.{IsShut, need-Returns}
use netscope.Main.Run.{need_stream, handle_packet}

pub zero_total : stats_init.total_packets ≡ 0
unfolding stats_init
zero_total = refl

-- The context after `n` packets.
abbrev pub Counts : ℕ → Stats × Bytes → Type 0
Counts n (stats, out) = IsStats stats × (stats.total_packets ≡ n)

-- The output file is open exactly if the output goes there.
abbrev pub HasFile : Bool → Life → Type 0
HasFile true now = now ≡ live
HasFile false now = IsShut now

pub need_stream-Ends :
    (file : Bool) (sys : Sys) → HasFile file sys.file → Ends (need_stream file sys)
unfolding need_stream
need_stream-Ends true sys h = need-Returns sys.file h
need_stream-Ends false sys h = tt

pub handle_packet-Counts :
    (clock : Clock) (opts : OutputOptions) (file : Bool) (sys : Sys)
    → IsClock clock
    → HasFile file sys.file
    → (n k : ℕ) (ctx : Stats × Bytes) (pkt : Packet) → Counts n ctx
    → n + 1 < 2 ^ 64
    → k < 2 ^ 32
    → IsPacket k pkt
    → Returns (handle_packet clock opts file sys ctx pkt) (Counts (n + 1))
unfolding handle_packet
handle_packet-Counts clock opts file sys hc hf n k (stats, out) pkt h room short hp =
    Returns-bind (stats_update stats pkt) _
      (λ s. IsStats s × (s.total_packets ≡ stats.total_packets + 1)) (Counts (n + 1))
      (stats_update-IsStats stats pkt hp h.0 (omega (arith, h.1)))
      (λ s hs.
        Returns-bind (need_stream file sys) _ (λ l. Unit) (Counts (n + 1))
          (need_stream-Ends file sys hf)
          (λ l u.
            Returns-bind (output_packet clock pkt opts out) _ (Appends out) (Counts (n + 1))
              (output_packet-Appends clock pkt hc hp (omega arith) opts out)
              (λ out' a. (hs.0, omega (arith, h.1, hs.1)))))
