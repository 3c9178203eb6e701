-- ===== src/Output/Data.antt =====
-- include/netscope/output.h, the colours of src/output.c, and what it uses of <time.h>.
use netscope.Base.{ℕ, ◌<◌, Bytes, Bool, false, ◌∷◌, [], length, if◌then◌else◌}
use netscope.Util.Format.{codes}
use netscope.Config.Data.{OutputFormat}
use netscope.Packet.Data.{Proto, unknown, arp, tcp, udp, icmp, icmpv6, Packet}

pub record OutputOptions : Type 0 where
  pub color : Bool
  pub verbose : Bool
  pub quiet : Bool
  pub hex : Bool
  pub format : OutputFormat

-- `localtime_r` or `gmtime_r` of the seconds, then `strftime(buf, buf_len, format, &tm)`: the text
-- that is left in `buf`.
pub record Clock : Type 0 where
  pub strftime_local : ℕ → Bytes → ℕ → Bytes
  pub strftime_utc : ℕ → Bytes → ℕ → Bytes

-- `strftime` stores a text only where it fits with its terminator.
pub record IsClock (clock : Clock) : Type 0 where
  pub local_fits :
      (room : ℕ) (format : Bytes) (t : ℕ)
      → 0 < room
      → length (clock.strftime_local room format t) < room
  pub utc_fits :
      (room : ℕ) (format : Bytes) (t : ℕ)
      → 0 < room
      → length (clock.strftime_utc room format t) < room

abbrev pub color_error : Bytes
color_error = 0x1b ∷ codes "[31m"

abbrev pub color_reset : Bytes
color_reset = 0x1b ∷ codes "[0m"

unfoldable pub protocol_color : Proto → Bytes
protocol_color tcp = 0x1b ∷ codes "[36m"
protocol_color udp = 0x1b ∷ codes "[32m"
protocol_color icmp = 0x1b ∷ codes "[33m"
protocol_color icmpv6 = 0x1b ∷ codes "[33m"
protocol_color Proto.dns = 0x1b ∷ codes "[35m"
protocol_color arp = 0x1b ∷ codes "[36m"
protocol_color other = []

abbrev pub known : Proto → Proto → Proto
known unknown other = other
known proto other = proto

unfoldable pub top_protocol : Packet → Proto
top_protocol pkt = if pkt.has_dns then Proto.dns else known pkt.transport_proto pkt.network_proto

-- What `isatty` says of the stream is an argument.
unfoldable pub output_should_use_color : Bool → Bool → Bool
output_should_use_color no_color_flag isatty = if no_color_flag then false else isatty
