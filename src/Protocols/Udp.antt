-- ===== src/Protocols/Udp.antt =====
-- src/protocols/udp.c
pub mod Parse
use netscope.Base.{ℕ, Bytes, not, ltb, if◌then◌else◌}
use netscope.Run.{Run, done, ◌>>=◌}
use netscope.Util.{bounds_check, load_u16}
use netscope.Protocols.Status.{Status, ok, truncated, malformed}

pub record UdpInfo : Type 0 where
  pub source_port : ℕ
  pub destination_port : ℕ
  pub length : ℕ
  pub checksum : ℕ

abbrev pub zero_udp : UdpInfo
zero_udp = record { source_port = 0; destination_port = 0; length = 0; checksum = 0 }

unfoldable pub parse_udp : Bytes → ℕ → UdpInfo → Run (Status × UdpInfo)
parse_udp buf length out = if not (bounds_check length 0 8) then done (truncated, out) else do
  src_port ← load_u16 buf length 0
  dst_port ← load_u16 buf length 2
  udp_length ← load_u16 buf length 4
  checksum ← load_u16 buf length 6
  if ltb udp_length 8
      then done (malformed, out)
      else done (
        ok,
        record zero_udp {
          source_port = src_port;
          destination_port = dst_port;
          length = udp_length;
          checksum = checksum;
        },
      )
