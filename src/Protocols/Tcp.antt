-- ===== src/Protocols/Tcp.antt =====
-- src/protocols/tcp.c
pub mod Parse
pub mod Flags
use netscope.Base.{ℕ, ◌/◌, ◌%◌, ◌^◌, Bytes, not, Option, none, some, ltb, if◌then◌else◌}
use netscope.Run.{Run, done, ◌>>=◌}
use netscope.Word.{mul_size}
use netscope.Util.{bounds_check, load_u8, load_u16, load_u32}
use netscope.Protocols.Status.{Status, ok, truncated, malformed, Parsed}

pub record TcpInfo : Type 0 where
  pub source_port : ℕ
  pub destination_port : ℕ
  pub sequence_number : ℕ
  pub ack_number : ℕ
  pub data_offset : ℕ
  pub flags : ℕ
  pub window_size : ℕ
  pub checksum : ℕ
  pub urgent_pointer : ℕ
  pub header_length : ℕ

unfoldable pub parse_tcp : Bytes → ℕ → TcpInfo → Run (Parsed TcpInfo)
unfolding mul_size
parse_tcp buf length out =
    if not (bounds_check length 0 20) then done (truncated, out, none) else do
      src_port ← load_u16 buf length 0
      dst_port ← load_u16 buf length 2
      seq ← load_u32 buf length 4
      ack ← load_u32 buf length 8
      data_offset_reserved ← load_u8 buf length 12
      flags ← load_u8 buf length 13
      window ← load_u16 buf length 14
      checksum ← load_u16 buf length 16
      urgent ← load_u16 buf length 18
      let data_offset = data_offset_reserved / 2 ^ 4 % 2 ^ 8
      let hdr_len = mul_size data_offset 4
      if ltb data_offset 5
          then done (malformed, out, none)
          else if not (bounds_check length 0 hdr_len)
          then done (truncated, out, none)
          else done (
            ok,
            record {
              source_port = src_port;
              destination_port = dst_port;
              sequence_number = seq;
              ack_number = ack;
              data_offset = data_offset;
              flags = flags;
              window_size = window;
              checksum = checksum;
              urgent_pointer = urgent;
              header_length = hdr_len;
            },
            some hdr_len,
          )
