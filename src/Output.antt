-- ===== src/Output.antt =====
-- `ns_output_packet` of src/output.c.
pub mod Data
pub mod Escape
pub mod Text
pub mod Verbose
pub mod Json
pub mod Safe
use netscope.Base.{Bytes, Bool, true, false, ◌++◌, [], if◌then◌else◌}
use netscope.Run.{Run, done, ◌>>=◌}
use netscope.Util.HexDump.{hex_dump_file}
use netscope.Config.Data.{OutputFormat, text_format, json_format}
use netscope.Packet.Data.{Packet}
use netscope.Output.Data.{OutputOptions, Clock}
use netscope.Output.Text.{print_text_line}
use netscope.Output.Verbose.{print_verbose_block}
use netscope.Output.Json.{print_json_line}

unfoldable pub output_text : Clock → Packet → OutputOptions → Bytes → Run Bytes
output_text clock pkt opts out = if opts.quiet then done out else do
  line ← print_text_line clock pkt opts
  block ← if opts.verbose then print_verbose_block clock pkt else done []
  if opts.hex
      then hex_dump_file pkt.raw_data pkt.captured_length (out ++ (line ++ block))
      else done (out ++ (line ++ block))

unfoldable pub output_packet : Clock → Packet → OutputOptions → Bytes → Run Bytes
output_packet clock pkt opts out = elim opts.format [
  | json_format ↦ print_json_line clock pkt >>= (λ line. done (out ++ line))
  | text_format ↦ output_text clock pkt opts out
]
