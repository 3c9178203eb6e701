-- ===== src/Tests/Output.antt =====
-- The output for a UDP packet, and the dump of a DNS query.
use netscope.Base.{◌+◌, ◌/◌, Bytes, true, false, some, [], ◌∷◌, ◌++◌, ◌≡◌, refl, take, arith}
use netscope.Run.{done, Returns}
use netscope.Util.Text.{snprintf, length-snprintf-room, c_str, hex_padded}
use netscope.Util.Format.{codes}
use netscope.Util.HexDump.{hex_dump_file}
use netscope.Util.HexDump.Lines.{rows_text}
use netscope.Util.HexDump.Rows.{hex_dump_file_lem}
use netscope.Config.Data.{text_format}
use netscope.Output.Data.{Clock, IsClock, OutputOptions}
use netscope.Output.Escape.{json_write_escaped, escape_chars, escape_char}
use netscope.Output.Escape.RoundTrip.{read_string, json_write_escaped-read_string}
use netscope.Output.Json.{print_json_line}
use netscope.Output.Json.Value.{show_json, packet_json}
use netscope.Output.Json.Line.{print_json_line_lem}
use netscope.Output.Json.Ascii.{IsLine, print_json_line-IsLine}
use netscope.Output.{output_packet}
use netscope.Output.Safe.{Appends, output_packet-Appends}
use netscope.Tests.Frames.{dns_query, dns_query-IsBuffer}
use netscope.Tests.Stats.{udp_packet, udp_packet-IsPacket}

-- A clock that always shows the same time.
abbrev pub stopped : Clock
stopped = record {
  strftime_local = λ room format t. snprintf room (codes "12:00:00");
  strftime_utc = λ room format t. snprintf room (codes "2026-01-01T12:00:00");
}

pub stopped-IsClock : IsClock stopped
stopped-IsClock = record {
  local_fits = λ room format t h. omega (arith, length-snprintf-room room (codes "12:00:00"));
  utc_fits =
      λ room format t h. omega (arith, length-snprintf-room room (codes "2026-01-01T12:00:00"));
}

abbrev pub everything : OutputOptions
everything = record {
  color = true;
  verbose = true;
  quiet = false;
  hex = true;
  format = text_format;
}

abbrev odd_name : Bytes
odd_name = b'a' ∷ 34 ∷ 92 ∷ 10 ∷ 200 ∷ []

json_write_escaped-read_string_example :
    read_string (json_write_escaped odd_name ++ codes "}") ≡ some (c_str odd_name, codes "}")
json_write_escaped-read_string_example =
    json_write_escaped-read_string odd_name (codes "}") (omega arith)

odd_name_escaped : json_write_escaped odd_name ≡ codes "\"a\\\"\\\\\\n\\u00c8\""
unfolding json_write_escaped escape_chars c_str escape_char hex_padded
odd_name_escaped = refl

print_json_line_example :
    print_json_line stopped udp_packet
    ≡ done (show_json (packet_json stopped udp_packet) (b'\n' ∷ []))
print_json_line_example = print_json_line_lem stopped udp_packet stopped-IsClock udp_packet-IsPacket

print_json_line-IsLine_example : Returns (print_json_line stopped udp_packet) IsLine
print_json_line-IsLine_example =
    print_json_line-IsLine stopped udp_packet stopped-IsClock udp_packet-IsPacket

output_packet-Appends_example :
    Returns (output_packet stopped udp_packet everything (codes "x")) (Appends (codes "x"))
output_packet-Appends_example =
    output_packet-Appends stopped udp_packet stopped-IsClock udp_packet-IsPacket (omega arith)
      everything (codes "x")

hex_dump_file_example :
    hex_dump_file dns_query 20 [] ≡ done ([] ++ rows_text ((20 + 15) / 16) 0 (take 20 dns_query))
hex_dump_file_example = hex_dump_file_lem dns_query-IsBuffer (omega arith) []
