-- ===== src/Tests/Filter.antt =====
-- Filter expressions, after tests/test_filter.c.
use netscope.Base.{true, false, none, some, ◌≡◌, refl, arith}
use netscope.Run.{done, Returns}
use netscope.Util.Text.{store, terminate, snprintf, decimal}
use netscope.Util.Format.{codes}
use netscope.Word.{add_size}
use netscope.Filter.{FilterSpec, append_piece, append, append_if, build_pieces, filter_build_bpf}
use netscope.Filter.Append.{IsBuilt}
use netscope.Filter.Built.{expression, filter_build_bpf-IsBuilt}

abbrev web : FilterSpec
web = record {
  tcp = true;
  udp = false;
  icmp = false;
  port = some 443;
  host = some (codes "a.b");
  src = none;
  dst = none;
  raw = none;
}

web_text : filter_build_bpf web 64 ≡ done (true, codes "tcp and port 443 and host a.b")
unfolding filter_build_bpf build_pieces append_if append append_piece store terminate snprintf
    decimal add_size
web_text = refl

filter_build_bpf-IsBuilt_example :
    Returns (filter_build_bpf web 64) (IsBuilt 64 (expression web none))
filter_build_bpf-IsBuilt_example = filter_build_bpf-IsBuilt web 64 (omega arith)
