-- ===== src/Util/Format/Ipv4.antt =====
-- The length of the text of `ns_format_ipv4` of src/util.c.
use netscope.Base.{ℕ, ◌<◌, Bytes, length, arith}
use netscope.Util.Text.{length-snprintf-room}
use netscope.Util.Format.{format_ipv4}

pub length-format_ipv4 :
    (addr : Bytes) (buf_len : ℕ) → 0 < buf_len → length (format_ipv4 addr buf_len) < buf_len
unfolding format_ipv4
length-format_ipv4 addr buf_len h = omega (arith, length-snprintf-room buf_len _)
