-- ===== src/Protocols/Status.antt =====
-- include/netscope/protocols/proto_common.h. What a parser answers: its status, what it has stored
-- into `*out`, and what into `*header_len` (`none`: nothing, the caller's variable is as before).
use netscope.Base.{ℕ, Option}

pub data Status : Type 0 where
  ok truncated malformed unsupported : Status

abbrev pub Parsed : Type 0 → Type 0
Parsed A = Status × A × Option ℕ
