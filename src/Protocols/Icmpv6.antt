-- ===== src/Protocols/Icmpv6.antt =====
-- src/protocols/icmpv6.c
pub mod Parse
use Prim.Native.String.{String}
use netscope.Base.{ℕ, Bytes, not, ◌||◌, ◌==◌, if◌then◌else◌}
use netscope.Run.{Run, done, ◌>>=◌}
use netscope.Util.{bounds_check, load_u8, load_u16}
use netscope.Protocols.Status.{Status, ok, truncated}

pub record Icmpv6Info : Type 0 where
  pub type : ℕ
  pub code : ℕ
  pub checksum : ℕ
  pub identifier : ℕ
  pub sequence : ℕ

abbrev pub zero_icmpv6 : Icmpv6Info
zero_icmpv6 = record { type = 0; code = 0; checksum = 0; identifier = 0; sequence = 0 }

-- A message that carries an echo identifier is cut off between the two halves of its header only
-- after the first half has been stored.
unfoldable pub parse_icmpv6 : Bytes → ℕ → Icmpv6Info → Run (Status × Icmpv6Info)
parse_icmpv6 buf length out = if not (bounds_check length 0 4) then done (truncated, out) else do
  type ← load_u8 buf length 0
  code ← load_u8 buf length 1
  checksum ← load_u16 buf length 2
  let out = record zero_icmpv6 { type = type; code = code; checksum = checksum }
  if type == 128 || type == 129
      then (if not (bounds_check length 0 8) then done (truncated, out) else do
        id ← load_u16 buf length 4
        seq ← load_u16 buf length 6
        done (ok, record out { identifier = id; sequence = seq }))
      else done (ok, out)

unfoldable pub icmpv6_type_name : ℕ → String
icmpv6_type_name type =
    if type == 1
    then "Destination Unreachable"
    else if type == 2
    then "Packet Too Big"
    else if type == 3
    then "Time Exceeded"
    else if type == 128
    then "Echo Request"
    else if type == 129
    then "Echo Reply"
    else if type == 135
    then "Neighbor Solicitation"
    else if type == 136
    then "Neighbor Advertisement"
    else "Unknown"
