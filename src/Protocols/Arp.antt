-- ===== src/Protocols/Arp.antt =====
-- src/protocols/arp.c. An IPv4 address is kept as its four bytes in memory: the code copies it with
-- `memcpy` into a `uint32_t` and only ever looks at its bytes again.
pub mod Parse
use netscope.Base.{ℕ, ◌+◌, ◌*◌, Bytes, not, ◌||◌, ◌==◌, if◌then◌else◌, replicate}
use netscope.Run.{Run, done, ◌>>=◌}
use netscope.Word.{add_size}
use netscope.Util.{bounds_check, load_u8, load_u16, memcpy}
use netscope.Protocols.Status.{Status, ok, truncated, unsupported}

pub record ArpInfo : Type 0 where
  pub operation : ℕ
  pub sender_mac : Bytes
  pub sender_ip : Bytes
  pub target_mac : Bytes
  pub target_ip : Bytes

abbrev pub zero_arp : ArpInfo
zero_arp = record {
  operation = 0;
  sender_mac = replicate 6 0;
  sender_ip = replicate 4 0;
  target_mac = replicate 6 0;
  target_ip = replicate 4 0;
}

-- The body behind the header, once its size has been checked.
arp_body : Bytes → ℕ → Run (Status × ArpInfo)
arp_body buf operation = do
  let off : ℕ = 8
  sender_mac ← memcpy buf off 6
  let off = add_size off 6
  sender_ip ← memcpy buf off 4
  let off = add_size off 4
  target_mac ← memcpy buf off 6
  let off = add_size off 6
  target_ip ← memcpy buf off 4
  done (
    ok,
    record zero_arp {
      operation = operation;
      sender_mac = sender_mac;
      sender_ip = sender_ip;
      target_mac = target_mac;
      target_ip = target_ip;
    },
  )

unfoldable pub parse_arp : Bytes → ℕ → ArpInfo → Run (Status × ArpInfo)
unfolding arp_body add_size
parse_arp buf length out = if not (bounds_check length 0 8) then done (truncated, out) else do
  htype ← load_u16 buf length 0
  ptype ← load_u16 buf length 2
  hlen ← load_u8 buf length 4
  plen ← load_u8 buf length 5
  operation ← load_u16 buf length 6
  if not (htype == 1) || not (ptype == 0x0800) || not (hlen == 6) || not (plen == 4)
      then done (unsupported, out)
      else if not (bounds_check length 8 (2 * hlen + 2 * plen))
      then done (truncated, out)
      else arp_body buf operation
