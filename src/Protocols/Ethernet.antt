-- ===== src/Protocols/Ethernet.antt =====
-- src/protocols/ethernet.c
pub mod Parse
use netscope.Base.{
  ℕ, Bytes, Bool, true, false, not, Option, none, some, bit_and, ◌%◌, ◌^◌, [], ◌==◌, if◌then◌else◌,
  replicate,
}
use netscope.Run.{Run, done, ◌>>=◌}
use netscope.Util.{bounds_check, read_u16_be, load_u16, memcpy}
use netscope.Protocols.Status.{Status, ok, truncated, Parsed}

pub record EthInfo : Type 0 where
  pub destination : Bytes
  pub source : Bytes
  pub ethertype : ℕ
  pub has_vlan : Bool
  pub vlan_id : ℕ

abbrev pub zero_eth : EthInfo
zero_eth = record {
  destination = replicate 6 0;
  source = replicate 6 0;
  ethertype = 0;
  has_vlan = false;
  vlan_id = 0;
}

-- From the test for a VLAN tag on, with the ethertype that was read and what is in `*out`.
parse_vlan : Bytes → ℕ → ℕ → EthInfo → Run (Parsed EthInfo)
parse_vlan buf length ethertype out =
    if not (ethertype == 0x8100)
    then done (ok, record out { ethertype = ethertype }, some 14)
    else if not (bounds_check length 0 18)
    then done (truncated, out, none)
    else do
      vlan_field ← load_u16 buf length 14
      inner_type ← load_u16 buf length 16
      done (
        ok,
        record out {
          ethertype = inner_type;
          has_vlan = true;
          vlan_id = bit_and vlan_field 0x0FFF % 2 ^ 16;
        },
        some 18,
      )

unfoldable pub parse_ethernet : Bytes → ℕ → EthInfo → Run (Parsed EthInfo)
unfolding parse_vlan
parse_ethernet buf length out =
    if not (bounds_check length 0 14) then done (truncated, out, none) else do
      destination ← memcpy buf 0 6
      source ← memcpy buf 6 6
      ethertype ← read_u16_be buf length 12
      let out = record zero_eth { destination = destination; source = source }
      elim ethertype [ none ↦ done (truncated, out, none) | some e ↦ parse_vlan buf length e out ]
