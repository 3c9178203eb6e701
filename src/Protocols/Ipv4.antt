-- ===== src/Protocols/Ipv4.antt =====
-- src/protocols/ipv4.c. An address is kept as its four bytes in memory (see Protocols/Arp).
pub mod Parse
use netscope.Base.{
  ℕ, ◌/◌, ◌%◌, ◌^◌, bit_and, Bytes, Bool, false, not, ◌&&◌, ◌||◌, Option, none, some, ltb, ◌==◌,
  if◌then◌else◌, replicate,
}
use netscope.Run.{Run, done, ◌>>=◌}
use netscope.Word.{mul_size}
use netscope.Util.{bounds_check, load_u8, load_u16, memcpy}
use netscope.Protocols.Status.{Status, ok, truncated, malformed, Parsed}

pub record Ipv4Info : Type 0 where
  pub version : ℕ
  pub ihl : ℕ
  pub dscp : ℕ
  pub ecn : ℕ
  pub total_length : ℕ
  pub identification : ℕ
  pub flag_df : Bool
  pub flag_mf : Bool
  pub fragment_offset : ℕ
  pub ttl : ℕ
  pub protocol : ℕ
  pub header_checksum : ℕ
  pub source : Bytes
  pub destination : Bytes
  pub header_length : ℕ
  pub is_fragment : Bool
  pub is_initial_fragment : Bool

-- From the check of the captured length against the header's own length on.
unfoldable pub ipv4_fields : Bytes → ℕ → ℕ → ℕ → Ipv4Info → Run (Parsed Ipv4Info)
unfolding mul_size
ipv4_fields buf length version ihl out = do
  let hdr_len = mul_size ihl 4
  if not (bounds_check length 0 hdr_len) then done (truncated, out, none) else do
    dscp_ecn ← load_u8 buf length 1
    total_length ← load_u16 buf length 2
    identification ← load_u16 buf length 4
    flags_frag ← load_u16 buf length 6
    ttl ← load_u8 buf length 8
    protocol ← load_u8 buf length 9
    checksum ← load_u16 buf length 10
    src ← memcpy buf 12 4
    dst ← memcpy buf 16 4
    let flag_mf = not (bit_and flags_frag 0x2000 == 0)
    let fragment_offset = bit_and flags_frag 0x1FFF % 2 ^ 16
    let is_fragment = flag_mf || not (fragment_offset == 0)
    if ltb total_length hdr_len
        then done (malformed, out, none)
        else done (
          ok,
          record {
            version = version;
            ihl = ihl;
            dscp = dscp_ecn / 2 ^ 2 % 2 ^ 8;
            ecn = bit_and dscp_ecn 0x03 % 2 ^ 8;
            total_length = total_length;
            identification = identification;
            flag_df = not (bit_and flags_frag 0x4000 == 0);
            flag_mf = flag_mf;
            fragment_offset = fragment_offset;
            ttl = ttl;
            protocol = protocol;
            header_checksum = checksum;
            source = src;
            destination = dst;
            header_length = hdr_len;
            is_fragment = is_fragment;
            is_initial_fragment = is_fragment && fragment_offset == 0;
          },
          some hdr_len,
        )

unfoldable pub parse_ipv4 : Bytes → ℕ → Ipv4Info → Run (Parsed Ipv4Info)
parse_ipv4 buf length out =
    if not (bounds_check length 0 20) then done (truncated, out, none) else do
      version_ihl ← load_u8 buf length 0
      let version = version_ihl / 2 ^ 4 % 2 ^ 8
      let ihl = bit_and version_ihl 0x0F % 2 ^ 8
      if not (version == 4)
          then done (malformed, out, none)
          else if ltb ihl 5
          then done (malformed, out, none)
          else ipv4_fields buf length version ihl out
