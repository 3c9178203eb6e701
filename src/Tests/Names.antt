-- ===== src/Tests/Names.antt =====
-- Names of flags and types in the printed text.
use netscope.Base.{◌≡◌, refl, arith}
use netscope.Run.{done}
use netscope.Util.Text.{snprintf, decimal}
use netscope.Util.Format.{codes}
use netscope.Protocols.Tcp.Flags.{tcp_flags_to_string, tcp_flags_to_string_lem}
use netscope.Protocols.Icmp.{icmp_type_name}
use netscope.Protocols.Icmpv6.{icmpv6_type_name}
use netscope.Protocols.Dns.Rdata.{dns_type_name}

-- SYN and ACK.
tcp_flags_to_string_example : tcp_flags_to_string 0x12 32 ≡ done (codes "SYN,ACK")
tcp_flags_to_string_example = tcp_flags_to_string_lem 0x12 32 (omega arith) (omega arith)

echo_name : icmp_type_name 8 ≡ "Echo Request"
unfolding icmp_type_name
echo_name = refl

neighbor_name : icmpv6_type_name 135 ≡ "Neighbor Solicitation"
unfolding icmpv6_type_name
neighbor_name = refl

unknown_type : dns_type_name 33 16 ≡ codes "TYPE33"
unfolding dns_type_name snprintf decimal
unknown_type = refl
