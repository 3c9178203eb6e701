-- ===== src/Main/Usage.antt =====
-- `ns_config_print_help` and `ns_config_print_version` of src/config.c, and include/netscope/version.h.
use netscope.Base.{Bytes, [], ◌∷◌}
use netscope.Util.Text.{printed}
use netscope.Util.Format.{codes}

abbrev pub ns_name : Bytes
ns_name = codes "NetScope"

abbrev pub ns_version : Bytes
ns_version = codes "0.1.0"

unfoldable pub config_print_help : Bytes → Bytes
config_print_help program_name = printed (
    ns_name
    ∷ codes " "
    ∷ ns_version
    ∷ codes " -- capture and analyze network traffic\n"
    ∷ codes "\n"
    ∷ codes "Usage:\n"
    ∷ codes "  "
    ∷ program_name
    ∷ codes " -i <interface> [options]\n"
    ∷ codes "  "
    ∷ program_name
    ∷ codes " -r <capture.pcap> [options]\n"
    ∷ codes "  "
    ∷ program_name
    ∷ codes " --list-interfaces\n"
    ∷ codes "\n"
    ∷ codes "Input:\n"
    ∷ codes "  -i, --interface <name>   capture live from a network interface\n"
    ∷ codes "  -r, --read <file>        read packets from a pcap file\n"
    ∷ codes "      --list-interfaces    list available capture interfaces and exit\n"
    ∷ codes "\n"
    ∷ codes "Filtering (simplified; translated to a BPF expression):\n"
    ∷ codes "      --tcp                only TCP packets\n"
    ∷ codes "      --udp                only UDP packets\n"
    ∷ codes "      --icmp               only ICMP/ICMPv6 packets\n"
    ∷ codes "      --port <n>           only packets on port n\n"
    ∷ codes "      --host <addr>        only packets to/from addr\n"
    ∷ codes "      --src <addr>         only packets from addr\n"
    ∷ codes "      --dst <addr>         only packets to addr\n"
    ∷ codes "      --filter <bpf>       raw BPF expression (mutually exclusive with the above)\n"
    ∷ codes "\n"
    ∷ codes "Output:\n"
    ∷ codes "      --no-color           disable ANSI colors\n"
    ∷ codes "      --verbose            print a detailed field-by-field block per packet\n"
    ∷ codes "      --quiet              suppress per-packet output\n"
    ∷ codes "      --stats              print traffic statistics when capture ends\n"
    ∷ codes "      --hex                print a hex dump of each packet\n"
    ∷ codes "      --format <text|json> output format (default: text)\n"
    ∷ codes "      --output <file>      write --format json output to file instead of stdout\n"
    ∷ codes "      --write <file>       save captured packets to a pcap file\n"
    ∷ codes "\n"
    ∷ codes "Diagnostics:\n"
    ∷ codes "  -v, -vv                  increase internal log verbosity (INFO, DEBUG)\n"
    ∷ codes "      --debug              shorthand for -vv\n"
    ∷ codes "\n"
    ∷ codes "  -h, --help               show this help and exit\n"
    ∷ codes "      --version            show version information and exit\n"
    ∷ [])

unfoldable pub config_print_version : Bytes
config_print_version = printed (ns_name ∷ codes " " ∷ ns_version ∷ codes "\n" ∷ [])
