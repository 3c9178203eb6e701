-- ===== src/Lib.antt =====
-- Netscope, a packet analyser in C, from its command line to its exit code.
--
-- The parts of the program. src/main.c reads the options (src/config.c), builds the capture filter
-- (src/filter.c), opens the capture (src/capture.c) and runs its loop: for each frame that libpcap
-- delivers, src/packet.c hands the bytes through the layers, whose parsers stand in src/protocols/, one
-- file per protocol; src/stats.c counts the dissected packet and keeps a table of flows, and
-- src/output.c prints it. All parsers read their bytes through the bounds-checked readers of src/util.c.
-- The model goes from the command line to the exit code.
--
-- Files.
--   Base, Base/Tests, Base/Lists   numbers, Boolean tests and lists that all modules share
--   Run          what a C call leaves: a value, or the fault that C does not define
--   Word         size_t (64 bit) with its wrap-around, and bit operations as arithmetic
--   Util         src/util.c: ns_bounds_check, ns_read_u8 ... ns_read_u64_be; Util/Reads has their
--                laws, Util/Buffer what a caller owes, Util/Text the C text functions in use
--   Util/Format  src/util.c: ns_format_mac, ns_format_ipv4, ns_format_ipv6
--   Protocols/X  src/protocols/x.c: the parser of one header; Protocols/X/Parse its description by
--                byte positions; Protocols/Ipv6/Extensions the chain of extension headers;
--                Protocols/Tcp/Flags ns_tcp_flags_to_string
--   Protocols/Dns/Name     src/protocols/dns.c: ns_dns_decode_name
--   Protocols/Dns/Rdata    ns_dns_format_a ... ns_dns_format_txt, ns_dns_format_rdata
--   Protocols/Dns/Message  ns_dns_parse_question, ns_dns_parse_record
--   Protocols/Dns/Parse    ns_parse_dns
--   Packet       src/packet.c: Packet/Data the structs of include/netscope/packet.h, Packet/Dissect
--                the functions, Packet/WellFormed the invariant, Packet/Transport, Packet/Network and
--                Packet/Total its proof, layer by layer
--   Stats        src/stats.c: Stats/Data the structs, Stats/Flow the endpoints, the hash and the table
--                of flows, Stats/Update ns_stats_update; Stats/Direction, Stats/Table, Stats/Keys,
--                Stats/Unique, Stats/Entries, Stats/Named and Stats/Counts their laws;
--                Stats/Top the top conversations of ns_stats_print, Stats/Top/Chosen which ones they are
--   Util/HexDump src/util.c: ns_hex_dump; Util/HexDump/Lines and Rows describe what it writes
--   Config       src/config.c: Config/Data the structs, Config/Port parse_port with strtol,
--                Config/Parse the options one by one, Config/Checks the loop and the checks behind
--                it; Config/Valid what is promised of accepted options
--   Output       src/output.c: Output/Data options and colours, Output/Text and Output/Verbose the
--                text, Output/Escape json_write_escaped, Output/Json print_json_line; Output/Json/Value
--                JSON values, Output/Json/Line and Ascii the laws, Output/Safe the output as a whole
--   Capture      src/capture.c: Capture/Data the structs and what is used of libpcap, Capture/Devices
--                the list of interfaces, Capture/Open opening, Capture/Loop callback, loop and close;
--                Capture/Life, Listed and Opening follow what is open, Capture/Loop/Counted the
--                frames
--   Main         src/main.c: Main/World what main finds and leaves, Main/Run main step by step,
--                Main/Usage help and version of src/config.c; Main/Counts, Main/Closed and Main/Whole
--                their laws
--   Filter       src/filter.c: the capture filter; Filter/Append and Filter/Built describe the expression
--                on its own
--   Tests        runs at concrete bytes
--
-- How C is written. A function has the name of the C function without `ns_`. A pointer to bytes is the
-- list of the bytes that are there, `length` the number the caller announces; `data + offset` drops
-- bytes. IsBuffer says that the announced bytes are there and that the length is a size_t. A read
-- outside the list, a store outside an array, the use of a variable that no one has set and the read of
-- a union member other than the one last written are faults (Run/Fault), so that "Returns" in a theorem
-- excludes them. An out parameter is an argument (its old contents) and part of the answer; a variable
-- such as `header_len` that is stored only on success is an Option. A char array filled from the front
-- is the text before its terminator, and the capacity is an argument of every store. A pointer to a slot
-- that may be null is an Option. An IPv4 address is its four bytes in memory.
-- An address is an array of fixed length in C; its list has that length, and the printing functions read
-- a 0 behind the end of a shorter one. The byte order of the
-- machine does not enter there: addresses are only copied and printed bytewise. The hash of a flow reads
-- the bytes of an enum, which is taken to have four, the low one first.
--
-- Loops. The loops with a constant bound (eight words of an address, eight extension headers) and the
-- loops over questions and answers are recursion on the turns that are left. The loop of
-- ns_dns_decode_name runs on fuel out_len + 34: each turn either follows a pointer, of which 33 at most
-- are taken, or lengthens the text, which stays under out_len. The loop over the strings of a TXT record
-- runs on fuel rdlength + 1, since each turn goes forward by a byte at least. Running out of fuel is a
-- fault, so the theorems show the fuel to be enough. The loop over the table of flows makes 1024 turns,
-- one for each slot.
--
-- What is written to a FILE is the text that a function returns, or that it adds to the text of the
-- stream; writing does not fail. Files, capture handles and lists of devices have a life (absent, live,
-- closed), and the use of one that is not live is a fault, so that "Returns" excludes a use after
-- closing and closing twice: the loops over the devices read the list, pcap_geterr and the other calls
-- read the handle, pcap_dump writes to the dump file, and handle_packet hands the output stream on.
-- stdout and stderr are always open. A signal only ends pcap_loop, whose frames and result are arguments.
-- Microseconds are not negative. The loop of ns_hex_dump has fuel for one turn per 16 bytes and one more.
--
-- Parameters. libpcap (Capture/Data, Pcap), getopt_long (Config/Parse, Getopt: the options it finds and
-- optind), strftime of the local and the UTC time (Output/Data, Clock), inet_ntop, fopen and isatty. The
-- theorems ask of strftime that its text fits with the terminator, of getopt_long that optind stays
-- within argv, and of libpcap that a frame has the bytes that its header announces.
--
-- Not modelled: the text of ns_stats_print and ns_format_bytes, which compute with doubles (main keeps
-- the call of ns_stats_print with its argument, and its choice of the top conversations is
-- modelled); src/log.c and the messages given to it, which only write to stderr; src/signal_handler.c but for whether the handle of the capture is set.
pub mod Base
pub mod Run
pub mod Word
pub mod Util
pub mod Protocols
pub mod Packet
pub mod Stats
pub mod Config
pub mod Capture
pub mod Output
pub mod Main
pub mod Filter
pub mod Tests
