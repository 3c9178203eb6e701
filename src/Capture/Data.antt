-- ===== src/Capture/Data.antt =====
-- include/netscope/capture.h, and what src/capture.c uses of libpcap.
use netscope.Base.{ℕ, Bytes, Bool, false, Option, List}
use netscope.Run.{Run, done, fault, Fault, ◌>>=◌}
use netscope.Packet.Data.{Timestamp, LinkType, no_link}

-- The life of an object of libpcap or of the C library.
pub data Life : Type 0 where
  absent live closed : Life

-- What is open: the capture handle, the dump file, the list of devices and the output file; and
-- whether `g_capture_handle` of src/signal_handler.c is set.
pub record Sys : Type 0 where
  pub pcap : Life
  pub dumper : Life
  pub devices : Life
  pub file : Life
  pub signal_handle : Bool

-- An object that is used must be open.
unfoldable pub need : Life → Run Life
need live = done live
need other = fault Fault.dead_object

-- `pcap_close`, `pcap_dump_close`, `fclose`
unfoldable pub close : Life → Run Life
close live = done closed
close other = fault Fault.dead_object

-- A captured frame: the header that libpcap passes, and the bytes.
pub record Frame : Type 0 where
  pub ts : Timestamp
  pub caplen : ℕ
  pub len : ℕ
  pub buf : Bytes

pub data Activation : Type 0 where
  activated activated_warning activate_failed : Activation

-- How `pcap_loop` ends: 0, -2 or -1.
pub data LoopEnd : Type 0 where
  end_of_file broken loop_error : LoopEnd

-- An address of a device, with what `inet_ntop` makes of it, where it succeeds.
pub data Address : Type 0 where
  null_address other_address : Address
  inet_address inet6_address : Option Bytes → Address

pub record Device : Type 0 where
  pub name : Bytes
  pub description : Option Bytes
  pub addresses : List Address

-- What the calls of libpcap answer. `frames` are those that `pcap_loop` hands to the callback.
pub record Pcap : Type 0 where
  pub error : Bytes
  pub findalldevs : Option (List Device)
  pub create : Bytes → Bool
  pub activate : Activation
  pub open_offline : Bytes → Bool
  pub datalink : ℕ
  pub datalink_name : Option Bytes
  pub compile : Bytes → Bool
  pub setfilter : Bool
  pub dump_open : Bytes → Bool
  pub frames : List Frame
  pub loop_end : LoopEnd

-- `pcap_geterr`, which reads the handle.
unfoldable pub geterr : Pcap → Sys → Run Bytes
geterr pcap sys = need sys.pcap >>= (λ handle. done pcap.error)

-- `ns_capture_t`; for the two pointers, whether they are null.
pub record Capture : Type 0 where
  pub handle : Bool
  pub link_type : LinkType
  pub dumper : Bool
  pub next_packet_number : ℕ

abbrev pub zero_capture : Capture
zero_capture = record {
  handle = false;
  link_type = no_link;
  dumper = false;
  next_packet_number = 0;
}
