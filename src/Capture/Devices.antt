-- ===== src/Capture/Devices.antt =====
-- `ns_capture_list_interfaces` and `ns_capture_interface_exists` of src/capture.c.
use netscope.Base.{
  ℕ, suc, Bytes, Bool, true, false, Option, none, some, List, [], ◌∷◌, ◌++◌, if◌then◌else◌,
}
use netscope.Run.{Run, done, ◌>>=◌, Outcome, refused, accepted}
use netscope.Util.Text.{decimal, printed}
use netscope.Util.Format.{codes}
use netscope.Config.Parse.{text_eq}
use netscope.Capture.Data.{
  live, Sys, need, close, Address, null_address, other_address, inet_address, inet6_address, Device,
  Pcap,
}

-- One turn of the loop over the addresses.
unfoldable pub address_text : Address → Bytes
address_text null_address = []
address_text other_address = []
address_text (inet_address none) = []
address_text (inet_address (some text)) = printed (codes "     IPv4: " ∷ text ∷ codes "\n" ∷ [])
address_text (inet6_address none) = []
address_text (inet6_address (some text)) = printed (codes "     IPv6: " ∷ text ∷ codes "\n" ∷ [])

unfoldable pub print_device_addresses : List Address → Bytes
print_device_addresses [] = []
print_device_addresses (a ∷ more) = address_text a ++ print_device_addresses more

abbrev pub description_text : Option Bytes → Bytes
description_text none = []
description_text (some text) = printed (codes "   " ∷ text ∷ codes "\n" ∷ [])

abbrev pub addresses_text : List Address → Bytes
addresses_text [] = []
addresses_text (a ∷ more) = codes "   addresses:\n" ++ print_device_addresses (a ∷ more)

-- The loop over the devices, which reads the list and so needs it.
unfoldable pub print_devices : Sys → ℕ → List Device → Run Bytes
print_devices sys index [] = done []
print_devices sys index (dev ∷ more) = do
  handle ← need sys.devices
  rest ← print_devices sys (suc index) more
  done (
      printed (
        decimal index
        ∷ codes ". "
        ∷ dev.name
        ∷ codes "\n"
        ∷ description_text dev.description
        ∷ addresses_text dev.addresses
        ∷ codes "\n"
        ∷ rest
        ∷ []))

-- `pcap_findalldevs` answers a null pointer where there are none.
abbrev pub found_devices : Sys → List Device → Sys
found_devices sys [] = sys
found_devices sys (dev ∷ more) = record sys { devices = live }

-- `pcap_freealldevs`, which takes a null pointer too.
unfoldable pub free_devices : Sys → List Device → Run Sys
free_devices sys [] = done sys
free_devices sys (dev ∷ more) = close sys.devices >>= (λ life. done (record sys { devices = life }))

unfoldable pub list_devices : Sys → List Device → Run (Sys × Bytes)
list_devices sys [] = done (
  sys,
  codes "No capture interfaces found.\n"
      ++ codes "hint: capturing usually requires elevated privileges; see README.md\n",
)
list_devices sys (dev ∷ more) = do
  text ← print_devices sys 1 (dev ∷ more)
  sys ← free_devices sys (dev ∷ more)
  done (sys, codes "Available interfaces:\n\n" ++ text)

-- The text on the stream, or the message of libpcap.
unfoldable pub devices_listed : Pcap → Sys → Option (List Device) → Run (Sys × Outcome Bytes)
devices_listed pcap sys none = done (sys, refused pcap.error)
devices_listed pcap sys (some devices) =
    list_devices (found_devices sys devices) devices >>= (λ r. done (r.0, accepted r.1))

unfoldable pub capture_list_interfaces : Pcap → Sys → Run (Sys × Outcome Bytes)
capture_list_interfaces pcap sys = devices_listed pcap sys pcap.findalldevs

-- The search reads the list too.
unfoldable pub has_device : Sys → Bytes → List Device → Run Bool
has_device sys name [] = done false
has_device sys name (dev ∷ more) = do
  handle ← need sys.devices
  let rest = has_device sys name more
  if text_eq dev.name name then done true else rest

unfoldable pub device_exists : Sys → Bytes → Option (List Device) → Run (Sys × Bool)
device_exists sys name none = done (sys, false)
device_exists sys name (some devices) = do
  let sys = found_devices sys devices
  found ← has_device sys name devices
  sys ← free_devices sys devices
  done (sys, found)

unfoldable pub capture_interface_exists : Pcap → Sys → Bytes → Run (Sys × Bool)
capture_interface_exists pcap sys name = device_exists sys name pcap.findalldevs
