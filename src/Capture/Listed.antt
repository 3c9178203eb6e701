-- ===== src/Capture/Listed.antt =====
-- The list of devices in `ns_capture_list_interfaces` and `ns_capture_interface_exists` of
-- src/capture.c, while it is there and after it is freed.
use netscope.Base.{ℕ, suc, Bytes, Option, none, some, List, [], ◌∷◌, ◌≡◌, refl}
use netscope.Run.{Returns, Returns-bind, Ends, Ends-bind, if-Ends}
use netscope.Config.Parse.{text_eq}
use netscope.Capture.Data.{Life, live, Sys, need, close, Pcap, Device}
use netscope.Capture.Devices.{
  free_devices, found_devices, list_devices, capture_list_interfaces, capture_interface_exists,
  device_exists, devices_listed, print_devices, has_device,
}
use netscope.Capture.Life.{IsClean, need-Returns}

pub free_devices-IsClean :
    (sys : Sys) (devices : List Device)
    → IsClean sys
    → Returns (free_devices (found_devices sys devices) devices) IsClean
unfolding free_devices close
free_devices-IsClean sys [] h = h
free_devices-IsClean sys (d ∷ devices) h = record {
  pcap = h.pcap;
  dumper = h.dumper;
  devices = tt;
  file = h.file;
  signal = h.signal;
}

-- A list of devices is read while it is there; an empty one is not read.
abbrev HasDevices : List Device → Life → Type 0
HasDevices [] now = Unit
HasDevices (d ∷ devices) now = now ≡ live

found_devices-HasDevices :
    (sys : Sys) (devices : List Device) → HasDevices devices (found_devices sys devices).devices
found_devices-HasDevices sys [] = tt
found_devices-HasDevices sys (d ∷ devices) = refl

tail-HasDevices :
    (d : Device) (devices : List Device) (now : Life)
    → HasDevices (d ∷ devices) now
    → HasDevices devices now
tail-HasDevices d [] now h = tt
tail-HasDevices d (e ∷ devices) now h = h

print_devices-Ends :
    (sys : Sys) (index : ℕ) (devices : List Device)
    → HasDevices devices sys.devices
    → Ends (print_devices sys index devices)
unfolding print_devices
print_devices-Ends sys index [] h = tt
print_devices-Ends sys index (d ∷ devices) h =
    Ends-bind (need sys.devices) _ (need-Returns sys.devices h) (λ l.
      Ends-bind (print_devices sys (suc index) devices) _
        (print_devices-Ends sys (suc index) devices (tail-HasDevices d devices sys.devices h))
        (λ rest. tt))

has_device-Ends :
    (sys : Sys) (name : Bytes) (devices : List Device)
    → HasDevices devices sys.devices
    → Ends (has_device sys name devices)
unfolding has_device
has_device-Ends sys name [] h = tt
has_device-Ends sys name (d ∷ devices) h =
    Ends-bind (need sys.devices) _ (need-Returns sys.devices h) (λ l.
      if-Ends (text_eq d.name name) _ _ tt
        (has_device-Ends sys name devices (tail-HasDevices d devices sys.devices h)))

device_exists-IsClean :
    (sys : Sys) (name : Bytes) (d : Option (List Device))
    → IsClean sys
    → Returns (device_exists sys name d) (λ r. IsClean r.0)
unfolding device_exists
device_exists-IsClean sys name none h = h
device_exists-IsClean sys name (some devices) h =
    Returns-bind (has_device (found_devices sys devices) name devices) _ (λ b. Unit)
      (λ r. IsClean r.0)
      (has_device-Ends (found_devices sys devices) name devices
        (found_devices-HasDevices sys devices))
      (λ found u.
        Returns-bind (free_devices (found_devices sys devices) devices) _ IsClean (λ r. IsClean r.0)
          (free_devices-IsClean sys devices h) (λ s hs. hs))

pub capture_interface_exists-IsClean :
    (pcap : Pcap) (sys : Sys) (name : Bytes)
    → IsClean sys
    → Returns (capture_interface_exists pcap sys name) (λ r. IsClean r.0)
unfolding capture_interface_exists
capture_interface_exists-IsClean pcap sys name h = device_exists-IsClean sys name pcap.findalldevs h

list_devices-IsClean :
    (sys : Sys) (devices : List Device)
    → IsClean sys
    → Returns (list_devices (found_devices sys devices) devices) (λ r. IsClean r.0)
unfolding list_devices
list_devices-IsClean sys [] h = h
list_devices-IsClean sys (d ∷ devices) h =
    Returns-bind (print_devices (found_devices sys (d ∷ devices)) 1 (d ∷ devices)) _ (λ s. Unit)
      (λ r. IsClean r.0) (print_devices-Ends (found_devices sys (d ∷ devices)) 1 (d ∷ devices) refl)
      (λ text u.
        Returns-bind (free_devices (found_devices sys (d ∷ devices)) (d ∷ devices)) _ IsClean
          (λ r. IsClean r.0) (free_devices-IsClean sys (d ∷ devices) h) (λ s hs. hs))

devices_listed-IsClean :
    (pcap : Pcap) (sys : Sys) (d : Option (List Device))
    → IsClean sys
    → Returns (devices_listed pcap sys d) (λ r. IsClean r.0)
unfolding devices_listed
devices_listed-IsClean pcap sys none h = h
devices_listed-IsClean pcap sys (some devices) h =
    Returns-bind (list_devices (found_devices sys devices) devices) _ (λ r. IsClean r.0)
      (λ r. IsClean r.0) (list_devices-IsClean sys devices h) (λ s hs. hs)

pub capture_list_interfaces-IsClean :
    (pcap : Pcap) (sys : Sys)
    → IsClean sys
    → Returns (capture_list_interfaces pcap sys) (λ r. IsClean r.0)
unfolding capture_list_interfaces
capture_list_interfaces-IsClean pcap sys h = devices_listed-IsClean pcap sys pcap.findalldevs h
