-- ===== src/Capture/Opening.antt =====
-- What is open after the calls of src/capture.c that open a capture or a dump file.
use netscope.Base.{ℕ, Bytes, false, not, ◌≡◌, refl, ◌==◌, if-intro}
use netscope.Run.{
  Run, ◌>>=◌, Returns, Returns-bind, Outcome, refused, accepted, Ends, Ends-bind, if-Ends,
}
use netscope.Util.Format.{codes, is_empty}
use netscope.Packet.Data.{LinkType}
use netscope.Capture.Data.{
  live, Sys, need, geterr, close, Pcap, Capture, Activation, activated, activated_warning,
  activate_failed,
}
use netscope.Capture.Open.{
  fail, apply_filter, resolve_link_type, give_up, filter_applied, link_resolved, finish_open,
  capture_open_live, capture_open_offline, capture_open_dump,
}
use netscope.Capture.Life.{IsShut, IsClean, IsOpen, close-Returns, need-Returns, geterr-Ends}

-- The capture is open, or has failed and left nothing.
abbrev pub Opening : Sys × Outcome Capture → Type 0
Opening (sys, refused message) = IsClean sys
Opening (sys, accepted cap) = IsOpen sys cap × IsShut sys.file × (cap.next_packet_number ≡ 0)

-- A handle that is open, and nothing else.
record IsBareHandle (sys : Sys) : Type 0 where
  pub pcap : sys.pcap ≡ live
  pub dumper : IsShut sys.dumper
  pub devices : IsShut sys.devices
  pub file : IsShut sys.file
  pub signal : sys.signal_handle ≡ false

give_up-Opening :
    (sys : Sys) (message : Bytes) → IsBareHandle sys → Returns (give_up sys message) Opening
unfolding give_up
give_up-Opening sys message h =
    Returns-bind (close sys.pcap) _ IsShut Opening (close-Returns sys.pcap h.pcap) (λ life shut.
      record {
        pcap = shut;
        dumper = h.dumper;
        devices = h.devices;
        file = h.file;
        signal = h.signal;
      })

module _ (pcap : Pcap) (sys : Sys) (err_len : ℕ) (h : IsBareHandle sys) where
  resolve_link_type-Ends : Ends (resolve_link_type pcap sys err_len)
  unfolding resolve_link_type
  resolve_link_type-Ends = Ends-bind (need sys.pcap) _ (need-Returns sys.pcap h.pcap) (λ u.
      if-intro (λ (m : Run (Outcome LinkType)). Ends m) (not (pcap.datalink == 1)) _ _ (λ e. tt)
        (λ e. tt))

  apply_filter-Ends : (bpf_filter : Bytes) → Ends (apply_filter pcap sys bpf_filter err_len)
  unfolding apply_filter
  apply_filter-Ends bpf_filter = if-Ends (is_empty bpf_filter) _ _ tt (
      Ends-bind (need sys.pcap) _ (need-Returns sys.pcap h.pcap) (λ u.
        if-intro (λ (m : Run (Outcome (Unit {0}))). Ends m) (not (pcap.compile bpf_filter)) _ _
          (λ e. Ends-bind (geterr pcap sys) _ (geterr-Ends pcap sys h.pcap) (λ error. tt))
          (λ e.
            if-intro (λ (m : Run (Outcome (Unit {0}))). Ends m) (not pcap.setfilter) _ _
              (λ e'. Ends-bind (geterr pcap sys) _ (geterr-Ends pcap sys h.pcap) (λ error. tt))
              (λ e'. tt))))

  filter_applied-Opening :
      (link_type : LinkType) (r : Outcome (Unit {0}))
      → Returns (filter_applied sys link_type r) Opening
  unfolding filter_applied
  filter_applied-Opening link_type (refused message) = give_up-Opening sys message h
  filter_applied-Opening link_type (accepted u) = (
    record {
      handle = refl;
      pcap = h.pcap;
      dumper = h.dumper;
      devices = h.devices;
      signal = h.signal;
    },
    h.file,
    refl,
  )

  link_resolved-Opening :
      (bpf_filter : Bytes) (r : Outcome LinkType)
      → Returns (link_resolved pcap sys bpf_filter err_len r) Opening
  unfolding link_resolved
  link_resolved-Opening bpf_filter (refused message) = give_up-Opening sys message h
  link_resolved-Opening bpf_filter (accepted link_type) =
      Returns-bind (apply_filter pcap sys bpf_filter err_len) _ (λ r. Unit) Opening
        (apply_filter-Ends bpf_filter) (λ r u. filter_applied-Opening link_type r)

  finish_open-Opening :
      (bpf_filter : Bytes) → Returns (finish_open pcap sys bpf_filter err_len) Opening
  unfolding finish_open
  finish_open-Opening bpf_filter =
      Returns-bind (resolve_link_type pcap sys err_len) _ (λ r. Unit) Opening resolve_link_type-Ends
        (λ r u. link_resolved-Opening bpf_filter r)

bare : (sys : Sys) → IsClean sys → IsBareHandle (record sys { pcap = live })
bare sys h = record {
  pcap = refl;
  dumper = h.dumper;
  devices = h.devices;
  file = h.file;
  signal = h.signal;
}

pub capture_open_live-Opening :
    (pcap : Pcap) (sys : Sys) (interface bpf_filter : Bytes) (err_len : ℕ)
    → IsClean sys
    → Returns (capture_open_live pcap sys interface bpf_filter err_len) Opening
unfolding capture_open_live need
capture_open_live-Opening pcap sys interface bpf_filter err_len h =
    if-intro (λ m. Returns m Opening) (not (pcap.create interface)) _ _ (λ e. h)
      (λ e. by_activation pcap.activate)
  where
    by_activation :
        (a : Activation)
        → Returns
            (elim a [
              | activate_failed ↦ geterr pcap (record sys { pcap = live }) >>= (λ error.
                  give_up
                    (record sys { pcap = live })
                    (fail err_len (codes "failed to activate capture on '") interface error))
              | activated_warning ↦ finish_open pcap (record sys { pcap = live }) bpf_filter err_len
              | activated ↦ finish_open pcap (record sys { pcap = live }) bpf_filter err_len
            ])
            Opening
    by_activation activate_failed =
        Returns-bind (geterr pcap (record sys { pcap = live })) _ (λ error. Unit) Opening
          (geterr-Ends pcap (record sys { pcap = live }) refl)
          (λ error u. give_up-Opening _ _ (bare sys h))
    by_activation activated_warning = finish_open-Opening pcap _ err_len (bare sys h) bpf_filter
    by_activation activated = finish_open-Opening pcap _ err_len (bare sys h) bpf_filter

pub capture_open_offline-Opening :
    (pcap : Pcap) (sys : Sys) (path bpf_filter : Bytes) (err_len : ℕ)
    → IsClean sys
    → Returns (capture_open_offline pcap sys path bpf_filter err_len) Opening
unfolding capture_open_offline
capture_open_offline-Opening pcap sys path bpf_filter err_len h =
    if-intro (λ m. Returns m Opening) (not (pcap.open_offline path)) _ _ (λ e. h)
      (λ e. finish_open-Opening pcap _ err_len (bare sys h) bpf_filter)

-- A dump file is opened, or the capture stays as it is.
abbrev pub DumpOpening : Sys → Capture → Sys × Outcome Capture → Type 0
DumpOpening sys cap (sys', refused message) = IsOpen sys' cap × IsShut sys'.file
DumpOpening sys cap (sys', accepted cap') =
    IsOpen sys' cap' × IsShut sys'.file × (cap'.next_packet_number ≡ 0)

pub capture_open_dump-DumpOpening :
    (pcap : Pcap) (sys : Sys) (cap : Capture) (path : Bytes) (err_len : ℕ)
    → IsOpen sys cap
    → IsShut sys.file
    → cap.next_packet_number ≡ 0
    → Returns (capture_open_dump pcap sys cap path err_len) (DumpOpening sys cap)
unfolding capture_open_dump
capture_open_dump-DumpOpening pcap sys cap path err_len h f zero =
    Returns-bind (need sys.pcap) _ (λ u. Unit) (DumpOpening sys cap) (need-Returns sys.pcap h.pcap)
      (λ l u.
        if-intro (λ m. Returns m (DumpOpening sys cap)) (not (pcap.dump_open path)) _ _
          (λ e.
            Returns-bind (geterr pcap sys) _ (λ error. Unit) (DumpOpening sys cap)
              (geterr-Ends pcap sys h.pcap) (λ error u'. (h, f)))
          (λ e. (
            record {
              handle = h.handle;
              pcap = h.pcap;
              dumper = refl;
              devices = h.devices;
              signal = h.signal;
            },
            f,
            zero,
          )))
