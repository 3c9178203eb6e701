-- ===== src/Capture/Life.antt =====
-- What is open around `ns_capture_close` and the other calls of src/capture.c.
use netscope.Base.{Bool, true, false, ◌≡◌, refl, sym, if-intro, clash}
use mathlib.Core.Path.{subst}
use netscope.Run.{Returns, Returns-bind, Ends, Ends-bind}
use netscope.Capture.Data.{Life, absent, live, closed, Sys, need, geterr, close, Pcap, Capture}
use netscope.Capture.Loop.{close_dumper, close_handle, capture_close}

-- Not open: never opened, or closed.
abbrev pub IsShut : Life → Type 0
IsShut live = ⊥
IsShut other = Unit

-- Nothing is open, and the signal handler has no handle.
pub record IsClean (sys : Sys) : Type 0 where
  pub pcap : IsShut sys.pcap
  pub dumper : IsShut sys.dumper
  pub devices : IsShut sys.devices
  pub file : IsShut sys.file
  pub signal : sys.signal_handle ≡ false

-- What a capture that is open goes with: its handle, the dump file if it has one, and nothing else
-- but the output file.
abbrev pub HasDumper : Bool → Life → Type 0
HasDumper true life = life ≡ live
HasDumper false life = IsShut life

pub record IsOpen (sys : Sys) (cap : Capture) : Type 0 where
  pub handle : cap.handle ≡ true
  pub pcap : sys.pcap ≡ live
  pub dumper : HasDumper cap.dumper sys.dumper
  pub devices : IsShut sys.devices
  pub signal : sys.signal_handle ≡ false

pub close-Returns : (life : Life) → life ≡ live → Returns (close life) IsShut
unfolding close
close-Returns live e = tt
close-Returns absent e = subst IsShut e tt
close-Returns closed e = subst IsShut e tt

-- The dump file is closed, or there was none.
record DumpClosed (sys : Sys) (r : Sys × Capture) : Type 0 where
  pub handle : r.1.handle ≡ true
  pub pcap : r.0.pcap ≡ live
  pub dumper : IsShut r.0.dumper
  pub devices : IsShut r.0.devices
  pub file : r.0.file ≡ sys.file
  pub signal : r.0.signal_handle ≡ false

close_dumper-DumpClosed :
    (sys : Sys) (cap : Capture) → IsOpen sys cap → Returns (close_dumper sys cap) (DumpClosed sys)
unfolding close_dumper
close_dumper-DumpClosed sys cap h =
    if-intro (λ m. Returns m (DumpClosed sys)) cap.dumper _ _
      (λ e.
        Returns-bind (close sys.dumper) _ IsShut (DumpClosed sys)
          (close-Returns sys.dumper (subst (λ (b : Bool). HasDumper b sys.dumper) e h.dumper))
          (λ life shut. record {
            handle = h.handle;
            pcap = h.pcap;
            dumper = shut;
            devices = h.devices;
            file = refl;
            signal = h.signal;
          }))
      (λ e. record {
        handle = h.handle;
        pcap = h.pcap;
        dumper = subst (λ (b : Bool). HasDumper b sys.dumper) e h.dumper;
        devices = h.devices;
        file = refl;
        signal = h.signal;
      })

-- All closed but the output file, which is as it was.
pub record ClosedBut (sys : Sys) (r : Sys × Capture) : Type 0 where
  pub pcap : IsShut r.0.pcap
  pub dumper : IsShut r.0.dumper
  pub devices : IsShut r.0.devices
  pub signal : r.0.signal_handle ≡ false
  pub file : r.0.file ≡ sys.file

pub ClosedBut-IsClean :
    (sys : Sys) (r : Sys × Capture) → ClosedBut sys r → IsShut sys.file → IsClean r.0
ClosedBut-IsClean sys r h f = record {
  pcap = h.pcap;
  dumper = h.dumper;
  devices = h.devices;
  file = subst IsShut (sym h.file) f;
  signal = h.signal;
}

pub capture_close-ClosedBut :
    (sys : Sys) (cap : Capture) → IsOpen sys cap → Returns (capture_close sys cap) (ClosedBut sys)
unfolding capture_close close_handle
capture_close-ClosedBut sys cap h =
    Returns-bind (close_dumper sys cap) _ (DumpClosed sys) (ClosedBut sys)
      (close_dumper-DumpClosed sys cap h)
      (λ r d.
        if-intro (λ m. Returns m (ClosedBut sys)) r.1.handle _ _
          (λ e.
            Returns-bind (close r.0.pcap) _ IsShut (ClosedBut sys) (close-Returns r.0.pcap d.pcap)
              (λ life shut. record {
                pcap = shut;
                dumper = d.dumper;
                devices = d.devices;
                signal = d.signal;
                file = d.file;
              }))
          (λ e. absurd (clash r.1.handle d.handle e)))

pub need-Returns : (life : Life) → life ≡ live → Ends (need life)
unfolding need
need-Returns live e = tt
need-Returns absent e = subst IsShut e tt
need-Returns closed e = subst IsShut e tt

pub geterr-Ends : (pcap : Pcap) (sys : Sys) → sys.pcap ≡ live → Ends (geterr pcap sys)
unfolding geterr
geterr-Ends pcap sys h = Ends-bind (need sys.pcap) _ (need-Returns sys.pcap h) (λ l. tt)
