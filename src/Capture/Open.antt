-- ===== src/Capture/Open.antt =====
-- `ns_capture_open_live`, `ns_capture_open_offline` and `ns_capture_open_dump` of src/capture.c.
use netscope.Base.{ℕ, Bytes, true, not, Option, none, some, [], ◌∷◌, ◌==◌, if◌then◌else◌}
use netscope.Run.{Run, done, ◌>>=◌, Outcome, refused, accepted}
use netscope.Util.Text.{snprintf, printed}
use netscope.Util.Format.{codes, is_empty}
use netscope.Packet.Data.{LinkType, ethernet_link}
use netscope.Capture.Data.{
  live, Sys, need, geterr, close, activated, activated_warning, activate_failed, Pcap, Capture,
  zero_capture,
}

abbrev pub fail : ℕ → Bytes → Bytes → Bytes → Bytes
fail err_len start name error = snprintf err_len (printed (start ∷ name ∷ codes "': " ∷ error ∷ []))

-- Both use the handle.
unfoldable pub apply_filter : Pcap → Sys → Bytes → ℕ → Run (Outcome (Unit {0}))
apply_filter pcap sys bpf_filter err_len = if is_empty bpf_filter then done (accepted tt) else do
  handle ← need sys.pcap
  if not (pcap.compile bpf_filter)
      then geterr pcap sys >>= (λ error.
        done (refused (fail err_len (codes "invalid capture filter '") bpf_filter error)))
      else if not pcap.setfilter
      then geterr pcap sys >>= (λ error. done (
          refused
            (snprintf err_len (printed (codes "failed to apply capture filter: " ∷ error ∷ [])))))
      else done (accepted tt)

abbrev pub name_or_unknown : Option Bytes → Bytes
name_or_unknown none = codes "unknown"
name_or_unknown (some name) = name

-- DLT_EN10MB is 1.
unfoldable pub resolve_link_type : Pcap → Sys → ℕ → Run (Outcome LinkType)
resolve_link_type pcap sys err_len = do
  handle ← need sys.pcap
  if not (pcap.datalink == 1)
      then done (
          refused (
            snprintf err_len (
              printed
                (codes "unsupported datalink type: " ∷ name_or_unknown pcap.datalink_name ∷ []))))
      else done (accepted ethernet_link)

-- `pcap_close(handle); return false;`
unfoldable pub give_up : Sys → Bytes → Run (Sys × Outcome Capture)
give_up sys message =
    close sys.pcap >>= (λ life. done (record sys { pcap = life }, refused message))

unfoldable pub filter_applied : Sys → LinkType → Outcome (Unit {0}) → Run (Sys × Outcome Capture)
filter_applied sys link_type (refused message) = give_up sys message
filter_applied sys link_type (accepted u) =
    done (sys, accepted (record zero_capture { handle = true; link_type = link_type }))

unfoldable pub link_resolved :
    Pcap → Sys → Bytes → ℕ → Outcome LinkType → Run (Sys × Outcome Capture)
link_resolved pcap sys bpf_filter err_len (refused message) = give_up sys message
link_resolved pcap sys bpf_filter err_len (accepted link_type) =
    apply_filter pcap sys bpf_filter err_len >>= filter_applied sys link_type

-- What both ways of opening do with a handle.
unfoldable pub finish_open : Pcap → Sys → Bytes → ℕ → Run (Sys × Outcome Capture)
finish_open pcap sys bpf_filter err_len =
    resolve_link_type pcap sys err_len >>= link_resolved pcap sys bpf_filter err_len

unfoldable pub capture_open_live : Pcap → Sys → Bytes → Bytes → ℕ → Run (Sys × Outcome Capture)
capture_open_live pcap sys interface bpf_filter err_len =
    if not (pcap.create interface)
    then done
        (sys, refused (fail err_len (codes "failed to open interface '") interface pcap.error))
    else (do
      let sys = record sys { pcap = live }
      handle ← need sys.pcap
      elim pcap.activate [
        | activate_failed ↦ geterr pcap sys >>= (λ error.
            give_up sys (fail err_len (codes "failed to activate capture on '") interface error))
        | activated_warning ↦ finish_open pcap sys bpf_filter err_len
        | activated ↦ finish_open pcap sys bpf_filter err_len
      ])

unfoldable pub capture_open_offline : Pcap → Sys → Bytes → Bytes → ℕ → Run (Sys × Outcome Capture)
capture_open_offline pcap sys path bpf_filter err_len =
    if not (pcap.open_offline path)
    then done (sys, refused (fail err_len (codes "failed to open capture file '") path pcap.error))
    else finish_open pcap (record sys { pcap = live }) bpf_filter err_len

unfoldable pub capture_open_dump : Pcap → Sys → Capture → Bytes → ℕ → Run (Sys × Outcome Capture)
capture_open_dump pcap sys cap path err_len = do
  handle ← need sys.pcap
  if not (pcap.dump_open path)
      then geterr pcap sys >>= (λ error. done (
        sys,
        refused (
            snprintf err_len
              (printed (codes "failed to open '" ∷ path ∷ codes "' for writing: " ∷ error ∷ []))),
      ))
      else done (record sys { dumper = live }, accepted (record cap { dumper = true }))
