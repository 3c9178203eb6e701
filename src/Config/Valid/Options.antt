-- ===== src/Config/Valid/Options.antt =====
-- The options of `ns_config_parse` of src/config.c, stored one by one, and its local variables.
use netscope.Base.{
  All, ◌≡◌, true, false, ℕ, ◌-◌, ◌≤◌, ◌<◌, Bytes, not, Option, none, some, List, [], ◌∷◌, refl,
  ◌==◌, ltb, length, if-intro, Option-cases, inl, inr, arith,
}
use netscope.Run.{Run, Returns, Returns-bind, Ends}
use netscope.Util.Text.{length-snprintf-room}
use netscope.Util.Format.{codes}
use netscope.Protocols.Dns.Message.{slot_at, set}
use netscope.Protocols.Dns.Message.Total.{set-All}
use netscope.Config.Data.{OutputFormat, text_format, json_format}
use netscope.Config.Port.{parse_port}
use netscope.Config.Port.Decimal.{parse_port-le}
use netscope.Config.Parse.{
  Opt, opt_interface, opt_read, opt_help, opt_verbosity, opt_version, opt_list_interfaces, opt_tcp,
  opt_udp, opt_icmp, opt_port, opt_host, opt_src, opt_dst, opt_filter, opt_no_color, opt_verbose,
  opt_quiet, opt_stats, opt_hex, opt_write, opt_format, opt_output, opt_debug, opt_unknown, Parse,
  copy_str, set_out, port_option, format_option, text_eq, unknown_option, parse_option,
}
use netscope.Config.Valid.{
  text_list, IsStored, Texts, IsPort, simple_filters, Tracks, Judged, InArgv,
}

pub slot_at-Ends : (argv : List Bytes) (i : ℕ) → i < length argv → Ends (slot_at argv i)
unfolding slot_at
slot_at-Ends [] i h = absurd (omega arith)
slot_at-Ends (a ∷ argv) ℕ.zero h = tt
slot_at-Ends (a ∷ argv) (ℕ.suc i) h = slot_at-Ends argv i (omega arith)

length-copy_str : (s : Bytes) → length (copy_str s) < 256
unfolding copy_str
length-copy_str s = omega (arith, length-snprintf-room 256 s)

-- A text that `copy_str` stores in place of one of them.
stored :
    (p : Parse) (i : ℕ) (arg : Bytes)
    → Texts p.out
    → All IsStored (set (text_list p.out) i (copy_str arg))
stored p i arg h = set-All IsStored (text_list p.out) i (copy_str arg) h (length-copy_str arg)

tracks :
    {p : Parse}
    → Texts p.out
    → IsPort p.out.filter_port
    → (simple_filters p.out ≡ true → p.any_simple_filter ≡ true)
    → (p.have_interface ≡ false → p.out.interface ≡ [])
    → (p.have_read_file ≡ false → p.out.read_file ≡ [])
    → Tracks p
tracks texts port simple_known interface_known read_file_known = record {
  texts = texts;
  port = port;
  simple_known = simple_known;
  interface_known = interface_known;
  read_file_known = read_file_known;
}

module _ (argv : List Bytes) (err_len : ℕ) where
  port_option-Tracks :
      (p : Parse) (text : Bytes) (port : Option ℕ)
      → Tracks p
      → IsPort port
      → Judged err_len Tracks (port_option p err_len text port)
  port_option-Tracks p text none h k = length-snprintf-room err_len _
  port_option-Tracks p text (some port) h k = record {
    texts = h.texts;
    port = k;
    simple_known = λ e. refl;
    interface_known = h.interface_known;
    read_file_known = h.read_file_known;
  }

  parse_port-IsPort : (text : Bytes) → IsPort (parse_port text)
  parse_port-IsPort text = elim (Option-cases (parse_port text)) [
    | inl e ↦ rw e tt
    | inr (port, e) ↦ rw e (parse_port-le text port e)
  ]

  formatted :
      (p : Parse) (format : OutputFormat)
      → Tracks p
      → Tracks (set_out p (record (p.out) { format = format }))
  formatted p format h = record {
    texts = h.texts;
    port = h.port;
    simple_known = h.simple_known;
    interface_known = h.interface_known;
    read_file_known = h.read_file_known;
  }

  unknown_option-Judged :
      (optopt optind : ℕ)
      → optind ≤ length argv
      → Returns (unknown_option argv err_len optopt optind) (λ s. length s ≤ err_len - 1)
  unfolding unknown_option
  unknown_option-Judged optopt optind h =
      if-intro Fits (not (optopt == 0)) _ _ (λ e. length-snprintf-room err_len _)
        (λ e.
          if-intro Fits (ltb 1 optind) _ _
            (λ later.
              Returns-bind (slot_at argv (optind - 1)) _ (λ a. Unit) (λ s. length s ≤ err_len - 1)
                (slot_at-Ends argv (optind - 1) (ground arith))
                (λ arg u. length-snprintf-room err_len _))
            (λ early. length-snprintf-room err_len _))
    where
      Fits : Run Bytes → Type 0
      Fits m = Returns m (λ s. length s ≤ err_len - 1)

  pub parse_option-Tracks :
      (p : Parse) (o : Opt)
      → InArgv (length argv) o
      → Tracks p
      → Returns (parse_option argv err_len p o) (Judged err_len Tracks)
  unfolding parse_option format_option set
  parse_option-Tracks p (opt_interface arg) k h =
      tracks (stored p 0 arg h.texts) h.port h.simple_known (λ e. absurd (ground arith))
        h.read_file_known
  parse_option-Tracks p (opt_read arg) k h =
      tracks (stored p 1 arg h.texts) h.port h.simple_known h.interface_known
        (λ e. absurd (ground arith))
  parse_option-Tracks p opt_help k h =
      tracks h.texts h.port h.simple_known h.interface_known h.read_file_known
  parse_option-Tracks p opt_verbosity k h =
      tracks h.texts h.port h.simple_known h.interface_known h.read_file_known
  parse_option-Tracks p opt_version k h =
      tracks h.texts h.port h.simple_known h.interface_known h.read_file_known
  parse_option-Tracks p opt_list_interfaces k h =
      tracks h.texts h.port h.simple_known h.interface_known h.read_file_known
  parse_option-Tracks p opt_tcp k h =
      tracks h.texts h.port (λ e. refl) h.interface_known h.read_file_known
  parse_option-Tracks p opt_udp k h =
      tracks h.texts h.port (λ e. refl) h.interface_known h.read_file_known
  parse_option-Tracks p opt_icmp k h =
      tracks h.texts h.port (λ e. refl) h.interface_known h.read_file_known
  parse_option-Tracks p (opt_host arg) k h =
      tracks (stored p 4 arg h.texts) h.port (λ e. refl) h.interface_known h.read_file_known
  parse_option-Tracks p (opt_src arg) k h =
      tracks (stored p 5 arg h.texts) h.port (λ e. refl) h.interface_known h.read_file_known
  parse_option-Tracks p (opt_dst arg) k h =
      tracks (stored p 6 arg h.texts) h.port (λ e. refl) h.interface_known h.read_file_known
  parse_option-Tracks p (opt_filter arg) k h =
      tracks (stored p 7 arg h.texts) h.port h.simple_known h.interface_known h.read_file_known
  parse_option-Tracks p opt_no_color k h =
      tracks h.texts h.port h.simple_known h.interface_known h.read_file_known
  parse_option-Tracks p opt_verbose k h =
      tracks h.texts h.port h.simple_known h.interface_known h.read_file_known
  parse_option-Tracks p opt_quiet k h =
      tracks h.texts h.port h.simple_known h.interface_known h.read_file_known
  parse_option-Tracks p opt_stats k h =
      tracks h.texts h.port h.simple_known h.interface_known h.read_file_known
  parse_option-Tracks p opt_hex k h =
      tracks h.texts h.port h.simple_known h.interface_known h.read_file_known
  parse_option-Tracks p (opt_write arg) k h =
      tracks (stored p 2 arg h.texts) h.port h.simple_known h.interface_known h.read_file_known
  parse_option-Tracks p (opt_output arg) k h =
      tracks (stored p 3 arg h.texts) h.port h.simple_known h.interface_known h.read_file_known
  parse_option-Tracks p opt_debug k h =
      tracks h.texts h.port h.simple_known h.interface_known h.read_file_known
  parse_option-Tracks p (opt_port arg) k h =
      port_option-Tracks p arg (parse_port arg) h (parse_port-IsPort arg)
  parse_option-Tracks p (opt_format arg) k h =
      if-intro (Judged err_len Tracks) (text_eq arg (codes "json")) _ _
        (λ e. formatted p json_format h)
        (λ e.
          if-intro (Judged err_len Tracks) (text_eq arg (codes "text")) _ _
            (λ e'. formatted p text_format h) (λ e'. length-snprintf-room err_len _))
  parse_option-Tracks p (opt_unknown optopt optind) k h =
      Returns-bind (unknown_option argv err_len optopt optind) _ (λ s. length s ≤ err_len - 1)
        (Judged err_len Tracks) (unknown_option-Judged optopt optind k) (λ s e. e)
