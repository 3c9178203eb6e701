-- ===== src/Config/Valid/Accepted.antt =====
-- `ns_config_parse` of src/config.c as a whole, on the command lines that it accepts.
use netscope.Base.{
  ℕ, Bytes, Bool, true, false, ◌&&◌, ◌||◌, not, List, [], ◌∷◌, ◌≡◌, refl, ltb, length, All,
  if-intro, clash, arith,
}
use netscope.Run.{Outcome, refused, accepted, done, Returns, Returns-bind}
use netscope.Util.Text.{length-snprintf-room}
use netscope.Util.Format.{is_empty}
use netscope.Protocols.Dns.Message.{slot_at}
use netscope.Config.Parse.{Opt, Getopt, Parse, start, parse_option}
use netscope.Config.Checks.{
  option_loop, is_json, choose_input, check_options, options_parsed, config_parse,
}
use netscope.Config.Valid.{IsConfig, Tracks, Judged, InArgv}
use netscope.Config.Valid.Options.{slot_at-Ends, parse_option-Tracks}

-- What the tests of `check_options` say, one by one.
not_both :
    {raw any simple : Bool}
    → (simple ≡ true → any ≡ true)
    → (raw && any) ≡ false
    → raw ≡ true
    → simple ≡ false
not_both {raw} {any} {simple} h k r = by_cases raw any simple h k r
  where
    by_cases :
        (raw any simple : Bool)
        → (simple ≡ true → any ≡ true)
        → (raw && any) ≡ false
        → raw ≡ true
        → simple ≡ false
    by_cases raw any false h k r = refl
    by_cases true true true h k r = k
    by_cases true false true h k r = absurd (clash false (h refl) refl)
    by_cases false any true h k r = absurd (clash false r refl)

other_false : (a b : Bool) → a ≡ true → (a && b) ≡ false → b ≡ false
other_false true b h k = k
other_false false b h k = absurd (clash false h refl)

needs_json : (empty json : Bool) → (not empty && not json) ≡ false → json ≡ false → empty ≡ true
needs_json true json h k = refl
needs_json false true h k = absurd (clash true refl k)
needs_json false false h k = absurd (clash true refl h)

empty_text : (s : Bytes) → is_empty s ≡ true → s ≡ []
empty_text [] h = refl
empty_text (c ∷ s) h = absurd (clash false h refl)

module _ (argv : List Bytes) (err_len : ℕ) where
  option_loop-Tracks :
      (os : List Opt) (p : Parse)
      → All (InArgv (length argv)) os
      → Tracks p
      → Returns (option_loop argv err_len p os) (Judged err_len Tracks)
  unfolding option_loop
  option_loop-Tracks [] p k h = h
  option_loop-Tracks (o ∷ os) p k h =
      Returns-bind (parse_option argv err_len p o) _ (Judged err_len Tracks) (Judged err_len Tracks)
        (parse_option-Tracks argv err_len p o k.0 h) (go (λ p' j. option_loop-Tracks os p' k.1 j))
    where
      go :
          ((p' : Parse)
            → Tracks p'
            → Returns (option_loop argv err_len p' os) (Judged err_len Tracks))
          → (r : Outcome Parse) → Judged err_len Tracks r
          → Returns
              (elim r [
                | refused message ↦ done (refused message)
                | accepted p' ↦ option_loop argv err_len p' os
              ])
              (Judged err_len Tracks)
      go ih (refused message) j = j
      go ih (accepted p') j = ih p' j

  choose_input-IsConfig :
      (p : Parse)
      → Tracks p
      → (p.have_interface && p.have_read_file) ≡ false
      → (p.out.has_raw_filter && p.any_simple_filter) ≡ false
      → (not (is_empty p.out.output_file) && not (is_json p.out.format)) ≡ false
      → Judged err_len IsConfig (choose_input err_len p)
  unfolding choose_input
  choose_input-IsConfig p h one raw out =
      if-intro (Judged err_len IsConfig) p.have_interface _ _
        (λ live. record {
          texts = h.texts;
          port = h.port;
          checked = λ e. record {
            exclusive = not_both h.simple_known raw;
            output_json = λ f. empty_text _ (needs_json _ _ out f);
            source = λ e. h.read_file_known (other_false _ _ live one);
          };
        })
        (λ dead.
          if-intro (Judged err_len IsConfig) p.have_read_file _ _
            (λ file. record {
              texts = h.texts;
              port = h.port;
              checked = λ e. record {
                exclusive = not_both h.simple_known raw;
                output_json = λ f. empty_text _ (needs_json _ _ out f);
                source = λ e. h.interface_known dead;
              };
            })
            (λ none_given. length-snprintf-room err_len _))

  check_options-IsConfig :
      (p : Parse) → Tracks p → Judged err_len IsConfig (check_options err_len p)
  unfolding check_options
  check_options-IsConfig p h =
      if-intro (Judged err_len IsConfig) (p.out.show_help || p.out.show_version) _ _
        (λ shown. record {
          texts = h.texts;
          port = h.port;
          checked = λ e. absurd (clash _ shown e);
        })
        (λ run.
          if-intro (Judged err_len IsConfig) (p.have_interface && p.have_read_file) _ _
            (λ both. length-snprintf-room err_len _)
            (λ one.
              if-intro (Judged err_len IsConfig) (p.out.has_raw_filter && p.any_simple_filter) _ _
                (λ mixed. length-snprintf-room err_len _)
                (λ raw.
                  if-intro (Judged err_len IsConfig)
                    (not (is_empty p.out.output_file) && not (is_json p.out.format)) _ _
                    (λ no_json. length-snprintf-room err_len _)
                    (λ out.
                      if-intro (Judged err_len IsConfig) p.out.list_interfaces _ _
                        (λ list. record {
                          texts = h.texts;
                          port = h.port;
                          checked = λ e. record {
                            exclusive = not_both h.simple_known raw;
                            output_json = λ f. empty_text _ (needs_json _ _ out f);
                            source = λ e. absurd (clash _ list e);
                          };
                        })
                        (λ capture. choose_input-IsConfig p h one raw out)))))

  options_parsed-IsConfig :
      (optind : ℕ) (r : Outcome Parse)
      → Judged err_len Tracks r
      → Returns (options_parsed argv err_len optind r) (Judged err_len IsConfig)
  unfolding options_parsed
  options_parsed-IsConfig optind (refused message) j = j
  options_parsed-IsConfig optind (accepted p) j =
      if-intro (λ m. Returns m (Judged err_len IsConfig)) (ltb optind (length argv)) _ _
        (λ more.
          Returns-bind (slot_at argv optind) _ (λ a. Unit) (Judged err_len IsConfig)
            (slot_at-Ends argv optind (ground arith)) (λ arg u. length-snprintf-room err_len _))
        (λ end. check_options-IsConfig p j)

-- For every command line, with a `getopt_long` that answers '?' only with an `optind` inside it, the
-- options are parsed without a fault. Either they are refused, with a message that fits its buffer;
-- or all texts fit their arrays with their terminators, a port is at most 65535, and unless help or
-- the version is asked for, a raw filter stands alone, an output file comes with the JSON format, and
-- unless interfaces are listed, there is one source of packets: an interface and no file, or a file
-- and no interface.
pub config_parse-IsConfig :
    (getopt : Getopt) (argv : List Bytes) (err_len : ℕ)
    → All (InArgv (length argv)) (getopt.options argv)
    → Returns (config_parse getopt argv err_len) (Judged err_len IsConfig)
unfolding config_parse
config_parse-IsConfig getopt argv err_len h =
    Returns-bind (option_loop argv err_len start (getopt.options argv)) _ (Judged err_len Tracks)
      (Judged err_len IsConfig)
      (option_loop-Tracks argv err_len (getopt.options argv) start h (record {
        texts = omega arith;
        port = tt;
        simple_known = λ e. absurd (clash false e refl);
        interface_known = λ e. refl;
        read_file_known = λ e. refl;
      }))
      (options_parsed-IsConfig argv err_len (getopt.optind argv))
