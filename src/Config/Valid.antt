-- ===== src/Config/Valid.antt =====
-- What is promised of the options that `ns_config_parse` accepts.
pub mod Options
pub mod Accepted
use netscope.Base.{
  ℕ, ◌-◌, ◌≤◌, ◌<◌, Bytes, Bool, true, false, ◌||◌, not, Option, none, some, List, [], ◌∷◌, ◌≡◌,
  length, All,
}
use netscope.Run.{Outcome, refused, accepted}
use netscope.Util.Format.{is_empty}
use netscope.Config.Data.{Config, InputMode, no_input, live_input, file_input}
use netscope.Config.Parse.{Opt, opt_unknown, Parse}
use netscope.Config.Checks.{is_json}

-- The texts with their terminators fit into arrays of 256 chars.
abbrev pub text_list : Config → List Bytes
text_list c =
    c.interface ∷ c.read_file ∷ c.write_file ∷ c.output_file ∷ c.filter_host ∷ c.filter_src
    ∷ c.filter_dst ∷ c.raw_filter ∷ []

abbrev pub IsStored : Bytes → Type 0
IsStored s = length s < 256

abbrev pub Texts : Config → Type 0
Texts c = All IsStored (text_list c)

abbrev pub IsPort : Option ℕ → Type 0
IsPort none = Unit
IsPort (some port) = port ≤ 65535

abbrev pub is_some : Option ℕ → Bool
is_some none = false
is_some (some port) = true

-- Whether an option is set that a raw filter excludes.
abbrev pub simple_filters : Config → Bool
simple_filters c =
    c.filter_tcp
    || c.filter_udp
    || c.filter_icmp
    || is_some c.filter_port
    || not (is_empty c.filter_host)
    || not (is_empty c.filter_src)
    || not (is_empty c.filter_dst)

-- One source of packets, and no name for the other.
abbrev pub IsSource : InputMode → Config → Type 0
IsSource no_input c = ⊥
IsSource live_input c = c.read_file ≡ []
IsSource file_input c = c.interface ≡ []

-- What the options that run a capture have been checked for.
pub record IsChecked (c : Config) : Type 0 where
  pub exclusive : c.has_raw_filter ≡ true → simple_filters c ≡ false
  pub output_json : is_json c.format ≡ false → c.output_file ≡ []
  pub source : c.list_interfaces ≡ false → IsSource c.input_mode c

pub record IsConfig (c : Config) : Type 0 where
  pub texts : Texts c
  pub port : IsPort c.filter_port
  pub checked : (c.show_help || c.show_version) ≡ false → IsChecked c

-- What the loop over the options keeps: the locals know what has been stored.
pub record Tracks (p : Parse) : Type 0 where
  pub texts : Texts p.out
  pub port : IsPort p.out.filter_port
  pub simple_known : simple_filters p.out ≡ true → p.any_simple_filter ≡ true
  pub interface_known : p.have_interface ≡ false → p.out.interface ≡ []
  pub read_file_known : p.have_read_file ≡ false → p.out.read_file ≡ []

-- A message fits its buffer; a value that is accepted satisfies the predicate.
abbrev pub Judged : {A : Type 0} → ℕ → (A → Type 0) → Outcome A → Type 0
Judged err_len P (refused message) = length message ≤ err_len - 1
Judged err_len P (accepted a) = P a

-- `argv[optind - 1]` is there when `getopt_long` answers '?'.
abbrev pub InArgv : ℕ → Opt → Type 0
InArgv argc (opt_unknown optopt optind) = optind ≤ argc
InArgv argc other = Unit
