-- ===== src/Config/Data.antt =====
-- The types of include/netscope/config.h.
use netscope.Base.{ℕ, Bytes, Bool, Option}

pub data InputMode : Type 0 where
  no_input live_input file_input : InputMode

pub data OutputFormat : Type 0 where
  text_format json_format : OutputFormat

pub data LogLevel : Type 0 where
  log_error log_warn log_info log_debug : LogLevel

-- The char arrays of NS_CONFIG_STR_LEN bytes are the texts before their terminators; a filter port
-- of -1 is `none`.
pub record Config : Type 0 where
  pub input_mode : InputMode
  pub interface : Bytes
  pub read_file : Bytes
  pub write_file : Bytes
  pub output_file : Bytes
  pub filter_tcp : Bool
  pub filter_udp : Bool
  pub filter_icmp : Bool
  pub filter_port : Option ℕ
  pub filter_host : Bytes
  pub filter_src : Bytes
  pub filter_dst : Bytes
  pub raw_filter : Bytes
  pub has_raw_filter : Bool
  pub no_color : Bool
  pub verbose_output : Bool
  pub quiet : Bool
  pub show_stats : Bool
  pub hex_dump : Bool
  pub format : OutputFormat
  pub log_level : LogLevel
  pub list_interfaces : Bool
  pub show_help : Bool
  pub show_version : Bool

abbrev pub str_len : ℕ
str_len = 256
