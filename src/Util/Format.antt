-- ===== src/Util/Format.antt =====
-- src/util.c: the texts of addresses.
pub mod Ipv4
pub mod Ipv6
use Prim.Native.Char.{code}
use Prim.Native.String.{String}
use netscope.Base.{
  ℕ, zero, suc, ◌+◌, ◌*◌, ◌%◌, ◌^◌, bit_or, Bytes, Bool, true, false, not, ◌&&◌, Option, none, some,
  List, [], ◌∷◌, ◌++◌, ◌==◌, ltb, if◌then◌else◌, get_or,
}
use netscope.Run.{Run, done, fault, Fault, ◌>>=◌}
use netscope.Util.Text.{snprintf, store, terminate, print_at, decimal, hex, hex_padded}

-- A string literal.
abbrev pub codes : String → Bytes
codes String.[] = []
codes (String.◌∷◌ c s) = code c ∷ codes s

unfoldable pub format_mac : Bytes → ℕ → Bytes
unfolding snprintf hex_padded
format_mac mac buf_len = snprintf buf_len (
    hex_padded 2 (get_or mac 0 0)
    ++ (b':' ∷ hex_padded 2 (get_or mac 1 0))
    ++ (b':' ∷ hex_padded 2 (get_or mac 2 0))
    ++ (b':' ∷ hex_padded 2 (get_or mac 3 0))
    ++ (b':' ∷ hex_padded 2 (get_or mac 4 0))
    ++ (b':' ∷ hex_padded 2 (get_or mac 5 0)))

-- The four bytes of the address in memory, see Protocols/Arp.
unfoldable pub format_ipv4 : Bytes → ℕ → Bytes
unfolding snprintf decimal
format_ipv4 addr buf_len = snprintf buf_len (
    decimal (get_or addr 0 0)
    ++ (b'.' ∷ decimal (get_or addr 1 0))
    ++ (b'.' ∷ decimal (get_or addr 2 0))
    ++ (b'.' ∷ decimal (get_or addr 3 0)))

-- `groups[i]`, from `i` on, for as many groups as are left.
unfoldable pub ipv6_groups : ℕ → ℕ → Bytes → List ℕ
ipv6_groups zero i addr = []
ipv6_groups (suc k) i addr =
    (bit_or (get_or addr (i * 2) 0 * 2 ^ 8 % 2 ^ 32) (get_or addr (i * 2 + 1) 0) % 2 ^ 16)
    ∷ ipv6_groups k (suc i) addr

-- The search for the longest run of zero groups; `none` stands for the start -1.
pub record ZeroRun : Type 0 where
  pub best_start : Option ℕ
  pub best_len : ℕ
  pub cur_start : Option ℕ
  pub cur_len : ℕ

abbrev pub start_or : Option ℕ → ℕ → ℕ
start_or none i = i
start_or (some s) i = s

zero_run_round : ℕ → ℕ → ZeroRun → ZeroRun
zero_run_round i group r =
    if group == 0
    then (let cur_start = some (start_or r.cur_start i) in
        let cur_len = r.cur_len + 1 in
        if ltb r.best_len cur_len
        then record {
          best_start = cur_start;
          best_len = cur_len;
          cur_start = cur_start;
          cur_len = cur_len;
        }
        else record r { cur_start = cur_start; cur_len = cur_len })
    else record r { cur_start = none; cur_len = 0 }

unfoldable pub zero_run : ℕ → List ℕ → ZeroRun → ZeroRun
unfolding zero_run_round
zero_run i [] r = r
zero_run i (g ∷ gs) r = zero_run (suc i) gs (zero_run_round i g r)

unfoldable pub drop_short : ZeroRun → ZeroRun
drop_short r = if ltb r.best_len 2 then record r { best_start = none; best_len = 0 } else r

abbrev pub is_start : Option ℕ → ℕ → Bool
is_start none i = false
is_start (some s) i = i == s

-- `i == best_start + best_len`; -1 + 0 is no index.
abbrev pub is_end : Option ℕ → ℕ → ℕ → Bool
is_end none len i = false
is_end (some s) len i = i == s + len

-- One turn of the printing loop at a group: the separator, then the group.
unfoldable pub ipv6_group : List ℕ → ZeroRun → ℕ → Bytes → Run Bytes
ipv6_group groups r i tmp = do
  tmp ←
      if not (i == 0) && not (is_end r.best_start r.best_len i)
      then store 46 tmp (b':' ∷ [])
      else done tmp
  print_at 46 tmp (hex (get_or groups i 0))

-- The printing loop; `i` grows in every turn, so eight turns reach the end.
unfoldable pub ipv6_loop : ℕ → List ℕ → ZeroRun → ℕ → Bytes → Run Bytes
unfolding ipv6_group store print_at hex
ipv6_loop zero groups r i tmp = if ltb i 8 then fault Fault.out_of_fuel else done tmp
ipv6_loop (suc fuel) groups r i tmp =
    if not (ltb i 8)
    then done tmp
    else if is_start r.best_start i
    then store 46 tmp (b':' ∷ b':' ∷ []) >>= ipv6_loop fuel groups r (i + r.best_len)
    else ipv6_group groups r i tmp >>= ipv6_loop fuel groups r (suc i)

abbrev pub no_run : ZeroRun
no_run = record { best_start = none; best_len = 0; cur_start = none; cur_len = 0 }

abbrev pub is_empty : Bytes → Bool
is_empty [] = true
is_empty (c ∷ s) = false

unfoldable pub format_ipv6 : Bytes → ℕ → Run Bytes
unfolding ipv6_groups zero_run drop_short ipv6_loop terminate snprintf
format_ipv6 addr buf_len = do
  let groups = ipv6_groups 8 0 addr
  tmp ← ipv6_loop 8 groups (drop_short (zero_run 0 groups no_run)) 0 []
  tmp ← if is_empty tmp then store 46 tmp (b':' ∷ b':' ∷ []) else done tmp
  tmp ← terminate 46 tmp
  done (snprintf buf_len tmp)
