-- ===== src/Protocols/Dns/Rdata.antt =====
-- The texts of record data. `none` stands for the answer `false`; what a formatter has written into
-- `out` by then is overwritten by its only caller, `format_rdata`.
pub mod Total
use netscope.Base.{
  ℕ, zero, suc, ◌+◌, ◌-◌, Bytes, Bool, true, false, not, ◌&&◌, ◌||◌, Option, none, some, List, [],
  ◌∷◌, ◌++◌, ◌==◌, ltb, leb, if◌then◌else◌, length, drop,
}
use netscope.Run.{Run, done, fault, Fault, ◌>>=◌, init}
use netscope.Word.{add_size, sub_size}
use netscope.Util.{bounds_check, at, read_u16_be, memcpy}
use netscope.Util.Text.{c_str, snprintf, store, terminate, decimal}
use netscope.Util.Format.{codes, format_ipv4, format_ipv6}
use netscope.Protocols.Status.{Status, ok}
use netscope.Protocols.Dns.Name.{decode_name}

unfoldable pub format_a : Bytes → ℕ → ℕ → ℕ → ℕ → Run (Option Bytes)
format_a buf length rdata_offset rdlength out_len =
    if not (rdlength == 4) || not (bounds_check length rdata_offset 4)
    then done none
    else do addr ← memcpy buf rdata_offset 4; done (some (format_ipv4 addr out_len))

unfoldable pub format_aaaa : Bytes → ℕ → ℕ → ℕ → ℕ → Run (Option Bytes)
format_aaaa buf length rdata_offset rdlength out_len =
    if not (rdlength == 16) || not (bounds_check length rdata_offset 16)
    then done none
    else do addr ← memcpy buf rdata_offset 16; text ← format_ipv6 addr out_len; done (some text)

-- The text of a name that was decoded with the status `ok`.
abbrev pub name_if_ok : Status × Bytes × Option ℕ → Option Bytes
name_if_ok (ok, name, end) = some name
name_if_ok (status, name, end) = none

unfoldable pub format_name_rdata : Bytes → ℕ → ℕ → ℕ → Run (Option Bytes)
format_name_rdata buf length rdata_offset out_len = do
  name ← decode_name buf length rdata_offset out_len
  done (name_if_ok name)

-- `snprintf(out, out_len, "%u %s", preference, name)`
unfoldable pub mx_text : ℕ → Bytes → ℕ → Bytes
unfolding snprintf decimal c_str
mx_text preference name out_len = snprintf out_len (decimal preference ++ (b' ' ∷ c_str name))

unfoldable pub format_mx : Bytes → ℕ → ℕ → ℕ → Run (Option Bytes)
format_mx buf length rdata_offset out_len =
    if not (bounds_check length rdata_offset 2) then done none else do
      preference ← read_u16_be buf length rdata_offset
      elim preference [
        | none ↦ done none
        | some p ↦ do
          name ← decode_name buf length (add_size rdata_offset 2) 256
          elim (name_if_ok name) [
            | none ↦ done none
            | some name ↦ done (some (mx_text p name out_len))
          ]
      ]

-- How many bytes of a segment are copied.
unfoldable pub txt_copy : ℕ → ℕ → ℕ → ℕ
txt_copy out_pos seg_len out_len =
    if leb out_len (out_pos + seg_len) then out_len - out_pos - 1 else seg_len

-- The loop over the segments, with fuel: every turn moves `pos` on.
unfoldable pub txt_loop : ℕ → Bytes → ℕ → ℕ → ℕ → ℕ → Bytes → Run Bytes
txt_loop zero buf rdata_offset rdlength out_len pos out = fault Fault.out_of_fuel
txt_loop (suc fuel) buf rdata_offset rdlength out_len pos out =
    if not (ltb pos rdlength && ltb (length out + 1) out_len) then done out else do
      seg_len ← at buf (add_size rdata_offset pos)
      if ltb rdlength (pos + 1 + seg_len) then done out else do
        segment ←
            memcpy buf (add_size rdata_offset (pos + 1)) (txt_copy (length out) seg_len out_len)
        out ← store out_len out segment
        txt_loop fuel buf rdata_offset rdlength out_len (pos + 1 + seg_len) out

unfoldable pub format_txt : Bytes → ℕ → ℕ → ℕ → ℕ → Run (Option Bytes)
format_txt buf length rdata_offset rdlength out_len =
    if not (bounds_check length rdata_offset rdlength) then done none else do
      start ← terminate out_len []
      out ← txt_loop (suc rdlength) buf rdata_offset rdlength out_len 0 start
      out ← terminate out_len out
      done (some out)

unfoldable pub rdata_of_type : Bytes → ℕ → ℕ → ℕ → ℕ → ℕ → Run (Option Bytes)
rdata_of_type buf length rdata_offset rdlength type out_len =
    if type == 1
    then format_a buf length rdata_offset rdlength out_len
    else if type == 28
    then format_aaaa buf length rdata_offset rdlength out_len
    else if type == 5 || type == 2 || type == 12
    then format_name_rdata buf length rdata_offset out_len
    else if type == 15
    then format_mx buf length rdata_offset out_len
    else if type == 16
    then format_txt buf length rdata_offset rdlength out_len
    else done none

-- `snprintf(out, out_len, "<%u bytes>", rdlength)`
unfoldable pub opaque_text : ℕ → ℕ → Bytes
unfolding snprintf decimal
opaque_text rdlength out_len = snprintf out_len (codes "<" ++ (decimal rdlength ++ codes " bytes>"))

unfoldable pub format_rdata : Bytes → ℕ → ℕ → ℕ → ℕ → ℕ → Run Bytes
format_rdata buf length rdata_offset rdlength type out_len = do
  text ← rdata_of_type buf length rdata_offset rdlength type out_len
  elim text [ none ↦ done (opaque_text rdlength out_len) | some text ↦ done text ]

unfoldable pub dns_type_name : ℕ → ℕ → Bytes
dns_type_name type buf_len =
    if type == 1
    then codes "A"
    else if type == 2
    then codes "NS"
    else if type == 5
    then codes "CNAME"
    else if type == 12
    then codes "PTR"
    else if type == 15
    then codes "MX"
    else if type == 16
    then codes "TXT"
    else if type == 28
    then codes "AAAA"
    else snprintf buf_len (codes "TYPE" ++ decimal type)
