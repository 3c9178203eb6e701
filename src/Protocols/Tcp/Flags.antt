-- ===== src/Protocols/Tcp/Flags.antt =====
-- ns_tcp_flags_to_string of src/protocols/tcp.c, and its text for every combination of flags.
use netscope.Base.{
  ℕ, zero, suc, ap, ◌+◌, ◌-◌, ◌*◌, ◌≤◌, ◌<◌, ◌^◌, bit_and, Bytes, List, [], ◌∷◌, ◌++◌, ◌≡◌, refl,
  ◌==◌, leb, length, length-append, All, lt→leb, if◌then◌else◌, arith,
}
use netscope.Run.{Run, done, ◌>>=◌}
use netscope.Word.{sub_size, sub_size_exact}
use netscope.Util.Text.{snprintf, terminate, terminate-done}
use netscope.Util.Format.{codes}

-- The table of ns_tcp_flags_to_string, in its order.
abbrev pub tcp_flag_names : List (ℕ × Bytes)
tcp_flag_names =
    (0x02, codes "SYN")
    ∷ (0x10, codes "ACK")
    ∷ (0x01, codes "FIN")
    ∷ (0x04, codes "RST")
    ∷ (0x08, codes "PSH")
    ∷ (0x20, codes "URG")
    ∷ (0x40, codes "ECE")
    ∷ (0x80, codes "CWR")
    ∷ []

abbrev pub separated : Bytes → Bytes → Bytes
separated [] name = name
separated (c ∷ out) name = b',' ∷ name

-- The loop over the table: the text up to `pos`, and the text in `buf`, which has more chars where
-- the last name was cut off. (`first` holds exactly as long as `pos` is 0.)
unfoldable pub flags_loop : List (ℕ × Bytes) → ℕ → ℕ → Bytes → Bytes × Bytes
flags_loop [] flags buf_len out = (out, out)
flags_loop ((bit, name) ∷ rest) flags buf_len out =
    let skipped = flags_loop rest flags buf_len out in
    let written = flags_loop rest flags buf_len (out ++ separated out name) in
    if bit_and flags bit == 0
    then skipped
    else if leb (sub_size buf_len (length out)) (length (separated out name))
    then (out, out ++ snprintf (sub_size buf_len (length out)) (separated out name))
    else written

abbrev pub dash_if_empty : ℕ → Bytes × Bytes → Bytes
dash_if_empty buf_len ([], shown) = snprintf buf_len (codes "-")
dash_if_empty buf_len (c ∷ out, shown) = shown

-- `buf[0] = '\0'` needs a byte.
unfoldable pub tcp_flags_to_string : ℕ → ℕ → Run Bytes
tcp_flags_to_string flags buf_len = do
  start ← terminate buf_len []
  done (dash_if_empty buf_len (flags_loop tcp_flag_names flags buf_len start))

-- The names of the flags that are set, in the order of the table, behind `out`.
abbrev pub names_of : List (ℕ × Bytes) → ℕ → Bytes → Bytes
names_of [] flags out = out
names_of ((bit, name) ∷ rest) flags out =
    if bit_and flags bit == 0
    then names_of rest flags out
    else names_of rest flags (out ++ separated out name)

abbrev pub dash_or : Bytes → Bytes
dash_or [] = codes "-"
dash_or (c ∷ out) = c ∷ out

abbrev ThreeChars : ℕ × Bytes → Type 0
ThreeChars (bit, name) = length name ≡ 3

-- The chars that a text takes, with the comma or the terminator behind it.
abbrev taken : Bytes → ℕ
taken [] = 0
taken (c ∷ out) = suc (length out) + 1

taken-name : (name : Bytes) → length name ≡ 3 → taken name ≡ 4
taken-name [] h = absurd (omega arith)
taken-name (c ∷ name) h = omega arith

taken-separated :
    (out name : Bytes) → length name ≡ 3 → taken (out ++ separated out name) ≡ taken out + 4
taken-separated [] name h = omega (arith, taken-name name h)
taken-separated (c ∷ out) name h = omega (arith, length-append out (b',' ∷ name))

-- Room for one name more is room for what `snprintf` prints.
name_fits :
    (buf_len : ℕ) (out name : Bytes)
    → length name ≡ 3
    → taken out + 4 ≤ buf_len
    → (length (separated out name) < buf_len - length out) × (length out ≤ buf_len)
name_fits buf_len [] name h room = (omega arith, omega arith)
name_fits buf_len (c ∷ out) name h room = (omega arith, omega arith)

flags_loop_lem :
    (table : List (ℕ × Bytes)) (flags buf_len : ℕ) (out : Bytes)
    → buf_len < 2 ^ 63
    → All ThreeChars table
    → taken out + 4 * length table ≤ buf_len
    → flags_loop table flags buf_len out ≡ (names_of table flags out, names_of table flags out)
unfolding flags_loop
flags_loop_lem [] flags buf_len out small short room = refl
flags_loop_lem ((bit, name) ∷ rest) flags buf_len out small short room =
    let fits = name_fits buf_len out name short.0 (omega arith) in
    rw
      (
        sub_size_exact buf_len (length out) fits.1 (omega arith),
        lt→leb (buf_len - length out) (length (separated out name)) fits.0,
        flags_loop_lem rest flags buf_len out small short.1 (omega arith),
        flags_loop_lem rest flags buf_len (out ++ separated out name) small short.1
            (omega (arith, taken-separated out name short.0)),
      )
      (ground arith)

dash_lem :
    (buf_len : ℕ) (out : Bytes) → 2 ≤ buf_len → dash_if_empty buf_len (out, out) ≡ dash_or out
unfolding snprintf
dash_lem (suc (suc (suc room))) [] h = refl
dash_lem (suc (suc zero)) [] h = refl
dash_lem (suc zero) [] h = absurd (omega arith)
dash_lem zero [] h = absurd (omega arith)
dash_lem buf_len (c ∷ out) h = refl

-- For every byte of flags and every buffer of at least 32 bytes (and under 2^63), the text is
-- complete: the names of all flags that are set, in the order of the table and with commas between
-- them, or a dash if none is set.
pub tcp_flags_to_string_lem :
    (flags buf_len : ℕ)
    → 32 ≤ buf_len
    → buf_len < 2 ^ 63
    → tcp_flags_to_string flags buf_len ≡ done (dash_or (names_of tcp_flag_names flags []))
unfolding tcp_flags_to_string
tcp_flags_to_string_lem flags buf_len room small =
    rw
      (
        terminate-done buf_len [] (omega arith),
        flags_loop_lem tcp_flag_names flags buf_len [] small
            (refl, (refl, (refl, (refl, (refl, (refl, (refl, (refl, tt)))))))) (omega arith),
      )
      (ap done (dash_lem buf_len (names_of tcp_flag_names flags []) (omega arith)))
