-- ===== src/Filter.antt =====
-- src/filter.c: the capture filter that is handed to libpcap. The texts of the specification are
-- those before their terminator, `none` is a null pointer, and `none` for the port stands for a
-- negative number.
pub mod Append
pub mod Built
use netscope.Base.{
  ℕ, Bytes, Bool, true, false, Option, none, some, [], ◌∷◌, ◌++◌, ◌==◌, ltb, leb, length,
  if◌then◌else◌,
}
use netscope.Run.{Run, done, ◌>>=◌}
use netscope.Word.{add_size}
use netscope.Util.Text.{snprintf, store, terminate, decimal}
use netscope.Util.Format.{codes}

pub record FilterSpec : Type 0 where
  pub tcp : Bool
  pub udp : Bool
  pub icmp : Bool
  pub port : Option ℕ
  pub host : Option Bytes
  pub src : Option Bytes
  pub dst : Option Bytes
  pub raw : Option Bytes

-- The second half of `append`: the piece and the terminator.
unfoldable pub append_piece : ℕ → Bytes → Bytes → Run (Bool × Bytes)
append_piece out_len out piece =
    if leb out_len (add_size (length out) (length piece))
    then done (false, out)
    else do out ← store out_len out piece; out ← terminate out_len out; done (true, out)

unfoldable pub append : ℕ → Bytes → Bytes → Run (Bool × Bytes)
append out_len [] piece = append_piece out_len [] piece
append out_len (c ∷ out) piece =
    if leb out_len (add_size (length (c ∷ out)) 4)
    then done (false, c ∷ out)
    else store out_len (c ∷ out) (codes " and ") >>= (λ out. append_piece out_len out piece)

-- `if (wanted && !append(...)) return false;`, and what follows it.
unfoldable pub append_if :
    ℕ → Option Bytes → Bytes → (Bytes → Run (Bool × Bytes)) → Run (Bool × Bytes)
append_if out_len none out rest = rest out
append_if out_len (some piece) out rest =
    append out_len out piece >>= (λ r. if r.0 then rest r.1 else done r)

-- The pieces, each as it stands in `piece[128]`.
abbrev pub flag_piece : Bool → Bytes → Option Bytes
flag_piece true name = some name
flag_piece false name = none

abbrev pub port_piece : Option ℕ → Option Bytes
port_piece none = none
port_piece (some port) = some (snprintf 128 (codes "port " ++ decimal port))

abbrev pub host_piece : Bytes → Option Bytes → Option Bytes
host_piece keyword none = none
host_piece keyword (some []) = none
host_piece keyword (some (c ∷ name)) = some (snprintf 128 (keyword ++ c ∷ name))

-- Without a raw expression.
unfoldable pub build_pieces : FilterSpec → ℕ → Run (Bool × Bytes)
build_pieces spec out_len = append_if out_len (flag_piece spec.tcp (codes "tcp")) [] (λ out.
    append_if out_len (flag_piece spec.udp (codes "udp")) out (λ out.
      append_if out_len (flag_piece spec.icmp (codes "icmp")) out (λ out.
        append_if out_len (port_piece spec.port) out (λ out.
          append_if out_len (host_piece (codes "host ") spec.host) out (λ out.
            append_if out_len (host_piece (codes "src host ") spec.src) out (λ out.
              append_if out_len (host_piece (codes "dst host ") spec.dst) out
                (λ out. done (true, out))))))))

abbrev pub build_raw : FilterSpec → ℕ → Option Bytes → Run (Bool × Bytes)
build_raw spec out_len none = build_pieces spec out_len
build_raw spec out_len (some []) = build_pieces spec out_len
build_raw spec out_len (some (c ∷ raw)) =
    if leb out_len (length (c ∷ raw))
    then done (false, [])
    else do out ← store out_len [] (c ∷ raw); out ← terminate out_len out; done (true, out)

unfoldable pub filter_build_bpf : FilterSpec → ℕ → Run (Bool × Bytes)
filter_build_bpf spec out_len =
    if out_len == 0
    then done (false, [])
    else do start ← terminate out_len []; build_raw spec out_len spec.raw
