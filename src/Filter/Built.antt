-- ===== src/Filter/Built.antt =====
-- The filter expression of src/filter.c, described on its own.
use netscope.Base.{
  ℕ, zero, suc, sym, ◌<◌, ◌^◌, Bytes, Bool, true, false, Option, none, some, List, [], ◌∷◌, ◌++◌,
  ◌≡◌, refl, ◌==◌, length, lt→ltb, le→ltb, lt→leb, le→leb, if◌then◌else◌, All, arith,
}
use native.Mathlib.Decide.{dec_le}
use netscope.Run.{Run, done, Returns, Returns-bind}
use netscope.Util.Text.{terminate, decimal, length-snprintf-room, store-done, terminate-done}
use netscope.Util.Format.{codes}
use netscope.Filter.{
  FilterSpec, append, append_if, flag_piece, port_piece, host_piece, build_pieces, build_raw,
  filter_build_bpf,
}
use netscope.Filter.Append.{join, join_all, length-join_all, IsBuilt, IsPiece, append-IsBuilt}

-- What the specification asks for, in order.
abbrev pub pieces : FilterSpec → List (Option Bytes)
pieces spec =
    flag_piece spec.tcp (codes "tcp")
    ∷ flag_piece spec.udp (codes "udp")
    ∷ flag_piece spec.icmp (codes "icmp")
    ∷ port_piece spec.port
    ∷ host_piece (codes "host ") spec.host
    ∷ host_piece (codes "src host ") spec.src
    ∷ host_piece (codes "dst host ") spec.dst
    ∷ []

abbrev pub expression : FilterSpec → Option Bytes → Bytes
expression spec none = join_all [] (pieces spec)
expression spec (some []) = join_all [] (pieces spec)
expression spec (some (c ∷ raw)) = c ∷ raw

-- The rest of the pieces, on a list.
append_all : ℕ → List (Option Bytes) → Bytes → Run (Bool × Bytes)
append_all out_len [] out = done (true, out)
append_all out_len (o ∷ os) out = append_if out_len o out (append_all out_len os)

-- What follows a piece that was appended, or was too long.
after_piece :
    (out_len : ℕ) (text : Bytes) (os : List (Option Bytes)) (r : Bool × Bytes)
    → IsBuilt out_len text r
    → (length text < out_len
        → Returns (append_all out_len os text) (IsBuilt out_len (join_all text os)))
    → Returns
        (if r.0 then append_all out_len os r.1 else done r)
        (IsBuilt out_len (join_all text os))
after_piece out_len text os (true, out) (fits, same) rest = rw (same refl) (rest (ground arith))
after_piece out_len text os (false, out) (long, same) rest =
    rw (le→ltb (length (join_all text os)) out_len (ground (arith, length-join_all text os)))
      (refl, λ h. ground arith)

append_all-IsBuilt :
    (out_len : ℕ) (os : List (Option Bytes)) (out : Bytes)
    → out_len < 2 ^ 63
    → All IsPiece os
    → length out < out_len
    → Returns (append_all out_len os out) (IsBuilt out_len (join_all out os))
unfolding append_all append_if
append_all-IsBuilt out_len [] out small short room =
    rw (lt→ltb (length out) out_len room) (refl, λ h. refl)
append_all-IsBuilt out_len (none ∷ os) out small short room =
    append_all-IsBuilt out_len os out small short.1 room
append_all-IsBuilt out_len (some piece ∷ os) out small short room =
    Returns-bind (append out_len out piece) _ (IsBuilt out_len (join out piece))
      (IsBuilt out_len (join_all (join out piece) os))
      (append-IsBuilt out_len out piece small room short.0)
      (λ r built.
        after_piece out_len (join out piece) os r built
          (append_all-IsBuilt out_len os (join out piece) small short.1))

flag_piece-IsPiece :
    (wanted : Bool) (name : Bytes) → length name < 128 → IsPiece (flag_piece wanted name)
flag_piece-IsPiece true name h = h
flag_piece-IsPiece false name h = tt

port_piece-IsPiece : (port : Option ℕ) → IsPiece (port_piece port)
port_piece-IsPiece none = tt
port_piece-IsPiece (some port) =
    omega (arith, length-snprintf-room 128 (codes "port " ++ decimal port))

host_piece-IsPiece : (keyword : Bytes) (name : Option Bytes) → IsPiece (host_piece keyword name)
host_piece-IsPiece keyword none = tt
host_piece-IsPiece keyword (some []) = tt
host_piece-IsPiece keyword (some (c ∷ name)) =
    omega (arith, length-snprintf-room 128 (keyword ++ c ∷ name))

pieces-IsPiece : (spec : FilterSpec) → All IsPiece (pieces spec)
pieces-IsPiece spec = (
  flag_piece-IsPiece spec.tcp (codes "tcp") (omega arith),
  (
    flag_piece-IsPiece spec.udp (codes "udp") (omega arith),
    (
      flag_piece-IsPiece spec.icmp (codes "icmp") (omega arith),
      (
        port_piece-IsPiece spec.port,
        (
          host_piece-IsPiece (codes "host ") spec.host,
          (
            host_piece-IsPiece (codes "src host ") spec.src,
            (host_piece-IsPiece (codes "dst host ") spec.dst, tt),
          ),
        ),
      ),
    ),
  ),
)

build_pieces-IsBuilt :
    (spec : FilterSpec) (out_len : ℕ)
    → out_len < 2 ^ 63
    → 0 < out_len
    → Returns (build_pieces spec out_len) (IsBuilt out_len (join_all [] (pieces spec)))
unfolding build_pieces append_all
build_pieces-IsBuilt spec out_len small room =
    append_all-IsBuilt out_len (pieces spec) [] small (pieces-IsPiece spec) room

build_raw-IsBuilt :
    (spec : FilterSpec) (out_len : ℕ) (raw : Option Bytes)
    → out_len < 2 ^ 63
    → 0 < out_len
    → Returns (build_raw spec out_len raw) (IsBuilt out_len (expression spec raw))
build_raw-IsBuilt spec out_len none small room = build_pieces-IsBuilt spec out_len small room
build_raw-IsBuilt spec out_len (some []) small room = build_pieces-IsBuilt spec out_len small room
build_raw-IsBuilt spec out_len (some (c ∷ raw)) small room =
    elim (dec_le out_len (suc (length raw))) [
      | yes long ↦
          rw (le→leb _ _ long, le→ltb (suc (length raw)) out_len long) (refl, λ h. ground arith)
      | no fits ↦
          rw
            (
              lt→leb out_len (suc (length raw)) (omega arith),
              store-done out_len [] (c ∷ raw) (omega arith),
              terminate-done out_len (c ∷ raw) (omega arith),
              lt→ltb (suc (length raw)) out_len (omega arith),
            )
            (refl, λ h. refl)
    ]

-- For every specification and every capacity under 2^63, no char is written outside `out`, and the
-- answer is true exactly if the expression and its terminator fit; then `out` holds the expression:
-- the raw text, if there is one, or else the pieces asked for, each cut to 127 chars, in the order of
-- the code and with ` and ` between them.
pub filter_build_bpf-IsBuilt :
    (spec : FilterSpec) (out_len : ℕ)
    → out_len < 2 ^ 63
    → Returns (filter_build_bpf spec out_len) (IsBuilt out_len (expression spec spec.raw))
unfolding filter_build_bpf terminate
filter_build_bpf-IsBuilt spec zero small =
    (sym (le→ltb (length (expression spec spec.raw)) 0 (omega arith)), λ h. ground arith)
filter_build_bpf-IsBuilt spec (suc m) small =
    rw (not_zero, lt→ltb 0 (suc m) (omega arith))
      (build_raw-IsBuilt spec (suc m) spec.raw small (omega arith))
  where
    not_zero : (suc m == 0) ≡ false
    not_zero = ground arith
