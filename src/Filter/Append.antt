-- ===== src/Filter/Append.antt =====
-- What `append` makes of the text and one more piece.
use netscope.Base.{
  ℕ, suc, ◌+◌, ◌≤◌, ◌<◌, ◌^◌, Bytes, Bool, true, false, Option, none, some, List, [], ◌∷◌, ◌++◌,
  ◌≡◌, refl, ltb, leb, length, length-append, lt→ltb, le→ltb, lt→leb, le→leb, if◌then◌else◌, arith,
}
use native.Mathlib.Decide.{dec_le}
use netscope.Run.{done, Returns}
use netscope.Word.{add_size_exact}
use netscope.Util.Text.{store, terminate}
use netscope.Util.Format.{codes}
use netscope.Filter.{append_piece, append}

-- Pieces in a row, with ` and ` between them.
abbrev pub join : Bytes → Bytes → Bytes
join [] piece = piece
join (c ∷ out) piece = ((c ∷ out) ++ codes " and ") ++ piece

abbrev pub join_all : Bytes → List (Option Bytes) → Bytes
join_all out [] = out
join_all out (none ∷ os) = join_all out os
join_all out (some piece ∷ os) = join_all (join out piece) os

length-join : (out piece : Bytes) → length out ≤ length (join out piece)
length-join [] piece = omega arith
length-join (c ∷ out) piece = omega (
  arith,
  length-append (c ∷ out) (codes " and "),
  length-append ((c ∷ out) ++ codes " and ") piece,
)

pub length-join_all :
    (out : Bytes) (os : List (Option Bytes)) → length out ≤ length (join_all out os)
length-join_all out [] = omega arith
length-join_all out (none ∷ os) = length-join_all out os
length-join_all out (some piece ∷ os) =
    omega (arith, length-join out piece, length-join_all (join out piece) os)

-- True exactly if the text with its terminator fits, and then it is the text.
abbrev pub IsBuilt : ℕ → Bytes → Bool × Bytes → Type 0
IsBuilt out_len text (answer, out) =
    (answer ≡ ltb (length text) out_len) × (answer ≡ true → out ≡ text)

-- A piece comes out of `piece[128]`.
abbrev pub IsPiece : Option Bytes → Type 0
IsPiece none = Unit
IsPiece (some piece) = length piece < 128

append_piece_lem :
    (out_len : ℕ) (out piece : Bytes)
    → out_len < 2 ^ 63
    → length out ≤ out_len
    → length piece < 128
    → append_piece out_len out piece
      ≡ done
          (if leb out_len (length out + length piece) then (false, out) else (true, out ++ piece))
unfolding append_piece store terminate
append_piece_lem out_len out piece small room short =
    rw (add_size_exact (length out) (length piece) (omega arith))
      (ground (arith, length-append out piece))

IsBuilt-append_piece :
    (out_len : ℕ) (out piece : Bytes)
    → out_len < 2 ^ 63
    → length out ≤ out_len
    → length piece < 128
    → Returns (append_piece out_len out piece) (IsBuilt out_len (out ++ piece))
IsBuilt-append_piece out_len out piece small room short =
    rw (append_piece_lem out_len out piece small room short)
      (elim (dec_le out_len (length out + length piece)) [
        | yes long ↦
            rw
              (
                le→leb _ _ long,
                length-append out piece,
                le→ltb (length out + length piece) out_len long,
              )
              (refl, λ h. ground arith)
        | no fits ↦
            rw
              (
                lt→leb out_len (length out + length piece) (omega arith),
                length-append out piece,
                lt→ltb (length out + length piece) out_len (omega arith),
              )
              (refl, λ h. refl)
      ])

pub append-IsBuilt :
    (out_len : ℕ) (out piece : Bytes)
    → out_len < 2 ^ 63
    → length out < out_len
    → length piece < 128
    → Returns (append out_len out piece) (IsBuilt out_len (join out piece))
unfolding append store
append-IsBuilt out_len [] piece small room short =
    IsBuilt-append_piece out_len [] piece small (omega arith) short
append-IsBuilt out_len (c ∷ out) piece small room short =
    let with_and = length-append (c ∷ out) (codes " and ") in
    rw (add_size_exact (suc (length out)) 4 (omega arith))
      (elim (dec_le out_len (suc (length out) + 4)) [
        | yes long ↦
            rw
              (
                le→leb _ _ long,
                le→ltb (length (join (c ∷ out) piece)) out_len
                    (omega (arith, with_and, length-append ((c ∷ out) ++ codes " and ") piece)),
              )
              (refl, λ h. ground arith)
        | no fits ↦
            rw
              (
                lt→leb out_len (suc (length out) + 4) (omega arith),
                le→leb (suc (length out) + 5) out_len (omega arith),
              )
              (IsBuilt-append_piece out_len ((c ∷ out) ++ codes " and ") piece small
                (omega (arith, with_and)) short)
      ])
