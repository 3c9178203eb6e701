-- ===== src/Protocols/Dns/Name/Label.antt =====
-- What `name_label` answers: on a label that is cut off, too long, or appended to the text.
use netscope.Base.{
  ℕ, ◌+◌, ◌^◌, ◌≤◌, ◌<◌, Bytes, [], ◌∷◌, ◌++◌, ◌≡◌, refl, length, length-append, lt→leb, le→leb,
  arith,
}
use netscope.Run.{done}
use netscope.Word.{add_size_exact}
use netscope.Util.Buffer.{IsBuffer, slice, length-slice}
use netscope.Util.Reads.{bounds_check_lem, memcpy_lem}
use netscope.Util.Text.{store-done}
use netscope.Protocols.Status.{truncated, malformed}
use netscope.Protocols.Dns.Name.{NameState, again, leave, name_label, store_dot}

-- The text before a new label: with a dot, unless the label is the first.
unfoldable pub dotted : Bytes → Bytes
dotted [] = []
dotted (c ∷ out) = (c ∷ out) ++ (b'.' ∷ [])

pub length-dotted-le : (out : Bytes) → length (dotted out) ≤ length out + 1
unfolding dotted
length-dotted-le [] = omega arith
length-dotted-le (c ∷ out) = omega (arith, length-append out (b'.' ∷ []))

pub le-length-dotted : (out : Bytes) → length out ≤ length (dotted out)
unfolding dotted
le-length-dotted [] = omega arith
le-length-dotted (c ∷ out) = omega (arith, length-append out (b'.' ∷ []))

store_dot-done :
    (cap : ℕ) (out : Bytes) → length out + 1 ≤ cap → store_dot cap out ≡ done (dotted out)
unfolding store_dot dotted
store_dot-done cap [] h = refl
store_dot-done cap (c ∷ out) h = store-done cap (c ∷ out) (b'.' ∷ []) h

-- The label at `pos`, with its length byte in front of it, is appended.
unfoldable pub add_label : Bytes → ℕ → ℕ → NameState → NameState
add_label buf pos b s = record s { pos = pos + 1 + b; out = dotted s.out ++ slice buf (pos + 1) b }

module _ {buf : Bytes} {n : ℕ} (valid : IsBuffer buf n) (out_len : ℕ) (s : NameState) (b : ℕ)
    (small_b : b < 256) (h : s.pos < n) (small_out : out_len < 2 ^ 63)
    (room : length s.out < out_len) where
  pub label_cut :
      n < s.pos + 1 + b
      → name_label buf n out_len b s ≡ done (leave truncated (record s { pos = s.pos + 1 }))
  unfolding name_label
  label_cut cut =
      rw
        (
          add_size_exact s.pos 1 (omega (arith, valid.small)),
          bounds_check_lem n (s.pos + 1) b valid.small,
          lt→leb _ _ cut,
        )
        refl

  pub label_long :
      s.pos + 1 + b ≤ n
      → out_len ≤ length s.out + b + 1
      → name_label buf n out_len b s ≡ done (leave malformed (record s { pos = s.pos + 1 }))
  unfolding name_label
  label_long fits long =
      rw
        (
          add_size_exact s.pos 1 (omega (arith, valid.small)),
          bounds_check_lem n (s.pos + 1) b valid.small,
          le→leb _ _ fits,
          add_size_exact (length s.out) b (omega arith),
          add_size_exact (length s.out + b) 1 (omega arith),
          le→leb _ _ long,
        )
        refl

  pub label_fits :
      s.pos + 1 + b ≤ n
      → length s.out + b + 1 < out_len
      → name_label buf n out_len b s ≡ done (again (add_label buf s.pos b s))
  unfolding name_label add_label
  label_fits fits short =
      rw
        (
          add_size_exact s.pos 1 (omega (arith, valid.small)),
          bounds_check_lem n (s.pos + 1) b valid.small,
          le→leb _ _ fits,
          add_size_exact (length s.out) b (omega arith),
          add_size_exact (length s.out + b) 1 (omega arith),
          lt→leb _ _ short,
          store_dot-done out_len s.out (omega arith),
          memcpy_lem valid (s.pos + 1) b fits,
          store-done out_len (dotted s.out) (slice buf (s.pos + 1) b) (
              omega (
                arith,
                length-slice buf (s.pos + 1) b (omega (arith, valid.within)),
                length-dotted-le s.out,
              )),
          add_size_exact (s.pos + 1) b (omega (arith, valid.small)),
        )
        refl
