-- ===== src/Protocols/Dns/Rdata/Total.antt =====
-- The formatters of record data of src/protocols/dns.c, and the room in `out`.
use native.Mathlib.Decide.{dec_le, dec_lt}
use netscope.Base.{
  ℕ, zero, suc, ◌+◌, ◌^◌, ◌≤◌, ◌<◌, Bytes, not, ◌||◌, Option, none, some, [], ◌++◌, ◌≡◌, refl, inl,
  inr, ◌==◌, leb, length, length-append, Bool-cases, leb→le, lt→ltb, le→ltb, arith,
}
use netscope.Run.{Run, done, Returns, Returns-bind, if-Returns}
use netscope.Word.{add_size, add_size_exact}
use netscope.Util.Buffer.{IsBuffer, byte_at, u16_at, slice, length-slice}
use netscope.Util.Reads.{bounds_check_lem, at-done, read_u16_be_lem, memcpy_lem}
use netscope.Util.Text.{store-done, terminate, length-snprintf-room}
use netscope.Util.Format.{format_ipv4, format_ipv6}
use netscope.Util.Format.Ipv6.{Printed, format_ipv6-Printed}
use netscope.Protocols.Status.{Status, ok, truncated, malformed, unsupported}
use netscope.Protocols.Dns.Name.{decode_name}
use netscope.Protocols.Dns.Name.Total.{Decoded, decode_name-Decoded}
use netscope.Protocols.Dns.Rdata.{
  format_a, format_aaaa, name_if_ok, format_name_rdata, mx_text, format_mx, txt_copy, txt_loop,
  format_txt, rdata_of_type, opaque_text, format_rdata,
}

-- A text, if there is one, that leaves room for its terminator.
abbrev pub TextFits : ℕ → Option Bytes → Type 0
TextFits out_len none = Unit
TextFits out_len (some s) = length s < out_len

name_if_ok-TextFits :
    (offset n out_len : ℕ) (r : Status × Bytes × Option ℕ)
    → Decoded offset n out_len r
    → TextFits out_len (name_if_ok r)
name_if_ok-TextFits offset n out_len (ok, name, end) h = h.0
name_if_ok-TextFits offset n out_len (truncated, name, end) h = tt
name_if_ok-TextFits offset n out_len (malformed, name, end) h = tt
name_if_ok-TextFits offset n out_len (unsupported, name, end) h = tt

txt_copy_bounds :
    (out_pos seg_len out_len : ℕ)
    → out_pos < out_len
    → (txt_copy out_pos seg_len out_len ≤ seg_len)
      × (out_pos + txt_copy out_pos seg_len out_len < out_len)
unfolding txt_copy
txt_copy_bounds out_pos seg_len out_len h = ground arith

module _ {buf : Bytes} {n : ℕ} (valid : IsBuffer buf n) (rdata_offset rdlength out_len : ℕ)
    (two : 1 < out_len) (small : out_len < 2 ^ 63) where
  format_a-TextFits : Returns (format_a buf n rdata_offset rdlength out_len) (TextFits out_len)
  unfolding format_a format_ipv4
  format_a-TextFits =
      rw (bounds_check_lem n rdata_offset 4 valid.small)
        (elim (Bool-cases (not (rdlength == 4) || not (leb (rdata_offset + 4) n))) [
          | inl e ↦ rw e tt
          | inr e ↦
              rw (e, memcpy_lem valid rdata_offset 4 (ground arith))
                (omega (arith, length-snprintf-room out_len))
        ])

  format_aaaa-TextFits :
      Returns (format_aaaa buf n rdata_offset rdlength out_len) (TextFits out_len)
  unfolding format_aaaa
  format_aaaa-TextFits =
      rw (bounds_check_lem n rdata_offset 16 valid.small)
        (elim (Bool-cases (not (rdlength == 16) || not (leb (rdata_offset + 16) n))) [
          | inl e ↦ rw e tt
          | inr e ↦
              rw (e, memcpy_lem valid rdata_offset 16 (ground arith))
                (Returns-bind (format_ipv6 (slice buf rdata_offset 16) out_len) _ (Printed out_len)
                  (TextFits out_len) (format_ipv6-Printed (slice buf rdata_offset 16) out_len)
                  (λ s h. omega arith))
        ])

  format_name_rdata-TextFits :
      Returns (format_name_rdata buf n rdata_offset out_len) (TextFits out_len)
  unfolding format_name_rdata
  format_name_rdata-TextFits =
      Returns-bind (decode_name buf n rdata_offset out_len) _ (Decoded rdata_offset n out_len)
        (TextFits out_len) (decode_name-Decoded valid rdata_offset out_len two small)
        (λ r h. name_if_ok-TextFits rdata_offset n out_len r h)

  mx_name-TextFits :
      (p : ℕ) (o : Option Bytes)
      → Returns
          (elim o as (λ o. Run (Option Bytes)) [
            | none ↦ done none
            | some name ↦ done (some (mx_text p name out_len))
          ])
          (TextFits out_len)
  unfolding mx_text
  mx_name-TextFits p none = tt
  mx_name-TextFits p (some name) = omega (arith, length-snprintf-room out_len)

  format_mx-TextFits : Returns (format_mx buf n rdata_offset out_len) (TextFits out_len)
  unfolding format_mx
  format_mx-TextFits =
      rw (bounds_check_lem n rdata_offset 2 valid.small, read_u16_be_lem valid rdata_offset)
        (elim (Bool-cases (leb (rdata_offset + 2) n)) [
          | inr e ↦ rw e tt
          | inl e ↦ rw e (
              Returns-bind (decode_name buf n (add_size rdata_offset 2) 256) _
                (Decoded (add_size rdata_offset 2) n 256) (TextFits out_len)
                (decode_name-Decoded valid (add_size rdata_offset 2) 256 (omega arith)
                  (omega arith))
                (λ r h. mx_name-TextFits (u16_at buf rdata_offset) (name_if_ok r)))
        ])

  -- Behind the check, so the whole record data lies inside the buffer.
  module _ (inside : rdata_offset + rdlength ≤ n) where
    -- What a turn copies.
    abbrev copied : Bytes → ℕ → ℕ → Bytes
    copied out pos seg_len =
        slice buf (rdata_offset + (pos + 1)) (txt_copy (length out) seg_len out_len)

    length-copied :
        (out : Bytes) (pos seg_len : ℕ)
        → pos + 1 + seg_len ≤ rdlength
        → length out < out_len
        → length out + length (copied out pos seg_len) < out_len
    length-copied out pos seg_len fits room =
        let copy = txt_copy_bounds (length out) seg_len out_len room in
        omega (
          arith,
          copy.1,
          length-slice buf (rdata_offset + (pos + 1)) (txt_copy (length out) seg_len out_len)
              (omega (arith, copy.0, valid.within)),
        )

    -- One turn whose segment fits in the record data.
    txt_turn :
        (fuel pos seg_len : ℕ) (out : Bytes)
        → byte_at buf (rdata_offset + pos) ≡ seg_len
        → pos + 1 + seg_len ≤ rdlength
        → length out + 1 < out_len
        → txt_loop (suc fuel) buf rdata_offset rdlength out_len pos out
          ≡ txt_loop fuel buf rdata_offset rdlength out_len
              (pos + 1 + seg_len)
              (out ++ copied out pos seg_len)
    unfolding txt_loop
    txt_turn fuel pos seg_len out e fits room =
        let copy = txt_copy_bounds (length out) seg_len out_len (omega arith) in
        rw
          (
            lt→ltb pos rdlength (omega arith),
            lt→ltb (length out + 1) out_len room,
            add_size_exact rdata_offset pos (omega (arith, valid.small)),
            at-done buf (rdata_offset + pos) (omega (arith, valid.within)),
            e,
            le→ltb rdlength (pos + 1 + seg_len) fits,
            add_size_exact rdata_offset (pos + 1) (omega (arith, valid.small)),
            memcpy_lem valid (rdata_offset + (pos + 1)) (txt_copy (length out) seg_len out_len)
                (omega (arith, copy.0)),
            store-done out_len out (copied out pos seg_len)
                (omega (arith, length-copied out pos seg_len fits (omega arith))),
          )
          refl

    txt_loop-Returns :
        (fuel pos : ℕ) (out : Bytes)
        → rdlength < pos + fuel
        → pos ≤ rdlength
        → length out < out_len
        → Returns
            (txt_loop fuel buf rdata_offset rdlength out_len pos out)
            (λ s. length s < out_len)
    txt_loop-Returns zero pos out enough h room = absurd (omega arith)
    txt_loop-Returns (suc fuel) pos out enough h room = elim (dec_lt pos rdlength) [
      | no all_read ↦ unfold txt_loop in rw (le→ltb pos rdlength (omega arith)) room
      | yes more ↦ elim (dec_lt (length out + 1) out_len) [
        | no full ↦
            unfold txt_loop in
            rw (lt→ltb pos rdlength more, le→ltb (length out + 1) out_len (omega arith)) room
        | yes short ↦ elim (dec_le (pos + 1 + byte_at buf (rdata_offset + pos)) rdlength) [
          | no long ↦
              unfold txt_loop in
              rw
                (
                  lt→ltb pos rdlength more,
                  lt→ltb (length out + 1) out_len short,
                  add_size_exact rdata_offset pos (omega (arith, valid.small)),
                  at-done buf (rdata_offset + pos) (omega (arith, valid.within)),
                  lt→ltb rdlength (pos + 1 + byte_at buf (rdata_offset + pos)) (omega arith),
                )
                room
          | yes fits ↦ rw (txt_turn fuel pos _ out refl fits short) (
              txt_loop-Returns fuel (pos + 1 + byte_at buf (rdata_offset + pos)) _ (omega arith)
                fits
                (omega (
                  arith,
                  length-append out (copied out pos (byte_at buf (rdata_offset + pos))),
                  length-copied out pos (byte_at buf (rdata_offset + pos)) fits room,
                )))
        ]
      ]
    ]

  format_txt-TextFits : Returns (format_txt buf n rdata_offset rdlength out_len) (TextFits out_len)
  unfolding format_txt terminate
  format_txt-TextFits =
      rw (bounds_check_lem n rdata_offset rdlength valid.small)
        (elim (Bool-cases (leb (rdata_offset + rdlength) n)) [
          | inr e ↦ rw e tt
          | inl e ↦
              rw (e, lt→ltb 0 out_len (omega arith))
                (Returns-bind (txt_loop (suc rdlength) buf rdata_offset rdlength out_len 0 []) _
                  (λ s. length s < out_len) (TextFits out_len)
                  (txt_loop-Returns (leb→le _ _ e) (suc rdlength) 0 [] (omega arith) (omega arith)
                    (omega arith))
                  (λ s h. rw (lt→ltb (length s) out_len h) h))
        ])

  rdata_of_type-TextFits :
      (type : ℕ)
      → Returns (rdata_of_type buf n rdata_offset rdlength type out_len) (TextFits out_len)
  unfolding rdata_of_type
  rdata_of_type-TextFits type = if-Returns _ _ (TextFits out_len) (type == 1) format_a-TextFits (
      if-Returns _ _ (TextFits out_len) (type == 28) format_aaaa-TextFits (
        if-Returns _ _ (TextFits out_len) (type == 5 || type == 2 || type == 12)
          format_name_rdata-TextFits
          (if-Returns _ _ (TextFits out_len) (type == 15) format_mx-TextFits
            (if-Returns _ _ (TextFits out_len) (type == 16) format_txt-TextFits tt))))

  text_or_opaque :
      (o : Option Bytes)
      → TextFits out_len o
      → Returns
          (elim o as (λ o. Run Bytes) [
            | none ↦ done (opaque_text rdlength out_len)
            | some text ↦ done text
          ])
          (λ s. length s < out_len)
  unfolding opaque_text
  text_or_opaque none h = omega (arith, length-snprintf-room out_len)
  text_or_opaque (some text) h = h

  -- On every buffer, for every place, length and type of the record data, and for every `out` of two
  -- chars or more (and under 2^63), the text of the data is found without a fault and within the fuel, and leaves room for its terminator.
  pub format_rdata-Returns :
      (type : ℕ)
      → Returns (format_rdata buf n rdata_offset rdlength type out_len) (λ s. length s < out_len)
  unfolding format_rdata
  format_rdata-Returns type =
      Returns-bind (rdata_of_type buf n rdata_offset rdlength type out_len) _ (TextFits out_len)
        (λ s. length s < out_len) (rdata_of_type-TextFits type) text_or_opaque
