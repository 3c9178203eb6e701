-- ===== src/Util/Reads.antt =====
-- The bounds check and the big-endian readers of src/util.c, against their meaning.
use netscope.Base.{
  ℕ, zero, suc, ◌+◌, ◌*◌, ◌≤◌, ◌<◌, ◌/◌, ◌^◌, ◌%◌, bit_or, ◌≡◌, refl, ◌↔◌, true, none, some, [],
  ◌∷◌, Bytes, IsByte, All, length, leb, if◌then◌else◌, arith,
}
use netscope.Run.{done}
use netscope.Word.{size_mod, add_size_exact, sub_size_exact}
use netscope.Word.Bits.{bit_or-shl_8, bit_or-shl_16, bit_or-shl_24}
use netscope.Util.{
  bounds_check, at, read_u8, read_u16_be, read_u32_be, read_u64_be, read_u64_loop, memcpy, load_u8,
  load_u16, load_u32,
}
use netscope.Util.Buffer.{IsBuffer, byte_at, byte_at-lt, u16_at, u32_at, u64_at, u64_from, slice}

pub bounds_check_lem :
    (n offset size : ℕ) → n < size_mod → bounds_check n offset size ≡ leb (offset + size) n
unfolding bounds_check
bounds_check_lem n offset size h = ground (arith, sub_size_exact n offset)

-- For every size_t `length`, and offsets and sizes however large, the check passes exactly if the
-- bytes from `offset` up to `offset + size`, added without wrap-around, lie inside the length.
pub bounds_check_iff :
    (n offset size : ℕ) → n < size_mod → (bounds_check n offset size ≡ true) ↔ (offset + size ≤ n)
bounds_check_iff n offset size h = rw (bounds_check_lem n offset size h) (ground arith)

pub at-done : (buf : Bytes) (i : ℕ) → i < length buf → at buf i ≡ done (byte_at buf i)
unfolding at
at-done [] i h = absurd (omega arith)
at-done (b ∷ bs) zero h = refl
at-done (b ∷ bs) (suc i) h = at-done bs i (omega arith)

or_u32 :
    (a b c d : ℕ)
    → a < 256
    → b < 256
    → c < 256
    → d < 256
    → bit_or (bit_or (bit_or (a * 2 ^ 24 % 2 ^ 32) (b * 2 ^ 16)) (c * 2 ^ 8)) d
      ≡ a * 2 ^ 24 + b * 2 ^ 16 + c * 2 ^ 8 + d
or_u32 a b c d ha hb hc hd =
    rw
      (
        top_byte a ha,
        bit_or-shl_24 a (b * 2 ^ 16) (omega arith),
        mid_byte a b,
        bit_or-shl_16 (a * 256 + b) (c * 2 ^ 8) (omega arith),
        low_byte a b c,
        bit_or-shl_8 (a * 2 ^ 16 + b * 256 + c) d hd,
      )
      (omega arith)
  where
    top_byte : (a : ℕ) → a < 256 → a * 2 ^ 24 % 2 ^ 32 ≡ a * 2 ^ 24
    top_byte a h = omega arith

    mid_byte : (a b : ℕ) → a * 2 ^ 24 + b * 2 ^ 16 ≡ (a * 256 + b) * 2 ^ 16
    mid_byte a b = omega arith

    low_byte : (a b c : ℕ) → (a * 256 + b) * 2 ^ 16 + c * 2 ^ 8 ≡ (a * 2 ^ 16 + b * 256 + c) * 256
    low_byte a b c = omega arith

bit_or_u32 :
    (buf : Bytes) (i : ℕ)
    → All IsByte buf
    → bit_or
        (bit_or
          (bit_or (byte_at buf i * 2 ^ 24 % 2 ^ 32) (byte_at buf (i + 1) * 2 ^ 16))
          (byte_at buf (i + 2) * 2 ^ 8))
        (byte_at buf (i + 3))
      ≡ u32_at buf i
unfolding u32_at
bit_or_u32 buf i h =
    or_u32 (byte_at buf i) (byte_at buf (i + 1)) (byte_at buf (i + 2)) (byte_at buf (i + 3))
      (byte_at-lt buf i h) (byte_at-lt buf (i + 1) h) (byte_at-lt buf (i + 2) h)
      (byte_at-lt buf (i + 3) h)

-- The values that leave room for `k` more bytes in 64 bits.
room : ℕ → ℕ
room zero = 2 ^ 64
room (suc k) = room k / 256

room-le : (k : ℕ) → room k ≤ 2 ^ 64
unfolding room
room-le zero = omega arith
room-le (suc k) = omega (arith, room-le k)

read_u64_loop_lem :
    {buf : Bytes} {n : ℕ} (valid : IsBuffer buf n) (k offset i v : ℕ)
    → offset + i + k ≤ n
    → v < room k
    → read_u64_loop k buf offset i v ≡ done (u64_from k buf (offset + i) v)
unfolding read_u64_loop u64_from room
read_u64_loop_lem valid zero offset i v h small = refl
read_u64_loop_lem {buf} valid (suc k) offset i v h small =
    rw
      (
        add_size_exact offset i (omega (arith, valid.small)),
        at-done buf (offset + i) (omega (arith, valid.within)),
        mod_room,
        bit_or-shl_8 v (byte_at buf (offset + i)) (byte_at-lt buf (offset + i) valid.bytes),
        read_u64_loop_lem valid k offset (suc i) (v * 2 ^ 8 + byte_at buf (offset + i))
            (omega arith) (omega (arith, byte_at-lt buf (offset + i) valid.bytes)),
        next,
      )
      refl
  where
    mod_room : v * 2 ^ 8 % 2 ^ 64 ≡ v * 2 ^ 8
    mod_room = omega (arith, room-le k)

    next : offset + suc i ≡ offset + i + 1
    next = omega arith

read_u64_loop_8 :
    {buf : Bytes} {n : ℕ} (valid : IsBuffer buf n) (offset : ℕ)
    → offset + 8 ≤ n
    → read_u64_loop 8 buf offset 0 0 ≡ done (u64_at buf offset)
unfolding u64_at room
read_u64_loop_8 {buf} valid offset h =
    rw (read_u64_loop_lem valid 8 offset 0 0 (omega arith) (omega arith), start) refl
  where
    start : offset + 0 ≡ offset
    start = omega arith

module _ {buf : Bytes} {n : ℕ} (valid : IsBuffer buf n) (offset : ℕ) where
  pub read_u8_lem :
      read_u8 buf n offset ≡ done (if leb (offset + 1) n then some (byte_at buf offset) else none)
  unfolding read_u8
  read_u8_lem =
      rw (bounds_check_lem n offset 1 valid.small)
        (ground (arith, at-done buf offset, valid.within))

  -- On every buffer and for every offset the 16-bit reader ends without a fault: with the big-endian
  -- value of the 2 bytes if they lie inside the length, and else with `none`.
  pub read_u16_be_lem :
      read_u16_be buf n offset
      ≡ done (if leb (offset + 2) n then some (u16_at buf offset) else none)
  unfolding read_u16_be u16_at
  read_u16_be_lem = rw (bounds_check_lem n offset 2 valid.small) (
      ground (
        arith,
        at-done buf offset,
        at-done buf (offset + 1),
        valid.within,
        valid.small,
        add_size_exact offset 1,
        bit_or-shl_8 (byte_at buf offset) (byte_at buf (offset + 1)),
        byte_at-lt buf offset valid.bytes,
        byte_at-lt buf (offset + 1) valid.bytes,
      ))

  -- On every buffer and for every offset the 32-bit reader ends without a fault: with the big-endian
  -- value of the 4 bytes if they lie inside the length, and else with `none`.
  pub read_u32_be_lem :
      read_u32_be buf n offset
      ≡ done (if leb (offset + 4) n then some (u32_at buf offset) else none)
  unfolding read_u32_be
  read_u32_be_lem = rw (bounds_check_lem n offset 4 valid.small) (
      ground (
        arith,
        at-done buf offset,
        at-done buf (offset + 1),
        at-done buf (offset + 2),
        at-done buf (offset + 3),
        valid.within,
        valid.small,
        add_size_exact offset 1,
        add_size_exact offset 2,
        add_size_exact offset 3,
        bit_or_u32 buf offset valid.bytes,
      ))

  -- On every buffer and for every offset the 64-bit reader ends without a fault: with the big-endian
  -- value of the 8 bytes if they lie inside the length, and else with `none`.
  pub read_u64_be_lem :
      read_u64_be buf n offset
      ≡ done (if leb (offset + 8) n then some (u64_at buf offset) else none)
  unfolding read_u64_be
  read_u64_be_lem =
      rw (bounds_check_lem n offset 8 valid.small) (ground (arith, read_u64_loop_8 valid offset))

  pub memcpy_lem : (k : ℕ) → offset + k ≤ n → memcpy buf offset k ≡ done (slice buf offset k)
  unfolding memcpy slice
  memcpy_lem k h = ground (arith, valid.within)

  pub load_u8_lem : offset + 1 ≤ n → load_u8 buf n offset ≡ done (byte_at buf offset)
  unfolding load_u8
  load_u8_lem h = rw read_u8_lem (ground arith)

  pub load_u16_lem : offset + 2 ≤ n → load_u16 buf n offset ≡ done (u16_at buf offset)
  unfolding load_u16
  load_u16_lem h = rw read_u16_be_lem (ground arith)

  pub load_u32_lem : offset + 4 ≤ n → load_u32 buf n offset ≡ done (u32_at buf offset)
  unfolding load_u32
  load_u32_lem h = rw read_u32_be_lem (ground arith)
