-- ===== src/Util.antt =====
-- src/util.c: the bounds check and the big-endian readers that every parser goes through. A buffer
-- is the list of the bytes at the pointer; `length` is what the caller says that may be read of it.
-- A reader answers `none` for the C function's `false`, which leaves `*value` alone.
pub mod Reads
pub mod Buffer
pub mod Text
pub mod Format
pub mod HexDump
use netscope.Base.{
  ℕ, zero, suc, ◌+◌, ◌*◌, ◌%◌, ◌^◌, bit_or, Bool, false, not, Option, none, some, [], ◌∷◌, Bytes,
  ltb, leb, length, take, drop, if◌then◌else◌,
}
use netscope.Run.{Run, done, fault, Fault, ◌>>=◌, init}
use netscope.Word.{add_size, sub_size}

unfoldable pub bounds_check : ℕ → ℕ → ℕ → Bool
bounds_check length offset size =
    if ltb length offset then false else leb size (sub_size length offset)

-- `data[i]`
unfoldable pub at : Bytes → ℕ → Run ℕ
at [] i = fault Fault.out_of_bounds
at (b ∷ bs) zero = done b
at (b ∷ bs) (suc i) = at bs i

unfoldable pub read_u8 : Bytes → ℕ → ℕ → Run (Option ℕ)
read_u8 buf length offset =
    if not (bounds_check length offset 1)
    then done none
    else do value ← at buf offset; done (some value)

unfoldable pub read_u16_be : Bytes → ℕ → ℕ → Run (Option ℕ)
read_u16_be buf length offset = if not (bounds_check length offset 2) then done none else do
  b0 ← at buf offset
  b1 ← at buf (add_size offset 1)
  done (some (bit_or (b0 * 2 ^ 8) b1 % 2 ^ 16))

unfoldable pub read_u32_be : Bytes → ℕ → ℕ → Run (Option ℕ)
read_u32_be buf length offset = if not (bounds_check length offset 4) then done none else do
  b0 ← at buf offset
  b1 ← at buf (add_size offset 1)
  b2 ← at buf (add_size offset 2)
  b3 ← at buf (add_size offset 3)
  done (some (bit_or (bit_or (bit_or (b0 * 2 ^ 24 % 2 ^ 32) (b1 * 2 ^ 16)) (b2 * 2 ^ 8)) b3))

-- The loop of the 64-bit reader, on the rounds that are left: `i` goes up to `sizeof(*value)`.
unfoldable pub read_u64_loop : ℕ → Bytes → ℕ → ℕ → ℕ → Run ℕ
read_u64_loop zero buf offset i v = done v
read_u64_loop (suc rounds) buf offset i v = do
  b ← at buf (add_size offset i)
  read_u64_loop rounds buf offset (suc i) (bit_or (v * 2 ^ 8 % 2 ^ 64) b)

unfoldable pub read_u64_be : Bytes → ℕ → ℕ → Run (Option ℕ)
unfolding read_u64_loop
read_u64_be buf length offset =
    if not (bounds_check length offset 8)
    then done none
    else do v ← read_u64_loop 8 buf offset 0 0; done (some v)

-- `memcpy(dst, data + offset, size)`: the bytes that are copied.
unfoldable pub memcpy : Bytes → ℕ → ℕ → Run Bytes
memcpy buf offset size =
    if leb (offset + size) (length buf)
    then done (take size (drop offset buf))
    else fault Fault.out_of_bounds

-- A read whose answer the caller does not look at: after `false` the variable is still unset.
unfoldable pub load_u8 : Bytes → ℕ → ℕ → Run ℕ
load_u8 buf length offset = read_u8 buf length offset >>= init

unfoldable pub load_u16 : Bytes → ℕ → ℕ → Run ℕ
load_u16 buf length offset = read_u16_be buf length offset >>= init

unfoldable pub load_u32 : Bytes → ℕ → ℕ → Run ℕ
load_u32 buf length offset = read_u32_be buf length offset >>= init
