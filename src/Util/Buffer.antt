-- ===== src/Util/Buffer.antt =====
-- What a caller of the parsers owes, and values by position.
use netscope.Base.{
  ℕ, zero, suc, ◌+◌, ◌*◌, ◌-◌, ◌^◌, ◌≤◌, ◌<◌, ◌≡◌, [], ◌∷◌, Bytes, IsByte, All, length, get_or,
  take, drop, length-drop, length-take, arith,
}
use netscope.Word.{size_mod}

-- `buf` points to at least `n` bytes, and `n` is a size_t.
pub record IsBuffer (buf : Bytes) (n : ℕ) : Type 0 where
  pub within : n ≤ length buf
  pub small : n < size_mod
  pub bytes : All IsByte buf

abbrev pub byte_at : Bytes → ℕ → ℕ
byte_at buf i = get_or buf i 0

-- Big-endian values at a position.
unfoldable pub u16_at : Bytes → ℕ → ℕ
u16_at buf i = byte_at buf i * 2 ^ 8 + byte_at buf (i + 1)

unfoldable pub u32_at : Bytes → ℕ → ℕ
u32_at buf i =
    byte_at buf i * 2 ^ 24
    + byte_at buf (i + 1) * 2 ^ 16
    + byte_at buf (i + 2) * 2 ^ 8
    + byte_at buf (i + 3)

-- The value of `k` more bytes from `i` on, behind the value `v` of those before.
unfoldable pub u64_from : ℕ → Bytes → ℕ → ℕ → ℕ
u64_from zero buf i v = v
u64_from (suc k) buf i v = u64_from k buf (i + 1) (v * 2 ^ 8 + byte_at buf i)

unfoldable pub u64_at : Bytes → ℕ → ℕ
unfolding u64_from
u64_at buf i = u64_from 8 buf i 0

unfoldable pub slice : Bytes → ℕ → ℕ → Bytes
slice buf i k = take k (drop i buf)

pub byte_at-lt : (buf : Bytes) (i : ℕ) → All IsByte buf → byte_at buf i < 256
byte_at-lt [] i h = omega arith
byte_at-lt (b ∷ bs) zero h = h.0
byte_at-lt (b ∷ bs) (suc i) h = byte_at-lt bs i h.1

pub u16_at-lt : (buf : Bytes) (i : ℕ) → All IsByte buf → u16_at buf i < 2 ^ 16
unfolding u16_at
u16_at-lt buf i h = omega (arith, byte_at-lt buf i h, byte_at-lt buf (i + 1) h)

pub u32_at-lt : (buf : Bytes) (i : ℕ) → All IsByte buf → u32_at buf i < 2 ^ 32
unfolding u32_at
u32_at-lt buf i h = omega (
  arith,
  byte_at-lt buf i h,
  byte_at-lt buf (i + 1) h,
  byte_at-lt buf (i + 2) h,
  byte_at-lt buf (i + 3) h,
)

pub All-drop : (k : ℕ) (buf : Bytes) → All IsByte buf → All IsByte (drop k buf)
All-drop zero buf h = h
All-drop (suc k) [] h = h
All-drop (suc k) (b ∷ bs) h = All-drop k bs h.1

-- `buf + k` with `n - k` bytes is a buffer again.
pub IsBuffer-drop :
    {buf : Bytes} {n : ℕ} (k : ℕ) → IsBuffer buf n → k ≤ n → IsBuffer (drop k buf) (n - k)
IsBuffer-drop {buf} k b h = record {
  within = omega (arith, b.within, length-drop k buf);
  small = omega (arith, b.small);
  bytes = All-drop k buf b.bytes;
}

pub length-slice : (buf : Bytes) (i k : ℕ) → i + k ≤ length buf → length (slice buf i k) ≡ k
unfolding slice
length-slice buf i k h = omega (arith, length-take k (drop i buf), length-drop i buf)
