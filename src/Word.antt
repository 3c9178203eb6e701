-- ===== src/Word.antt =====
-- Machine words as native numbers. `size_t` has 64 bits; its arithmetic wraps around. A shift is a
-- product or a quotient by a power of two, cut to the width where the code casts.
pub mod Bits
use netscope.Base.{ℕ, ◌+◌, ◌-◌, ◌*◌, ◌%◌, ◌^◌, ◌≤◌, ◌<◌, ◌≡◌, arith}

abbrev pub size_mod : ℕ
size_mod = 2 ^ 64

-- `a + b`, `a - b` and `a * b` on size_t.
unfoldable pub add_size : ℕ → ℕ → ℕ
add_size a b = (a + b) % size_mod

unfoldable pub sub_size : ℕ → ℕ → ℕ
sub_size a b = (a + size_mod - b) % size_mod

unfoldable pub mul_size : ℕ → ℕ → ℕ
mul_size a b = (a * b) % size_mod

pub add_size_exact : (a b : ℕ) → a + b < size_mod → add_size a b ≡ a + b
unfolding add_size
add_size_exact a b h = omega arith

pub sub_size_exact : (a b : ℕ) → b ≤ a → a < size_mod → sub_size a b ≡ a - b
unfolding sub_size
sub_size_exact a b h k = omega arith
