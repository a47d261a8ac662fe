-- ===== src/Base/Word.antt =====
-- Machine words: a `u32` or an `i32` is its bit pattern, a number below 2 ^ 32; the casts `as u8`,
-- `as u16`, `as u32` cut, and the shifts of a `u32` drop what leaves the word.
use Prim.Native.Nat.{ℕ, ◌+◌, ◌-◌, ◌*◌, ◌/◌, ◌%◌, ◌^◌, ◌<◌}

abbrev pub u8 : ℕ → ℕ
u8 n = n % 2 ^ 8

abbrev pub u16 : ℕ → ℕ
u16 n = n % 2 ^ 16

abbrev pub u32 : ℕ → ℕ
u32 n = n % 2 ^ 32

abbrev pub IsU32 : ℕ → Type 0
IsU32 n = n < 2 ^ 32

-- `a.wrapping_add(b)`, `a.wrapping_sub(b)`, `a.wrapping_mul(b)` of 32-bit words
abbrev pub wrapping_add : ℕ → ℕ → ℕ
wrapping_add a b = u32 (a + b)

abbrev pub wrapping_sub : ℕ → ℕ → ℕ
wrapping_sub a b = u32 (a + 2 ^ 32 - b)

abbrev pub wrapping_mul : ℕ → ℕ → ℕ
wrapping_mul a b = u32 (a * b)

-- `x >> k` and `x << k` of a `u32`
infixl 75 ◌>>>◌ ◌<<<◌
abbrev pub ◌>>>◌ : ℕ → ℕ → ℕ
x >>> k = x / 2 ^ k

abbrev pub ◌<<<◌ : ℕ → ℕ → ℕ
x <<< k = x * 2 ^ k % 2 ^ 32

-- `!x` of a `u32`
abbrev pub complement : ℕ → ℕ
complement x = 2 ^ 32 - 1 - x
