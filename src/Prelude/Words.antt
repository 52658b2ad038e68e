-- ===== src/Prelude/Words.antt =====
-- Bytes and words as native numbers: casts, complements, shifts and single bits.
use Prim.Native.Nat.{ℕ, ◌-◌, ◌*◌, ◌/◌, ◌%◌, ◌^◌, ◌<◌}

abbrev pub u8 : ℕ → ℕ
u8 n = n % 2 ^ 8

abbrev pub u32 : ℕ → ℕ
u32 n = n % 2 ^ 32

-- `~x` cut to the width.
abbrev pub not8 : ℕ → ℕ
not8 x = 2 ^ 8 - 1 - x % 2 ^ 8

abbrev pub not32 : ℕ → ℕ
not32 x = 2 ^ 32 - 1 - x % 2 ^ 32

infixl 75 ◌<<<◌ ◌>>>◌
abbrev pub ◌<<<◌ : ℕ → ℕ → ℕ
x <<< k = x * 2 ^ k

abbrev pub ◌>>>◌ : ℕ → ℕ → ℕ
x >>> k = x / 2 ^ k

abbrev pub IsByte : ℕ → Type 0
IsByte x = x < 256

abbrev pub IsWord : ℕ → Type 0
IsWord x = x < 2 ^ 32
