-- ===== src/Base/Words.antt =====
-- Machine words: the casts to the fixed widths, and the arithmetic of `uint32_t`.
use Prim.Native.Nat.{ℕ, ◌+◌, ◌-◌, ◌*◌, ◌/◌, ◌%◌, ◌^◌}

abbrev pub u8 : ℕ → ℕ
u8 n = n % 0x100

abbrev pub u16 : ℕ → ℕ
u16 n = n % 0x1_0000

abbrev pub u32 : ℕ → ℕ
u32 n = n % 0x1_0000_0000

abbrev pub add32 : ℕ → ℕ → ℕ
add32 a b = u32 (a + b)

-- `-` on ℕ stops at 0, so the modulus is added first; the operands are below it.
abbrev pub sub32 : ℕ → ℕ → ℕ
sub32 a b = u32 (a + 0x1_0000_0000 - b)

abbrev pub mul32 : ℕ → ℕ → ℕ
mul32 a b = u32 (a * b)

infixl 60 ◌<<◌ ◌>>◌
abbrev pub ◌<<◌ : ℕ → ℕ → ℕ
x << k = u32 (x * 2 ^ k)

abbrev pub ◌>>◌ : ℕ → ℕ → ℕ
x >> k = x / 2 ^ k

-- `~x` at 32 bits
abbrev pub not32 : ℕ → ℕ
not32 x = 0xffff_ffff - x
