-- ===== src/Libc/Hex.antt =====
-- i2hex of source/kernel/libc/utils.c.
pub mod Digits
use balloon.Base.{
  ℕ, zero, suc, ◌+◌, ◌-◌, ◌*◌, Bool, true, false, ◌&&◌, bit_and, leb, ◌==◌, if◌then◌else◌, ◌>>◌,
}
use balloon.Ram.Access.{Ram, store8}

unfoldable pub hex_char : (tmp : ℕ) → ℕ
hex_char tmp = if leb 0xa tmp then tmp - 0xa + b'a' else tmp + b'0'

-- for (; i > 0; i -= 4, j++) with i = 4 * left. A zero in front of the first digit writes nothing,
-- but `j` moves on.
unfoldable pub hex_loop : Ram → (n dest j left : ℕ) → (no_zeroes : Bool) → Ram × ℕ
hex_loop m n dest j zero no_zeroes = (m, j)
hex_loop m n dest j (suc left) no_zeroes =
    let tmp = bit_and (n >> (4 * suc left)) 0xf in
    let blank = (tmp == 0) && no_zeroes in
    hex_loop (if blank then m else store8 m (dest + j) (hex_char tmp)) n dest (j + 1) left
      (if blank then no_zeroes else false)

-- The source does not read its argument `len`.
unfoldable pub i2hex : Ram → (val dest : ℕ) → Ram
i2hex m val dest =
    let (m', j) = hex_loop m val dest 0 7 true in store8 m' (dest + j) (hex_char (bit_and val 0xf))
