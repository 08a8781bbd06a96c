-- ===== src/Libc/Decimal.antt =====
-- reverse, ctoi and itoa of source/kernel/libc/utils.c. An int32_t is a 32-bit word; one from
-- 2 ^ 31 on is negative.
pub mod Reverse
pub mod Text
use balloon.Base.{
  ℕ, zero, suc, ◌+◌, ◌-◌, ◌/◌, ◌%◌, ◌&&◌, ◌||◌, Option, none, some, leb, ltb, ◌==◌, if◌then◌else◌,
}
use balloon.Ram.Access.{Ram, store8}
use balloon.Libc.Strings.{strlen}
use balloon.Heap.Skip.{◌>>=◌}

-- for (; i < j; i++, j--) swaps s[i] and s[j]. A string of `rounds` characters needs fewer rounds.
unfoldable pub swap_loop : (rounds : ℕ) → Ram → (s i j : ℕ) → Ram
swap_loop zero m s i j = m
swap_loop (suc rounds) m s i j =
    if ltb i j
    then swap_loop rounds (store8 (store8 m (s + i) (m (s + j))) (s + j) (m (s + i))) s (i + 1)
        (j - 1)
    else m

-- The source's `j` is -1 for the empty string, and the loop does nothing.
unfoldable pub reverse_text : (fuel : ℕ) → Ram → (s : ℕ) → Option Ram
reverse_text fuel m s =
    strlen fuel m s >>= λ n. some (if n == 0 then m else swap_loop n m s 0 (n - 1))

-- -1 as an int8_t is the byte 255.
unfoldable pub ctoi : (c : ℕ) → ℕ
ctoi c = if ltb c 48 || ltb 57 c then 0xff else c - 48

-- n % 10 + '0', with the sign of `n`
abbrev pub next_digit : ℕ → ℕ
next_digit n = if leb 0x8000_0000 n then b'0' - (0x1_0000_0000 - n) % 10 else b'0' + n % 10

-- do s[i++] = n % 10 + '0'; while ((n /= 10) > 0);  A positive int has no more than 10 digits.
unfoldable pub itoa_loop : (rounds : ℕ) → Ram → (s i n : ℕ) → Ram × ℕ
itoa_loop zero m s i n = (m, i)
itoa_loop (suc rounds) m s i n =
    let m' = store8 m (s + i) (next_digit n) in
    let rest = itoa_loop rounds m' s (i + 1) (n / 10) in
    if ltb n 0x8000_0000 && ltb 0 (n / 10) then rest else (m', i + 1)

-- The string has 11 characters at most, so the search for its end needs 12 rounds. The negation of
-- -2 ^ 31 is that number again.
unfoldable pub itoa : Ram → (n s : ℕ) → Option Ram
itoa m n s =
    let n' : ℕ = if ltb 0x8000_0000 n then 0x1_0000_0000 - n else n in
    let (m₁, i) = itoa_loop 10 m s 0 n' in
    if leb 0x8000_0000 n
    then reverse_text 12 (store8 (store8 m₁ (s + i) b'-') (s + (i + 1)) 0) s
    else reverse_text 12 (store8 m₁ (s + i) 0) s
