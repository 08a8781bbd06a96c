-- ===== src/Heap/Bins.antt =====
-- The choice of a bin for a size: klmalloc_adjust_bin and klmalloc_bin_size.
pub mod Fit
use balloon.Base.{ℕ, zero, suc, ◌+◌, ◌-◌, ◌/◌, bit_and, ltb, leb, ◌==◌, if◌then◌else◌}

abbrev pub smallest_bin_log : ℕ
smallest_bin_log = 2

abbrev pub num_bins : ℕ
num_bins = 11

abbrev pub big_bin : ℕ
big_bin = num_bins - 1

-- The subtraction runs only at a bin above the smallest one.
unfoldable pub adjust_bin : ℕ → ℕ
adjust_bin bin =
    if leb bin smallest_bin_log
    then 0
    else (let bin' = bin - (smallest_bin_log + 1) in if ltb big_bin bin' then big_bin else bin')

-- How many binary digits a number below 2 ^ fuel has.
unfoldable pub bit_length : ℕ → ℕ → ℕ
bit_length zero n = 0
bit_length (suc fuel) n = let rest = bit_length fuel (n / 2) in if n == 0 then 0 else suc rest

-- __builtin_clzl at 32 bits, the compiler's count of leading zeros
unfoldable pub clz : ℕ → ℕ
unfolding bit_length
clz n = 32 - bit_length 32 n

-- `size` is not 0, so `size - 1` does not wrap.
unfoldable pub bin_size : ℕ → ℕ
unfolding adjust_bin clz
bin_size size =
    let bin = 32 - clz size in adjust_bin (bin + (if bit_and size (size - 1) == 0 then 0 else 1))
