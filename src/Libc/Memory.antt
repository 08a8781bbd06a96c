-- ===== src/Libc/Memory.antt =====
-- memcpy, memset and memmove of source/kernel/libc/utils.c. Each loop counts its `len` down to
-- 0, so it recurs on `len`; the pointers move on in steps of one byte.
pub mod Copy
use balloon.Base.{ℕ, zero, suc, ◌+◌, ltb, if◌then◌else◌}
use balloon.Ram.Access.{Ram, store8}

-- for (; len != 0; len--) *dp++ = *sp++;
copy_up : Ram → ℕ → ℕ → ℕ → Ram
copy_up m dp sp zero = m
copy_up m dp sp (suc len) = copy_up (store8 m dp (m sp)) (dp + 1) (sp + 1) len

unfoldable pub memcpy : Ram → ℕ → ℕ → ℕ → Ram
unfolding copy_up
memcpy m dest src len = copy_up m dest src len

-- for ( ; len != 0; len--) *temp++ = val;
unfoldable pub memset : Ram → ℕ → ℕ → ℕ → Ram
memset m dest val zero = m
memset m dest val (suc len) = memset (store8 m dest val) (dest + 1) val len

-- while ( n-- ) *--_dest = *--_src;  the pointers start `n` bytes further on
copy_down : Ram → ℕ → ℕ → ℕ → Ram
copy_down m dest src zero = m
copy_down m dest src (suc n) = copy_down (store8 m (dest + n) (m (src + n))) dest src n

unfoldable pub memmove : Ram → ℕ → ℕ → ℕ → Ram
unfolding copy_up copy_down
memmove m dest src n = if ltb dest src then copy_up m dest src n else copy_down m dest src n
