-- ===== src/Libc/Strings.antt =====
-- strlen and strcmp of source/kernel/libc/utils.c. A string is an address; the loops look
-- for the terminating 0 and recur on fuel, which runs out on memory with no 0.
pub mod Text
use balloon.Base.{
  ℕ, zero, suc, ◌+◌, ◌-◌, Bool, ◌&&◌, ◌||◌, Option, none, some, ltb, ◌==◌, if◌then◌else◌,
}
use balloon.Ram.Access.{Ram}

-- while (txt[len] != 0) len++;
unfoldable pub count : (fuel : ℕ) → Ram → (txt len : ℕ) → Option ℕ
count zero m txt len = none
count (suc fuel) m txt len =
    let rest = count fuel m txt (len + 1) in if m (txt + len) == 0 then some len else rest

unfoldable pub strlen : (fuel : ℕ) → Ram → (txt : ℕ) → Option ℕ
strlen fuel m txt = count fuel m txt 0

-- while (*str1 && *str2 && (*str1++ == *str2++));  both pointers move on past a mismatch too
unfoldable pub skip_common : (fuel : ℕ) → Ram → (str1 str2 : ℕ) → Option (ℕ × ℕ)
skip_common zero m str1 str2 = none
skip_common (suc fuel) m str1 str2 =
    let rest = skip_common fuel m (str1 + 1) (str2 + 1) in
    if (m str1 == 0) || (m str2 == 0)
    then some (str1, str2)
    else (if m str1 == m str2 then rest else some (str1 + 1, str2 + 1))

-- -1 is returned as a uint32_t.
unfoldable pub strcmp_result : Ram → (str1 str2 : ℕ) → ℕ
strcmp_result m str1 str2 =
    if (m str1 == 0) && (m str2 == 0) then 0 else (if m str1 == 0 then 0xffff_ffff else 1)

unfoldable pub strcmp : (fuel : ℕ) → Ram → (str1 str2 : ℕ) → Option ℕ
strcmp fuel m str1 str2 = elim (skip_common fuel m str1 str2) [
  | none ↦ none
  | some (p, q) ↦ some (strcmp_result m p q)
]
