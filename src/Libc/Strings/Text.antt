-- ===== src/Libc/Strings/Text.antt =====
-- What strlen and strcmp return on terminated strings.
use balloon.Base.{ℕ, zero, suc, ◌+◌, ◌<◌, ◌≡◌, ◌≢◌, some, List, [], ◌∷◌, ◌++◌, length, arith}
use balloon.Ram.Access.{Ram}
use balloon.Libc.Strings.{count, strlen, skip_common, strcmp_result, strcmp}

-- The characters `cs` and a 0 stand at `p`.
unfoldable pub IsText : Ram → (p : ℕ) → (cs : List ℕ) → Type 0
IsText m p [] = m p ≡ 0
IsText m p (c ∷ cs) = (m p ≡ c) × (c ≢ 0) × IsText m (p + 1) cs

count_lem :
    (fuel : ℕ) (m : Ram) (txt len p : ℕ) (cs : List ℕ)
    → p ≡ txt + len
    → IsText m p cs
    → length cs < fuel
    → count fuel m txt len ≡ some (len + length cs)
unfolding count IsText
count_lem zero m txt len p cs here text enough = ground arith
count_lem (suc fuel) m txt len p [] here text enough = ground arith
count_lem (suc fuel) m txt len p (c ∷ cs) here text enough =
    ground (arith, count_lem fuel m txt (len + 1) (p + 1) cs)

-- On a terminated string strlen returns the number of its characters.
pub strlen_lem :
    (fuel : ℕ) (m : Ram) (txt : ℕ) (cs : List ℕ)
    → IsText m txt cs
    → length cs < fuel
    → strlen fuel m txt ≡ some (length cs)
unfolding strlen IsText
strlen_lem fuel m txt cs text enough =
    grind (arith, count_lem fuel m txt 0 txt cs (omega arith) text enough)

-- strcmp returns 0 on two strings with the same characters, with fuel for one step more than these.
pub strcmp_same :
    (fuel : ℕ) (m : Ram) (str1 str2 : ℕ) (cs : List ℕ)
    → IsText m str1 cs
    → IsText m str2 cs
    → length cs < fuel
    → strcmp fuel m str1 str2 ≡ some 0
unfolding strcmp strcmp_result skip_common IsText
strcmp_same zero m str1 str2 cs left right enough = ground arith
strcmp_same (suc fuel) m str1 str2 [] left right enough = ground arith
strcmp_same (suc fuel) m str1 str2 (c ∷ cs) left right enough =
    ground (arith, strcmp_same fuel m (str1 + 1) (str2 + 1) cs)

-- strcmp returns 0 also on two strings that differ in their last character and nowhere else.
pub strcmp_last_ignored :
    (fuel : ℕ) (m : Ram) (str1 str2 a b : ℕ) (cs : List ℕ)
    → IsText m str1 (cs ++ a ∷ [])
    → IsText m str2 (cs ++ b ∷ [])
    → length cs + 1 < fuel
    → strcmp fuel m str1 str2 ≡ some 0
unfolding strcmp strcmp_result skip_common IsText
strcmp_last_ignored zero m str1 str2 a b cs left right enough = ground arith
strcmp_last_ignored (suc zero) m str1 str2 a b cs left right enough = ground arith
strcmp_last_ignored (suc (suc fuel)) m str1 str2 a b [] left right enough = ground arith
strcmp_last_ignored (suc (suc fuel)) m str1 str2 a b (c ∷ cs) left right enough =
    ground (arith, strcmp_last_ignored (suc fuel) m (str1 + 1) (str2 + 1) a b cs)
