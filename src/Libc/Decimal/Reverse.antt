-- ===== src/Libc/Decimal/Reverse.antt =====
-- What reverse leaves in memory.
use balloon.Base.{
  ℕ, zero, suc, ◌+◌, ◌-◌, ◌*◌, ◌≤◌, ◌<◌, ◌≡◌, ◌≢◌, refl, sym, ◌∙◌, ◌&&◌, List, [], ◌∷◌, some,
  length, leb, ltb, arith, Bool-cases, inl, inr, ◌==◌, if◌then◌else◌,
}
use balloon.Ram.Access.{Ram, store8}
use balloon.Ram.Frame.{IsBytes, store8-IsBytes}
use balloon.Libc.Strings.Text.{IsText, strlen_lem}
use balloon.Libc.Decimal.{swap_loop, reverse_text}

-- the swap of s[i] and s[j]
abbrev swap : Ram → (s i j : ℕ) → Ram
swap m s i j = store8 (store8 m (s + i) (m (s + j))) (s + j) (m (s + i))

swap_lem :
    (m : Ram) (s i j x : ℕ)
    → IsBytes m
    → swap m s i j x ≡ (if x == s + j then m (s + i) else if x == s + i then m (s + j) else m x)
unfolding store8
swap_lem m s i j x b = ground (arith, b (s + i), b (s + j))

swap-IsBytes : (m : Ram) (s i j : ℕ) → IsBytes m → IsBytes (swap m s i j)
swap-IsBytes m s i j b =
    store8-IsBytes (store8 m (s + i) (m (s + j))) (s + j) (m (s + i))
      (store8-IsBytes m (s + i) (m (s + j)) b)

-- the range between the two indices, mirrored
abbrev mirrored : Ram → (s i j x : ℕ) → ℕ
mirrored m s i j x = if leb (s + i) x && leb x (s + j) then m (s + i + (s + j) - x) else m x

mirrored_step :
    (m : Ram) (s i j x : ℕ)
    → IsBytes m
    → i < j
    → mirrored (swap m s i j) s (i + 1) (j - 1) x ≡ mirrored m s i j x
mirrored_step m s i j x b lt =
    let same : s + (i + 1) + (s + (j - 1)) - x ≡ s + i + (s + j) - x = omega arith in
    rw (same, swap_lem m s i j x b, swap_lem m s i j (s + i + (s + j) - x) b) (ground (arith, b x))

swap_loop_lem :
    (rounds : ℕ) (m : Ram) (s i j x : ℕ)
    → IsBytes m
    → j < i + 2 * rounds
    → swap_loop rounds m s i j x ≡ mirrored m s i j x
unfolding swap_loop
swap_loop_lem zero m s i j x b h = ground arith
swap_loop_lem (suc rounds) m s i j x b h = elim (Bool-cases (ltb i j)) [
  | inl more ↦ rw more (
      swap_loop_lem rounds (swap m s i j) s (i + 1) (j - 1) x (swap-IsBytes m s i j b) (omega arith)
      ∙ mirrored_step m s i j x b (ground arith))
  | inr last ↦ rw last (ground arith)
]

pub swap_loop-IsBytes :
    (rounds : ℕ) (m : Ram) (s i j : ℕ) → IsBytes m → IsBytes (swap_loop rounds m s i j)
unfolding swap_loop
swap_loop-IsBytes zero m s i j b = b
swap_loop-IsBytes (suc rounds) m s i j b = elim (Bool-cases (ltb i j)) [
  | inl more ↦
      rw more (swap_loop-IsBytes rounds (swap m s i j) s (i + 1) (j - 1) (swap-IsBytes m s i j b))
  | inr last ↦ rw last b
]

-- The characters `cs` and a 0 behind them, written backwards from `s` on.
unfoldable pub backwards : (cs rest : List ℕ) → List ℕ
backwards [] rest = rest
backwards (c ∷ cs) rest = backwards cs (c ∷ rest)

length-backwards : (cs rest : List ℕ) → length (backwards cs rest) ≡ length cs + length rest
unfolding backwards
length-backwards [] rest = omega arith
length-backwards (c ∷ cs) rest = omega (arith, length-backwards cs (c ∷ rest))

-- The cells from `s` on hold `cs` backwards.
unfoldable pub IsBackwards : Ram → (s : ℕ) → (cs : List ℕ) → Type 0
IsBackwards m s [] = Unit {0}
IsBackwards m s (c ∷ cs) = (m (s + length cs) ≡ c) × (c ≢ 0) × IsBackwards m s cs

IsText-moved : (m : Ram) (p q : ℕ) (cs : List ℕ) → p ≡ q → IsText m p cs → IsText m q cs
IsText-moved m p q cs e t = rw (sym e) t

pub IsBackwards-IsText :
    (m : Ram) (s : ℕ) (cs rest : List ℕ)
    → IsBackwards m s cs
    → IsText m (s + length cs) rest
    → IsText m s (backwards cs rest)
unfolding IsBackwards IsText backwards
IsBackwards-IsText m s [] rest h t = IsText-moved m (s + 0) s rest (omega arith) t
IsBackwards-IsText m s (c ∷ cs) rest (here, char, h) t =
    let next : s + length cs + 1 ≡ s + suc (length cs) = omega arith in
    IsBackwards-IsText m s cs (c ∷ rest) h (here, char, rw next t)

IsText-IsBackwards :
    (m : Ram) (s : ℕ) (cs rest : List ℕ)
    → IsText m s (backwards cs rest)
    → IsBackwards m s cs × IsText m (s + length cs) rest
unfolding IsBackwards IsText backwards
IsText-IsBackwards m s [] rest t = let here : s + 0 ≡ s = omega arith in (record {}, rw here t)
IsText-IsBackwards m s (c ∷ cs) rest t =
    let (h, (here, char, t')) = IsText-IsBackwards m s cs (c ∷ rest) t in
    let next : s + suc (length cs) ≡ s + length cs + 1 = omega arith in
    ((here, char, h), rw next t')

-- A mirrored range holds the text.
mirrored-IsText :
    (m m' : Ram) (s n p : ℕ) (cs : List ℕ)
    → ((x : ℕ) → m' x ≡ mirrored m s 0 (n - 1) x)
    → m (s + n) ≡ 0
    → 0 < n
    → s ≤ p
    → p + length cs ≡ s + n
    → IsBackwards m s cs
    → IsText m' p cs
unfolding IsText IsBackwards
mirrored-IsText m m' s n p [] e end some_left h fits b = ground (arith, e p)
mirrored-IsText m m' s n p (c ∷ cs) e end some_left h fits (here, char, b) =
    let index : s + 0 + (s + (n - 1)) - p ≡ s + length cs = omega arith in
    (
      e p ∙ rw index (ground arith),
      char,
      mirrored-IsText m m' s n (p + 1) cs e end some_left (omega arith) (omega arith) b,
    )

-- reverse on a string turns it around: the characters that stood backwards stand in order.
pub reverse_text_lem :
    (fuel : ℕ) (m : Ram) (s : ℕ) (cs : List ℕ)
    → IsBytes m
    → IsText m s (backwards cs [])
    → length cs < fuel
    → (m' : Ram) × (reverse_text fuel m s ≡ some m') × IsText m' s cs
unfolding reverse_text IsText backwards
reverse_text_lem fuel m s [] b t enough = (m, rw (strlen_lem fuel m s [] t enough) refl, t)
reverse_text_lem fuel m s (c ∷ cs) b t enough =
    let n : ℕ = suc (length cs) in
    let (h, end) = IsText-IsBackwards m s (c ∷ cs) [] t in
    let size : length (backwards (c ∷ cs) []) ≡ suc (length cs) =
      omega (arith, length-backwards (c ∷ cs) []) in
    let len = strlen_lem fuel m s (backwards (c ∷ cs) []) t (omega (arith, size)) in
    (
      swap_loop n m s 0 (n - 1),
      rw (len, size) (ground arith),
      mirrored-IsText m (swap_loop n m s 0 (n - 1)) s n s (c ∷ cs)
          (λ x. swap_loop_lem n m s 0 (n - 1) x b (omega arith)) end (omega arith) (omega arith)
          (omega arith) h,
    )
