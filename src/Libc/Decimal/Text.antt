-- ===== src/Libc/Decimal/Text.antt =====
-- What itoa writes: the text that printf.c gives a number.
use mathlib.Core.List.{append-nil}
use native.Mathlib.Nat.{pow-suc}
use balloon.Base.{
  ℕ, zero, suc, ◌+◌, ◌-◌, ◌/◌, ◌%◌, ◌^◌, ◌≤◌, ◌<◌, ◌≡◌, ◌≢◌, refl, ◌∙◌, ap, true, false, List, [],
  ◌∷◌, ◌++◌, some, length, leb, ltb, max, arith, Bool-cases, inl, inr, ◌==◌, if◌then◌else◌,
}
use balloon.Ram.Access.{Ram, store8}
use balloon.Ram.Frame.{IsBytes, store8-IsBytes}
use balloon.Libc.Strings.Text.{IsText}
use balloon.Libc.Decimal.{next_digit, itoa_loop, itoa, reverse_text}
use balloon.Libc.Decimal.Reverse.{IsBackwards, IsBackwards-IsText, reverse_text_lem}
use balloon.Printf.Number.{
  Flags, no_flags, digit, digits_loop, digits_of, number, magnitude, sign_text,
}
use balloon.Printf.Number.Value.{fewer_digits, place_text_lem}

-- A store behind the text leaves it.
store8-IsBackwards :
    (m : Ram) (s a v : ℕ) (cs : List ℕ)
    → s + length cs ≤ a
    → IsBackwards m s cs
    → IsBackwards (store8 m a v) s cs
unfolding IsBackwards store8
store8-IsBackwards m s a v [] h b = record {}
store8-IsBackwards m s a v (c ∷ cs) h (here, char, b) =
    (ground arith, char, store8-IsBackwards m s a v cs (omega arith) b)

-- One more character in front of the others.
push_digit :
    (m : Ram) (s v : ℕ) (cs : List ℕ)
    → 0 < v
    → v < 0x100
    → IsBackwards m s cs
    → IsBackwards (store8 m (s + length cs) v) s (v ∷ cs)
unfolding IsBackwards store8
push_digit m s v cs h lt b =
    (ground arith, ground arith, store8-IsBackwards m s (s + length cs) v cs (omega arith) b)

-- What itoa_loop leaves.
abbrev Holds : (left : Ram × ℕ) → (s : ℕ) → (cs : List ℕ) → Type 0
Holds (m, i) s cs = IsBytes m × IsBackwards m s cs × (i ≡ length cs)

itoa_loop-digit :
    (rounds : ℕ) (m : Ram) (s i n : ℕ)
    → n < 0x8000_0000
    → itoa_loop (suc rounds) m s i n ≡ (
        if n / 10 == 0
        then (store8 m (s + i) (b'0' + n % 10), i + 1)
        else itoa_loop rounds (store8 m (s + i) (b'0' + n % 10)) s (i + 1) (n / 10))
unfolding itoa_loop
itoa_loop-digit rounds m s i n word =
    let char : next_digit n ≡ b'0' + n % 10 = ground arith in rw char (ground arith)

digits_loop-digit :
    (r n : ℕ) (tmp : List ℕ)
    → 0 < n
    → digits_loop (suc r) false 10 n tmp ≡ digits_loop r false 10 (n / 10) ((b'0' + n % 10) ∷ tmp)
unfolding digits_loop
digits_loop-digit r n tmp more =
    let char : digit false (n % 10) ≡ b'0' + n % 10 = ground arith in
    let some_left : (n == 0) ≡ false = ground arith in rw (some_left, char) refl

digits_loop-zero : (r : ℕ) (tmp : List ℕ) → digits_loop r false 10 0 tmp ≡ tmp
unfolding digits_loop
digits_loop-zero zero tmp = refl
digits_loop-zero (suc r) tmp = refl

push_char :
    (m : Ram) (s i c : ℕ) (tmp : List ℕ)
    → 0 < c
    → c < 0x100
    → Holds (m, i) s tmp
    → Holds (store8 m (s + i) c, i + 1) s (c ∷ tmp)
push_char m s i c tmp some_char byte (b, h, at) =
    (store8-IsBytes m (s + i) c b, rw at (push_digit m s c tmp some_char byte h), omega arith)

itoa_loop_lem :
    (rounds r : ℕ) (m : Ram) (s i n : ℕ) (tmp : List ℕ)
    → n < 0x8000_0000
    → 0 < n
    → n < 10 ^ rounds
    → n < 2 ^ r
    → Holds (m, i) s tmp
    → Holds (itoa_loop rounds m s i n) s (digits_loop r false 10 n tmp)
itoa_loop_lem zero r m s i n tmp word more lt lt' h = ground arith
itoa_loop_lem (suc rounds) zero m s i n tmp word more lt lt' h = ground arith
itoa_loop_lem (suc rounds) (suc r) m s i n tmp word more lt lt' h =
    let here = push_char m s i (b'0' + n % 10) tmp (omega arith) (omega arith) h in
    rw (itoa_loop-digit rounds m s i n word, digits_loop-digit r n tmp more)
      (elim (Bool-cases (n / 10 == 0)) [
        | inl done ↦
            let nothing : n / 10 ≡ 0 = ground arith in
            rw (done, nothing, digits_loop-zero r ((b'0' + n % 10) ∷ tmp)) here
        | inr again ↦ rw again (
            itoa_loop_lem rounds r (store8 m (s + i) (b'0' + n % 10)) s (i + 1) (n / 10)
              ((b'0' + n % 10) ∷ tmp) (omega arith) (ground arith)
              (omega (arith, pow-suc 10 rounds))
              (fewer_digits n 10 (2 ^ r) (omega arith) (omega (arith, pow-suc 2 r))) here)
      ])

-- The loop leaves the digits that number() gives.
itoa_loop_digits :
    (m : Ram) (s n : ℕ)
    → IsBytes m
    → n < 0x8000_0000
    → Holds (itoa_loop 10 m s 0 n) s (digits_of false 10 n)
unfolding digits_of IsBackwards
itoa_loop_digits m s n b word = elim (Bool-cases (n == 0)) [
  | inl none ↦
      let is_zero : n ≡ 0 = ground arith in
      rw (none, is_zero, itoa_loop-digit 9 m s 0 0 (omega arith))
        (push_char m s 0 b'0' [] (omega arith) (omega arith) (b, record {}, refl))
  | inr more ↦ rw more (
      itoa_loop_lem 10 32 m s 0 n [] word (ground arith) (omega arith) (omega arith)
        (b, record {}, refl))
]

itoa_loop-le : (rounds : ℕ) (m : Ram) (s i n : ℕ) → (itoa_loop rounds m s i n).1 ≤ i + rounds
unfolding itoa_loop
itoa_loop-le zero m s i n = omega arith
itoa_loop-le (suc rounds) m s i n =
    let m' = store8 m (s + i) (next_digit n) in
    ground (arith, itoa_loop-le rounds m' s (i + 1) (n / 10))

stored_end : (m : Ram) (a p : ℕ) → p ≡ a → IsText (store8 m a 0) p []
unfolding IsText store8
stored_end m a p same = ground arith

-- The end of itoa: the terminating 0 and the call of reverse.
close-IsText :
    (m : Ram) (s i : ℕ) (cs : List ℕ)
    → length cs < 12
    → Holds (m, i) s cs
    → (m' : Ram) × (reverse_text 12 (store8 m (s + i) 0) s ≡ some m') × IsText m' s cs
close-IsText m s i cs fits (b, h, at) =
    reverse_text_lem 12 (store8 m (s + i) 0) s cs (store8-IsBytes m (s + i) 0 b)
      (IsBackwards-IsText (store8 m (s + i) 0) s cs []
        (store8-IsBackwards m s (s + i) 0 cs (omega arith) h)
        (stored_end m (s + i) (s + length cs) (omega arith)))
      fits

-- "%d"
abbrev signed : Flags
signed = record no_flags { sign = true }

number_plain :
    (n : ℕ)
    → number n 10 0 0 signed ≡ some (sign_text signed n ++ digits_of false 10 (magnitude signed n))
unfolding number
number_plain n =
    let tmp = digits_of false 10 (magnitude signed n) in
    let room : 0 - length (sign_text signed n) - 0 - max 0 (length tmp) ≡ 0 = omega arith in
    let zeros : max 0 (length tmp) - length tmp ≡ 0 = omega arith in
    rw (room, zeros, place_text_lem false false 0 (sign_text signed n) [] tmp)
      (ap (λ cs. some (sign_text signed n ++ cs)) (append-nil tmp))

-- itoa writes the characters that number() of printf.c gives the same int in base 10, for every
-- int but -2 ^ 31.
pub itoa_lem :
    (m : Ram) (n s : ℕ)
    → IsBytes m
    → n < 0x1_0000_0000
    → n ≢ 0x8000_0000
    → (m' : Ram) × (text : List ℕ) × (itoa m n s ≡ some m')
      × IsText m' s text
      × (number n 10 0 0 (record no_flags { sign = true }) ≡ some text)
unfolding itoa
itoa_lem m n s b word min =
    let f : Flags = record no_flags { sign = true } in
    elim (Bool-cases (leb 0x8000_0000 n)) [
      | inl minus ↦
          let n' : ℕ = 0x1_0000_0000 - n in
          let loop = itoa_loop 10 m s 0 n' in
          let digits = digits_of false 10 n' in
          let (b', h, at) = itoa_loop_digits m s n' b (ground arith) in
          let few = itoa_loop-le 10 m s 0 n' in
          let shown =
            push_char loop.0 s loop.1 b'-' digits (omega arith) (omega arith) (b', h, at) in
          let (m', run, text) =
            close-IsText (store8 loop.0 (s + loop.1) b'-') s (loop.1 + 1) (b'-' ∷ digits)
              (omega arith) shown in
          let below : ltb 0x8000_0000 n ≡ true = ground arith in
          (m', b'-' ∷ digits, rw (minus, below) run, text, number_plain n ∙ rw minus refl)
      | inr plus ↦
          let loop = itoa_loop 10 m s 0 n in
          let digits = digits_of false 10 n in
          let (b', h, at) = itoa_loop_digits m s n b (ground arith) in
          let few = itoa_loop-le 10 m s 0 n in
          let (m', run, text) = close-IsText loop.0 s loop.1 digits (omega arith) (b', h, at) in
          let below : ltb 0x8000_0000 n ≡ false = ground arith in
          (m', digits, rw (plus, below) run, text, number_plain n ∙ rw plus refl)
    ]

-- The negation of -2 ^ 31 overflows: itoa writes "-(" for it.
pub itoa_lowest :
    (m : Ram) (s : ℕ)
    → IsBytes m
    → (m' : Ram) × (itoa m 0x8000_0000 s ≡ some m') × IsText m' s (b'-' ∷ b'(' ∷ [])
unfolding itoa itoa_loop IsBackwards
itoa_lowest m s b =
    close-IsText (store8 (store8 m (s + 0) b'(') (s + 1) b'-') s 2 (b'-' ∷ b'(' ∷ []) (omega arith)
      (push_char (store8 m (s + 0) b'(') s 1 b'-' (b'(' ∷ []) (omega arith) (omega arith)
        (push_char m s 0 b'(' [] (omega arith) (omega arith) (b, record {}, refl)))
