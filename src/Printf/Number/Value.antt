-- ===== src/Printf/Number/Value.antt =====
-- What the characters of a printed number stand for, and how many there are.
use mathlib.Core.List.{append_assoc}
use native.Mathlib.Nat.{pow-suc, div-lt_iff_lt-mul, mod-lt, div-add-mod', le_trans, mul-le-mul_left}
use balloon.Base.{
  ℕ, zero, suc, ◌+◌, ◌-◌, ◌*◌, ◌/◌, ◌%◌, ◌^◌, ◌≤◌, ◌<◌, ◌≡◌, refl, ◌∙◌, ap, Bool-cases, inl, inr,
  Bool, true, false, not, ◌&&◌, ◌||◌, some, List, [], ◌∷◌, ◌++◌, max, length, replicate,
  length-append, length-replicate, ltb, ◌==◌, if◌then◌else◌, arith,
}
use balloon.Printf.Number.{
  Flags, digit, digits_loop, digits_of, place_text, magnitude, sign_text, prefix_text, number,
}

-- The value of a digit, for either case of the letters.
abbrev pub digit_value : ℕ → ℕ
digit_value c = if ltb c b'A' then c - b'0' else if ltb c b'a' then c - b'A' + 10 else c - b'a' + 10

digit_value-digit : (small : Bool) (d : ℕ) → d < 36 → digit_value (digit small d) ≡ d
digit_value-digit true d h = ground arith
digit_value-digit false d h = ground arith

-- Digits read from the left, with `acc` in front of them.
unfoldable pub value_from : (base acc : ℕ) → List ℕ → ℕ
value_from base acc [] = acc
value_from base acc (c ∷ cs) = value_from base (acc * base + digit_value c) cs

unfoldable pub value : (base : ℕ) → List ℕ → ℕ
unfolding value_from
value base cs = value_from base 0 cs

pub fewer_digits : (num base bound : ℕ) → 2 ≤ base → num < bound * 2 → num / base < bound
fewer_digits num base bound h lt =
    (div-lt_iff_lt-mul {k = base} {x = num} {y = bound} (omega arith)).1
      (le_trans lt (mul-le-mul_left bound h))

-- What the loop leaves in front of `tmp` is the number.
value-digits_loop :
    (rounds : ℕ) (small : Bool) (base num : ℕ) (tmp : List ℕ)
    → 2 ≤ base
    → base ≤ 36
    → num < 2 ^ rounds
    → value base (digits_loop rounds small base num tmp) ≡ value_from base num tmp
unfolding digits_loop value value_from
value-digits_loop zero small base num tmp h h' lt =
    let none_left : num ≡ 0 = omega arith in rw none_left refl
value-digits_loop (suc rounds) small base num tmp h h' lt = elim (Bool-cases (num == 0)) [
  | inl done ↦ let none_left : num ≡ 0 = ground arith in rw (done, none_left) refl
  | inr more ↦
      let below : num % base < base = mod-lt num (omega arith) in
      let last : digit_value (digit small (num % base)) ≡ num % base =
        digit_value-digit small (num % base) (omega arith) in
      let bound : num < 2 ^ rounds * 2 = omega (arith, pow-suc 2 rounds) in
      let whole : num / base * base + num % base ≡ num = div-add-mod' num base in
      let rest =
        value-digits_loop rounds small base (num / base) (digit small (num % base) ∷ tmp) h h'
          (fewer_digits num base (2 ^ rounds) h bound) in
      rw more (
        rest
        ∙ ap (λ d. value_from base (num / base * base + d) tmp) last
        ∙ ap (λ n. value_from base n tmp) whole)
]

-- The digits of a word stand for it.
pub value-digits_of :
    (small : Bool) (base num : ℕ)
    → 2 ≤ base
    → base ≤ 36
    → num < 0x1_0000_0000
    → value base (digits_of small base num) ≡ num
unfolding digits_of value value_from
value-digits_of small base num h h' lt = elim (Bool-cases (num == 0)) [
  | inl done ↦ rw done (ground arith)
  | inr more ↦ rw more (value-digits_loop 32 small base num [] h h' lt)
]

-- The zeros that fill the width stand right in front of those of the precision.
pub place_text_lem :
    (zeropad left : Bool) (size : ℕ) (sign before body : List ℕ)
    → place_text (zeropad && not left) left size sign before body
      ≡ replicate (if zeropad || left then 0 else size) b' '
        ++ (sign
            ++ (before
                ++ ((replicate (if zeropad && not left then size else 0) b'0' ++ body)
                    ++ replicate (if left then size else 0) b' ')))
unfolding place_text
place_text_lem true true size sign before body =
    let all : size - 0 - 0 ≡ size = omega arith in rw all refl
place_text_lem false true size sign before body =
    let all : size - 0 - 0 ≡ size = omega arith in rw all refl
place_text_lem true false size sign before body =
    let all : size - 0 ≡ size = omega arith in
    let nothing : size - size ≡ 0 = omega arith in rw (all, nothing) (simp append_assoc)
place_text_lem false false size sign before body =
    let nothing : size - size ≡ 0 = omega arith in rw nothing refl

length-place_text :
    (zeropad left : Bool) (size : ℕ) (sign before body : List ℕ)
    → length (place_text (zeropad && not left) left size sign before body)
      ≡ size + length sign + length before + length body
unfolding place_text
length-place_text true true size sign before body =
    rw (place_text_lem true true size sign before body)
      (simp (length-append, length-replicate) (omega arith))
length-place_text true false size sign before body =
    rw (place_text_lem true false size sign before body)
      (simp (length-append, length-replicate) (omega arith))
length-place_text false true size sign before body =
    rw (place_text_lem false true size sign before body)
      (simp (length-append, length-replicate) (omega arith))
length-place_text false false size sign before body =
    rw (place_text_lem false false size sign before body)
      (simp (length-append, length-replicate) (omega arith))

length-after : (n : ℕ) (cs : List ℕ) → length (replicate n b'0' ++ cs) ≡ n + length cs
length-after n cs = simp (length-append, length-replicate)

-- The sign in front of a word, where a signed one stands for an int of 32 bits.
abbrev pub sign_of : Flags → (num : ℕ) → List ℕ
sign_of f num =
    if f.sign && ltb 0x7fff_ffff num
    then b'-' ∷ []
    else if f.plus
    then b'+' ∷ []
    else if f.space
    then b' ' ∷ []
    else []

-- 0 in front of an octal number, 0x or 0X in front of a hexadecimal one.
abbrev pub prefix_of : Flags → (base : ℕ) → List ℕ
prefix_of f base =
    if not f.special
    then []
    else if base == 8
    then b'0' ∷ []
    else if base == 16
    then b'0' ∷ (if f.small then b'x' else b'X') ∷ []
    else []

abbrev pub absolute : Flags → (num : ℕ) → ℕ
absolute f num = if f.sign && ltb 0x7fff_ffff num then 0x1_0000_0000 - num else num

-- The text has as many characters as its sign, its prefix and its digits, and fills the width.
pub length-number :
    (num base size precision : ℕ) (f : Flags)
    → 2 ≤ base
    → base ≤ 36
    → (text : List ℕ) × (number num base size precision f ≡ some text)
      × (length text
          ≡ max size (
              length (sign_text f num)
              + length (prefix_text f base)
              + max precision (length (digits_of f.small base (magnitude f num)))))
unfolding number
length-number num base size precision f h h' =
    let tmp = digits_of f.small base (magnitude f num) in
    let room =
      size - length (sign_text f num) - length (prefix_text f base) - max precision (length tmp) in
    let body = replicate (max precision (length tmp) - length tmp) b'0' ++ tmp in
    let valid : (ltb base 2 || ltb 36 base) ≡ false = ground arith in
    (
      place_text (f.zeropad && not f.left) f.left room (sign_text f num) (prefix_text f base) body,
      rw valid refl,
      omega (
        arith,
        length-place_text f.zeropad f.left room (sign_text f num) (prefix_text f base) body,
        length-after (max precision (length tmp) - length tmp) tmp,
      ),
    )
