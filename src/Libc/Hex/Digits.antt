-- ===== src/Libc/Hex/Digits.antt =====
-- What i2hex writes.
use native.Mathlib.Nat.{div-div-eq-div-mul, pow-suc}
use balloon.Base.{
  ℕ, zero, suc, ◌+◌, ◌-◌, ◌*◌, ◌/◌, ◌%◌, ◌^◌, ◌≤◌, ◌<◌, ◌≡◌, ◌≢◌, refl, ◌⊎◌, inl, inr, Bool, true,
  false, ◌&&◌, bit_and, ltb, ◌==◌, if◌then◌else◌, ◌>>◌, arith, ◌∙◌, ap, sym, Bool-cases,
}
use balloon.Base.Bits.{bit_and_low}
use balloon.Ram.Access.{Ram, store8}
use balloon.Libc.Hex.{hex_char, hex_loop, i2hex}

-- the number that the digits of `val` above the last `place` ones write
abbrev pub above : (val place : ℕ) → ℕ
above val place = val / 2 ^ (4 * place)

above-suc : (val place : ℕ) → above val (suc place) ≡ above val place / 16
above-suc val place =
    let weight : 2 ^ (4 * suc place) ≡ 2 ^ (4 * place) * 16 =
      (let p = 4 * place in
        let e : 4 * suc place ≡ suc (suc (suc (suc p))) = omega arith in
        ap (λ n. 2 ^ n) e
        ∙ omega (
          arith,
          pow-suc 2 p,
          pow-suc 2 (suc p),
          pow-suc 2 (suc (suc p)),
          pow-suc 2 (suc (suc (suc p))),
        )) in
    ap (λ w. val / w) weight ∙ sym (div-div-eq-div-mul val (2 ^ (4 * place)) 16)

-- The byte for a place: a digit, or what stood there where only zeros stand before and at it.
abbrev pub hex_byte : (val place old : ℕ) → ℕ
hex_byte val place old = if above val place == 0 then old else hex_char (above val place % 16)

hex_char-lt : (tmp : ℕ) → tmp < 16 → hex_char tmp < 256
unfolding hex_char
hex_char-lt tmp h = ground arith

module _ (val dest : ℕ) where
  loop_lem :
      (m : Ram) (j left : ℕ) (no_zeroes : Bool)
      → no_zeroes ≡ (above val (suc left) == 0)
      → ((hex_loop m val dest j left no_zeroes).1 ≡ j + left)
        × ((d : ℕ)
            → d < left
            → (hex_loop m val dest j left no_zeroes).0 (dest + (j + d))
              ≡ hex_byte val (left - d) (m (dest + (j + d))))
        × ((x : ℕ)
            → (x < dest + j) ⊎ (dest + (j + left) ≤ x)
            → (hex_loop m val dest j left no_zeroes).0 x ≡ m x)
  unfolding hex_loop store8
  loop_lem m j zero no_zeroes h = (omega arith, λ d lt. absurd (omega arith), λ x out. refl)
  loop_lem m j (suc left) no_zeroes h =
      let tmp = bit_and (val >> (4 * suc left)) 0xf in
      let blank = (tmp == 0) && no_zeroes in
      let m₁ = if blank then m else store8 m (dest + j) (hex_char tmp) in
      let digit : tmp ≡ above val (suc left) % 16 = bit_and_low 4 (above val (suc left)) in
      let nothing : blank ≡ (above val (suc left) == 0) =
        ground (arith, digit, h, above-suc val (suc left)) in
      let stored_here : m₁ (dest + j) ≡ hex_byte val (suc left) (m (dest + j)) =
        ground (arith, nothing, digit, hex_char-lt tmp) in
      let stored_apart : (x : ℕ) → x ≢ dest + j → m₁ x ≡ m x = λ x apart. ground arith in
      let run = (hex_loop m₁ val dest (j + 1) left (if blank then no_zeroes else false)).0 in
      let (end, inside, outside) =
        loop_lem m₁ (j + 1) left (if blank then no_zeroes else false) (ground (arith, nothing)) in
      (
        end ∙ omega arith,
        λ d lt. elim (Bool-cases (d == 0)) [
          | inl here ↦
              let e : d ≡ 0 = ground arith in
              let place : dest + (j + d) ≡ dest + j = omega arith in
              let whole : suc left ≡ suc left - d = omega arith in
              ap run place
              ∙ outside (dest + j) (inl (omega arith))
              ∙ stored_here
              ∙ (λ i. hex_byte val (whole i) (m (sym place i)))
          | inr later ↦
              let pos : 0 < d = ground arith in
              let place : dest + (j + 1 + (d - 1)) ≡ dest + (j + d) = omega arith in
              let left_eq : left - (d - 1) ≡ suc left - d = omega arith in
              let old : m₁ (dest + (j + d)) ≡ m (dest + (j + d)) =
                stored_apart (dest + (j + d)) (omega arith) in
              ap run (sym place)
              ∙ inside (d - 1) (omega arith)
              ∙ (λ i. hex_byte val (left_eq i) (m₁ (place i)))
              ∙ ap (λ a. hex_byte val (suc left - d) a) old
        ],
        λ x out. outside x (omega (arith, out)) ∙ stored_apart x (omega (arith, out)),
      )

-- "0123456789abcdef"
abbrev pub hex_digit : ℕ → ℕ
hex_digit d = if ltb d 10 then b'0' + d else b'a' + (d - 10)

hex_char_lem : (d : ℕ) → hex_char d ≡ hex_digit d
unfolding hex_char
hex_char_lem d = ground arith

-- i2hex writes the hexadecimal digits of a 32-bit number to the last of eight bytes, right-aligned, in
-- small letters.
-- The bytes where a leading zero would stand keep their contents, as does the memory around, and
-- no terminating 0 is written.
pub i2hex_lem :
    (m : Ram) (val dest : ℕ)
    → val < 0x1_0000_0000
    → ((j : ℕ)
        → j < 8
        → i2hex m val dest (dest + j) ≡ (
            if ltb j 7 && (val / 2 ^ (4 * (7 - j)) == 0)
            then m (dest + j)
            else hex_digit (val / 2 ^ (4 * (7 - j)) % 16)))
      × ((x : ℕ) → (x < dest) ⊎ (dest + 8 ≤ x) → i2hex m val dest x ≡ m x)
unfolding i2hex store8
i2hex_lem m val dest h =
    let (end, inside, outside) = loop_lem val dest m 0 7 true (ground arith) in
    let unit : bit_and val 0xf ≡ val % 16 = bit_and_low 4 val in
    (
      λ j lt. elim (Bool-cases (ltb j 7)) [
        | inl high ↦ ground (arith, end, inside j, hex_char_lem (val / 2 ^ (4 * (7 - j)) % 16))
        | inr last_place ↦
            ground (arith, end, unit, hex_char-lt (val % 16), hex_char_lem (val % 16))
      ],
      λ x out. ground (arith, end, outside x),
    )
