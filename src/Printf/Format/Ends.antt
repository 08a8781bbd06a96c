-- ===== src/Printf/Format/Ends.antt =====
-- Each directive takes something of the format, so the loop over it ends.
use balloon.Base.{
  u32, ℕ, zero, suc, ◌+◌, ◌-◌, ◌*◌, ◌≤◌, ◌<◌, ◌≢◌, List, [], ◌∷◌, Option, none, some, length, arith,
  ◌==◌, inl, inr, Bool-cases,
}
use balloon.Ram.Access.{Ram}
use balloon.Heap.Skip.{◌>>=◌}
use balloon.Printf.Number.{Flags, no_flags}
use balloon.Printf.Format.{
  Writer, unterminated, out_of_fuel, emit, is_flag, set_flag, is_digit, skip_atoi, read_flags,
  read_width, read_digits, read_precision, skip_qualifier, convert, convert_next, directive, format,
  vsprintf,
}

skip_atoi-le : (i : ℕ) (fmt : List ℕ) → length (skip_atoi i fmt).1 ≤ length fmt
unfolding skip_atoi
skip_atoi-le i [] = omega arith
skip_atoi-le i (c ∷ fmt) = elim (Bool-cases (is_digit c)) [
  | inl more ↦ rw more (omega (arith, skip_atoi-le (u32 (i * 10 + c - b'0')) fmt))
  | inr last ↦ rw last (omega arith)
]

read_flags-le : (f : Flags) (fmt : List ℕ) → length (read_flags f fmt).1 ≤ length fmt
unfolding read_flags
read_flags-le f [] = omega arith
read_flags-le f (c ∷ fmt) = elim (Bool-cases (is_flag c)) [
  | inl more ↦ rw more (omega (arith, read_flags-le (set_flag c f) fmt))
  | inr last ↦ rw last (omega arith)
]

read_width-le :
    (args : ℕ → ℕ) (f : Flags) (w : Writer) (fmt : List ℕ)
    → length (read_width args f w fmt).3 ≤ length fmt
unfolding read_width
read_width-le args f w [] = omega arith
read_width-le args f w (c ∷ fmt) = ground (arith, skip_atoi-le 0 (c ∷ fmt))

read_digits-le :
    (args : ℕ → ℕ) (w : Writer) (fmt : List ℕ) → length (read_digits args w fmt).2 ≤ length fmt
unfolding read_digits
read_digits-le args w [] = omega arith
read_digits-le args w (c ∷ fmt) = ground (arith, skip_atoi-le 0 (c ∷ fmt))

read_precision-le :
    (args : ℕ → ℕ) (w : Writer) (fmt : List ℕ) → length (read_precision args w fmt).2 ≤ length fmt
unfolding read_precision
read_precision-le args w [] = omega arith
read_precision-le args w (c ∷ fmt) = ground (arith, read_digits-le args w fmt)

skip_qualifier-le : (fmt : List ℕ) → length (skip_qualifier fmt) ≤ length fmt
unfolding skip_qualifier
skip_qualifier-le [] = omega arith
skip_qualifier-le (c ∷ fmt) = ground arith

-- What is left behind a directive, where there is anything.
abbrev rest_of : List ℕ → Option (Writer × List ℕ) → List ℕ
rest_of fmt none = fmt
rest_of fmt (some (w, rest)) = rest

convert_next-le :
    (limit : ℕ) (args : ℕ → ℕ) (f : Flags) (width precision : Option ℕ) (w : Writer) (fmt : List ℕ)
    → length (rest_of fmt (convert_next limit args f width precision w fmt)) ≤ length fmt
unfolding convert_next
convert_next-le limit args f width precision w [] = omega arith
convert_next-le limit args f width precision w (c ∷ fmt) =
    after (convert limit args c f width precision w)
  where
    after :
        (r : Option Writer)
        → length (rest_of (c ∷ fmt) (r >>= λ w'. some (w', fmt))) ≤ suc (length fmt)
    after none = omega arith
    after (some w') = omega arith

rest_of_mono :
    (short long : List ℕ) (r : Option (Writer × List ℕ))
    → length (rest_of short r) ≤ length short
    → length short ≤ length long
    → length (rest_of long r) ≤ length long
rest_of_mono short long none h le = omega arith
rest_of_mono short long (some (w, rest)) h le = omega arith

directive-le :
    (limit : ℕ) (args : ℕ → ℕ) (w : Writer) (fmt : List ℕ)
    → length (rest_of fmt (directive limit args w fmt)) ≤ length fmt
unfolding directive
directive-le limit args w fmt =
    let (f, fmt₁) = read_flags no_flags fmt in
    let (width, f', w₁, fmt₂) = read_width args f w fmt₁ in
    let (precision, w₂, fmt₃) = read_precision args w₁ fmt₂ in
    rest_of_mono (skip_qualifier fmt₃) fmt
      (convert_next limit args f' width precision w₂ (skip_qualifier fmt₃))
      (convert_next-le limit args f' width precision w₂ (skip_qualifier fmt₃))
      (omega (
        arith,
        read_flags-le no_flags fmt,
        read_width-le args f w fmt₁,
        read_precision-le args w₁ fmt₂,
        skip_qualifier-le fmt₃,
      ))

-- The round of a directive, if the loop ends on what is left.
after_directive :
    (fuel limit : ℕ) (args : ℕ → ℕ) (fmt : List ℕ) (r : Option (Writer × List ℕ))
    → ((w : Writer) (rest : List ℕ)
        → length rest < fuel
        → format fuel limit args w rest ≢ out_of_fuel)
    → length fmt < fuel
    → length (rest_of fmt r) ≤ length fmt
    → (elim r [ none ↦ unterminated | some (w', rest) ↦ format fuel limit args w' rest ])
      ≢ out_of_fuel
after_directive fuel limit args fmt none ih lt le = ground arith
after_directive fuel limit args fmt (some (w', rest)) ih lt le = ih w' rest (omega arith)

format_ends :
    (fuel limit : ℕ) (args : ℕ → ℕ) (w : Writer) (fmt : List ℕ)
    → length fmt < fuel
    → format fuel limit args w fmt ≢ out_of_fuel
unfolding format
format_ends zero limit args w fmt lt = elim lt [ ]
format_ends (suc fuel) limit args w [] lt = ground arith
format_ends (suc fuel) limit args w (c ∷ fmt) lt = elim (Bool-cases (c == b'%')) [
  | inl special ↦ rw special (
      after_directive fuel limit args fmt (directive limit args w fmt) (format_ends fuel limit args)
        (omega arith) (directive-le limit args w fmt))
  | inr plain ↦ rw plain (format_ends fuel limit args (emit (c ∷ []) w) fmt (omega arith))
]

-- The loop of vsprintf ends on every format: it needs no more rounds than this has characters.
pub vsprintf_ends :
    (limit : ℕ) (m : Ram) (fmt : List ℕ) (args : ℕ → ℕ) → vsprintf limit m fmt args ≢ out_of_fuel
unfolding vsprintf
vsprintf_ends limit m fmt args = format_ends (length fmt + 1) limit args _ fmt (omega arith)
