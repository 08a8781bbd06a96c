-- ===== src/Printf/Format.antt =====
-- vsprintf() and kprintf() of source/kernel/libc/printf.c. The format is the list of its
-- characters before the NUL. The arguments are the words that va_arg takes, by their number.
-- What is written to `buf` is a list; `buf` overlaps no memory that the arguments point to. A field
-- width or a precision of -1 is `none`, and another negative one counts as 0.
pub mod Ends
pub mod Laws
use balloon.Base.{
  ℕ, zero, suc, ◌+◌, ◌-◌, ◌*◌, ◌&&◌, ◌||◌, true, Option, none, some, List, [], ◌∷◌, ◌++◌, min,
  length, replicate, leb, ◌==◌, if◌then◌else◌, not, u8, u32, Bool,
}
use balloon.Ram.Access.{Ram, store32}
use balloon.Libc.Strings.{strlen}
use balloon.Heap.Skip.{◌>>=◌}
use balloon.Printf.Number.{Flags, no_flags, number}

pub record Writer : Type 0 where
  pub text : List ℕ
  pub arg : ℕ
  pub ram : Ram

abbrev pub emit : List ℕ → Writer → Writer
emit cs w = record w { text = w.text ++ cs }

abbrev pub next_arg : Writer → Writer
next_arg w = record w { arg = w.arg + 1 }

abbrev pub is_digit : ℕ → Bool
is_digit c = leb b'0' c && leb c b'9'

-- `i` is an int, at 32 bits.
unfoldable pub skip_atoi : (i : ℕ) → List ℕ → ℕ × List ℕ
skip_atoi i [] = (i, [])
skip_atoi i (c ∷ fmt) = if is_digit c then skip_atoi (u32 (i * 10 + c - b'0')) fmt else (i, c ∷ fmt)

abbrev pub is_flag : ℕ → Bool
is_flag c = c == b'-' || c == b'+' || c == b' ' || c == b'#' || c == b'0'

abbrev pub set_flag : ℕ → Flags → Flags
set_flag c f =
    if c == b'-'
    then record f { left = true }
    else if c == b'+'
    then record f { plus = true }
    else if c == b' '
    then record f { space = true }
    else if c == b'#'
    then record f { special = true }
    else record f { zeropad = true }

-- The label `repeat`, from the character behind the `%` on.
unfoldable pub read_flags : Flags → List ℕ → Flags × List ℕ
read_flags f [] = (f, [])
read_flags f (c ∷ fmt) = if is_flag c then read_flags (set_flag c f) fmt else (f, c ∷ fmt)

-- A field width that was read as digits: -1 is none, and another negative one writes nothing, as 0.
abbrev pub int_width : ℕ → Option ℕ
int_width n = if n == 0xffff_ffff then none else (if leb 0x8000_0000 n then some 0 else some n)

-- `args` gives a word; one from 2 ^ 31 on is a negative int, and the negation of -2 ^ 31 overflows.
-- The source stays on the `*`, here and in the precision.
unfoldable pub read_width :
    (args : ℕ → ℕ) → Flags → Writer → List ℕ → Option ℕ × Flags × Writer × List ℕ
read_width args f w [] = (none, f, w, [])
read_width args f w (c ∷ fmt) =
    let (n, rest) = skip_atoi 0 (c ∷ fmt) in
    if is_digit c
    then (int_width n, f, w, rest)
    else if c == b'*'
    then (if leb 0x8000_0000 (args w.arg)
        then (some (0x1_0000_0000 - args w.arg), record f { left = true }, next_arg w, c ∷ fmt)
        else (some (args w.arg), f, next_arg w, c ∷ fmt))
    else (none, f, w, c ∷ fmt)

-- The precision behind the `.`
unfoldable pub read_digits : (args : ℕ → ℕ) → Writer → List ℕ → ℕ × Writer × List ℕ
read_digits args w [] = (0, w, [])
read_digits args w (c ∷ fmt) =
    let (n, rest) = skip_atoi 0 (c ∷ fmt) in
    if is_digit c
    then ((if leb 0x8000_0000 n then 0 else n), w, rest)
    else if c == b'*'
    then ((if leb 0x8000_0000 (args w.arg) then 0 else args w.arg), next_arg w, c ∷ fmt)
    else (0, w, c ∷ fmt)

unfoldable pub read_precision : (args : ℕ → ℕ) → Writer → List ℕ → Option ℕ × Writer × List ℕ
read_precision args w [] = (none, w, [])
read_precision args w (c ∷ fmt) =
    let (n, w', rest) = read_digits args w fmt in
    if c == b'.' then (some n, w', rest) else (none, w, c ∷ fmt)

unfoldable pub skip_qualifier : List ℕ → List ℕ
skip_qualifier [] = []
skip_qualifier (c ∷ fmt) = if c == b'h' || c == b'l' || c == b'L' then fmt else c ∷ fmt

abbrev pub or_zero : Option ℕ → ℕ
or_zero none = 0
or_zero (some n) = n

-- The bases are 2, 8, 10 and 16, so number() returns no null pointer here.
unfoldable pub write_number :
    (args : ℕ → ℕ) (base : ℕ) → Flags → (width precision : Option ℕ) → Writer → Writer
write_number args base f width precision w =
    elim (number (args w.arg) base (or_zero width) (or_zero precision) f) [
      | some text ↦ emit text (next_arg w)
      | none ↦ next_arg w
    ]

unfoldable pub write_char : (args : ℕ → ℕ) → Flags → (width : Option ℕ) → Writer → Writer
write_char args f width w =
    let spaces = replicate (or_zero width - 1) b' ' in
    let c = u8 (args w.arg) ∷ [] in emit (if f.left then c ++ spaces else spaces ++ c) (next_arg w)

unfoldable pub read_text : Ram → (s len : ℕ) → List ℕ
read_text m s zero = []
read_text m s (suc len) = m s ∷ read_text m (s + 1) len

-- `none`: strlen finds no NUL with its fuel.
unfoldable pub write_string :
    (limit : ℕ) (args : ℕ → ℕ) → Flags → (width precision : Option ℕ) → Writer → Option Writer
write_string limit args f width precision w = strlen limit w.ram (args w.arg) >>= λ n.
    let len : ℕ = elim precision [ none ↦ n | some p ↦ min n p ] in
    let spaces = replicate (or_zero width - len) b' ' in
    let cs = read_text w.ram (args w.arg) len in
    some (emit (if f.left then cs ++ spaces else spaces ++ cs) (next_arg w))

-- The switch on the conversion character.
unfoldable pub convert :
    (limit : ℕ) (args : ℕ → ℕ) (c : ℕ)
    → Flags
    → (width precision : Option ℕ) → Writer
    → Option Writer
convert limit args c f width precision w =
    if c == b'c'
    then some (write_char args f width w)
    else if c == b's'
    then write_string limit args f width precision w
    else if c == b'o'
    then some (write_number args 8 f width precision w)
    else if c == b'p'
    then some (elim width [
      | none ↦ write_number args 16 (record f { zeropad = true }) (some 8) precision w
      | some n ↦ write_number args 16 f (some n) precision w
    ])
    else if c == b'x'
    then some (write_number args 16 (record f { small = true }) width precision w)
    else if c == b'X'
    then some (write_number args 16 f width precision w)
    else if c == b'd' || c == b'i'
    then some (write_number args 10 (record f { sign = true }) width precision w)
    else if c == b'u'
    then some (write_number args 10 f width precision w)
    else if c == b'b'
    then some (write_number args 2 f width precision w)
    else if c == b'n'
    then some (record w { ram = store32 w.ram (args w.arg) (length w.text); arg = w.arg + 1 })
    else some (emit (if c == b'%' then c ∷ [] else b'%' ∷ c ∷ []) w)

-- At the end of the format the switch falls to its default, which steps back to the NUL.
unfoldable pub convert_next :
    (limit : ℕ) (args : ℕ → ℕ)
    → Flags
    → (width precision : Option ℕ) → Writer
    → List ℕ
    → Option (Writer × List ℕ)
convert_next limit args f width precision w [] = some (emit (b'%' ∷ []) w, [])
convert_next limit args f width precision w (c ∷ fmt) =
    convert limit args c f width precision w >>= λ w'. some (w', fmt)

-- A directive, from the character behind its `%` on.
unfoldable pub directive : (limit : ℕ) (args : ℕ → ℕ) → Writer → List ℕ → Option (Writer × List ℕ)
directive limit args w fmt =
    let (f, fmt₁) = read_flags no_flags fmt in
    let (width, f', w₁, fmt₂) = read_width args f w fmt₁ in
    let (precision, w₂, fmt₃) = read_precision args w₁ fmt₂ in
    convert_next limit args f' width precision w₂ (skip_qualifier fmt₃)

pub data Outcome : Type 0 where
  done : Writer → Outcome
  unterminated : Outcome
  out_of_fuel : Outcome

-- The loop over the format.
unfoldable pub format : (fuel limit : ℕ) (args : ℕ → ℕ) → Writer → List ℕ → Outcome
format zero limit args w fmt = out_of_fuel
format (suc fuel) limit args w [] = done w
format (suc fuel) limit args w (c ∷ fmt) =
    let plain = format fuel limit args (emit (c ∷ []) w) fmt in
    let special : Outcome = elim (directive limit args w fmt) [
      | none ↦ unterminated
      | some (w', rest) ↦ format fuel limit args w' rest
    ] in
    if c == b'%' then special else plain

-- What vsprintf leaves before the NUL, which it writes last; it returns the length of this text.
unfoldable pub vsprintf : (limit : ℕ) → Ram → (fmt : List ℕ) → (args : ℕ → ℕ) → Outcome
vsprintf limit m fmt args =
    format (length fmt + 1) limit args (record { text = []; arg = 0; ram = m }) fmt
