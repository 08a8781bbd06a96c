-- ===== src/Printf/Number.antt =====
-- number() of source/kernel/libc/printf.c: the text of a number, as the list of the characters
-- that it writes. `size` and `precision` are only compared with smaller values and with 0 once
-- they are reduced, so a negative one counts as 0 and the subtraction stops there.
pub mod Value
use balloon.Base.{
  ℕ, zero, suc, ◌+◌, ◌-◌, ◌*◌, ◌/◌, ◌%◌, Bool, true, false, not, ◌&&◌, ◌||◌, Option, none, some,
  List, [], ◌∷◌, ◌++◌, max, length, replicate, leb, ltb, ◌==◌, if◌then◌else◌,
}

-- The bits of `type`.
pub record Flags : Type 0 where
  pub zeropad : Bool
  pub sign : Bool
  pub plus : Bool
  pub space : Bool
  pub left : Bool
  pub special : Bool
  pub small : Bool

abbrev pub no_flags : Flags
no_flags = record {
  zeropad = false;
  sign = false;
  plus = false;
  space = false;
  left = false;
  special = false;
  small = false;
}

-- digits[d], for the table that SMALL chooses
abbrev pub digit : Bool → ℕ → ℕ
digit small d = if ltb d 10 then b'0' + d else (if small then b'a' else b'A') + (d - 10)

-- while (num != 0) tmp[i++] = digits[do_div(num, base)];  `tmp` has the newest digit first, which
-- is the order in which it is printed. A 32-bit word has no more than 32 digits.
unfoldable pub digits_loop : (rounds : ℕ) → Bool → (base num : ℕ) → (tmp : List ℕ) → List ℕ
digits_loop zero small base num tmp = tmp
digits_loop (suc rounds) small base num tmp =
    if num == 0
    then tmp
    else digits_loop rounds small base (num / base) (digit small (num % base) ∷ tmp)

unfoldable pub digits_of : Bool → (base num : ℕ) → List ℕ
digits_of small base num = if num == 0 then b'0' ∷ [] else digits_loop 32 small base num []

-- `num` is negative as an int.
abbrev pub negative : Flags → (num : ℕ) → Bool
negative f num = f.sign && leb 0x8000_0000 num

-- num = -num, at 32 bits
abbrev pub magnitude : Flags → (num : ℕ) → ℕ
magnitude f num = if negative f num then 0x1_0000_0000 - num else num

abbrev pub sign_text : Flags → (num : ℕ) → List ℕ
sign_text f num =
    if negative f num
    then b'-' ∷ []
    else if f.plus
    then b'+' ∷ []
    else if f.space
    then b' ' ∷ []
    else []

abbrev pub prefix_text : Flags → (base : ℕ) → List ℕ
prefix_text f base =
    if f.special && base == 8
    then b'0' ∷ []
    else if f.special && base == 16
    then b'0' ∷ digit f.small 33 ∷ []
    else []

-- The loops that write the text. Each of those for the width counts `size` down, so the next one
-- finds nothing left of what it wrote. `body` is the zeros of the precision and the digits.
unfoldable pub place_text :
    (zeropad left : Bool) → (size : ℕ) → (sign before body : List ℕ) → List ℕ
place_text zeropad left size sign before body =
    let lead = if zeropad || left then 0 else size in
    let fill = if left then 0 else size - lead in
    replicate lead b' '
    ++ (sign
        ++ (before
            ++ (replicate fill (if zeropad then b'0' else b' ')
                ++ (body ++ replicate (size - lead - fill) b' '))))

-- `none` is the null pointer, for a base that has no digits.
unfoldable pub number : (num base size precision : ℕ) → Flags → Option (List ℕ)
number num base size precision f =
    let tmp = digits_of f.small base (magnitude f num) in
    let sign = sign_text f num in
    let before = prefix_text f base in
    let precision' = max precision (length tmp) in
    if ltb base 2 || ltb 36 base
    then none
    else some (
        place_text (f.zeropad && not f.left) f.left
          (size - length sign - length before - precision') sign before
          (replicate (precision' - length tmp) b'0' ++ tmp))
