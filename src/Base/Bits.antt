-- ===== src/Base/Bits.antt =====
-- Laws of `&` and `|` at variables: one binary digit at a time, single bits, and masks.
use Prim.Native.Nat.{
  ℕ, zero, suc, ◌+◌, ◌-◌, ◌*◌, ◌/◌, ◌%◌, ◌^◌, ◌≤◌, ◌<◌, min, max, bit_and, bit_or, digits, bitwise,
  bit_and-bitwise, bit_or-bitwise,
}
use mathlib.Core.Path.{◌≡◌, refl, ap}
use mathlib.Core.WellFounded
use native.Mathlib.Nat.{le_refl, pow-suc, one-le-pow}
use native.Mathlib.Omega.{arith}
use balloon.Base.Order.{lt_wf}
use balloon.Base.Tests.{◌==◌, if◌then◌else◌}

-- The library says what `&` and `|` are by `digits`, which takes the first operand as its fuel.
-- `rest` is what is left of the second operand where the first is 0.
module _ (rest : ℕ → ℕ) (op : ℕ → ℕ → ℕ) where
  any_fuel : (a b s t : ℕ) → a ≤ s → a ≤ t → digits rest op s a b ≡ digits rest op t a b
  any_fuel zero b zero zero h h' = refl
  any_fuel zero b zero (suc t) h h' = refl
  any_fuel zero b (suc s) zero h h' = refl
  any_fuel zero b (suc s) (suc t) h h' = refl
  any_fuel (suc a) b zero t h h' = elim h [ ]
  any_fuel (suc a) b (suc s) zero h h' = elim h' [ ]
  any_fuel (suc a) b (suc s) (suc t) h h' =
      let halves = any_fuel (suc a / 2) (b / 2) s t (omega arith) (omega arith) in rw halves

  lowest_digit :
      (a b : ℕ)
      → bitwise rest op (suc a) b ≡ op (suc a % 2) (b % 2) + 2 * bitwise rest op (suc a / 2) (b / 2)
  lowest_digit a b =
      let half : ℕ = suc a / 2 in
      omega (arith, any_fuel half (b / 2) a half (omega arith) (le_refl half))

pub bit_or_step : (x y : ℕ) → bit_or x y ≡ max (x % 2) (y % 2) + 2 * bit_or (x / 2) (y / 2)
bit_or_step zero y = simp bit_or-bitwise (omega arith)
bit_or_step (suc x) y = simp bit_or-bitwise (lowest_digit (λ d. d) max x y)

pub bit_and_step : (x y : ℕ) → bit_and x y ≡ min (x % 2) (y % 2) + 2 * bit_and (x / 2) (y / 2)
bit_and_step zero y = simp bit_and-bitwise (omega arith)
bit_and_step (suc x) y = simp bit_and-bitwise (lowest_digit (λ _. 0) min x y)

-- The binary digit of weight `2 ^ k`.
unfoldable pub bit : ℕ → ℕ → ℕ
bit a zero = a % 2
bit a (suc k) = bit (a / 2) k

pub bit-lt : (a k : ℕ) → bit a k < 2
unfolding bit
bit-lt a zero = omega arith
bit-lt a (suc k) = bit-lt (a / 2) k

pub bit-bit_or : (a b k : ℕ) → bit (bit_or a b) k ≡ max (bit a k) (bit b k)
unfolding bit
bit-bit_or a b zero = omega (arith, bit_or_step a b)
bit-bit_or a b (suc k) =
    let half : bit_or a b / 2 ≡ bit_or (a / 2) (b / 2) = omega (arith, bit_or_step a b) in
    rw half (bit-bit_or (a / 2) (b / 2) k)

pub bit-bit_and : (a b k : ℕ) → bit (bit_and a b) k ≡ min (bit a k) (bit b k)
unfolding bit
bit-bit_and a b zero = omega (arith, bit_and_step a b)
bit-bit_and a b (suc k) =
    let half : bit_and a b / 2 ≡ bit_and (a / 2) (b / 2) = omega (arith, bit_and_step a b) in
    rw half (bit-bit_and (a / 2) (b / 2) k)

pub bit-zero : (k : ℕ) → bit 0 k ≡ 0
unfolding bit
bit-zero zero = refl
bit-zero (suc k) = bit-zero k

pub bit-pow : (j k : ℕ) → bit (2 ^ j) k ≡ (if j == k then 1 else 0)
unfolding bit
bit-pow zero zero = refl
bit-pow zero (suc k) = ground (arith, bit-zero k)
bit-pow (suc j) zero = ground (arith, pow-suc 2 j)
bit-pow (suc j) (suc k) =
    let half : 2 ^ suc j / 2 ≡ 2 ^ j = omega (arith, pow-suc 2 j) in
    rw half (ground (arith, bit-pow j k))

-- the complement within `w` bits
pub bit-complement : (w a k : ℕ) → a < 2 ^ w → k < w → bit (2 ^ w - 1 - a) k ≡ 1 - bit a k
unfolding bit
bit-complement zero a k h lt = elim lt [ ]
bit-complement (suc w) a zero h lt = omega (arith, pow-suc 2 w)
bit-complement (suc w) a (suc k) h lt =
    let half : (2 ^ suc w - 1 - a) / 2 ≡ 2 ^ w - 1 - a / 2 = omega (arith, pow-suc 2 w) in
    rw half (bit-complement w (a / 2) k (omega (arith, pow-suc 2 w)) (omega arith))

-- Half of a number that is not 0 is smaller, so an induction on the digits is well founded.
by_halves : (C : ℕ → Type 0) → C 0 → ((n : ℕ) → C (suc n / 2) → C (suc n)) → (x : ℕ) → C x
by_halves C base half x = WellFounded.induction lt_wf {C = C} x step
  where
    step : (n : ℕ) → ((m : ℕ) → m < n → C m) → C n
    step zero smaller = base
    step (suc n) smaller = half n (smaller (suc n / 2) (omega arith))

pub bit_and-zero : (x : ℕ) → bit_and x 0 ≡ 0
bit_and-zero =
    by_halves (λ x. bit_and x 0 ≡ 0) refl (λ n half. omega (arith, bit_and_step (suc n) 0, half))

-- Masking by one bit reads that bit.
pub bit_and-pow : (a j : ℕ) → bit_and a (2 ^ j) ≡ bit a j * 2 ^ j
unfolding bit
bit_and-pow a zero = omega (arith, bit_and_step a 1, bit_and-zero (a / 2))
bit_and-pow a (suc j) = ground (
  arith,
  bit_and_step a (2 ^ suc j),
  pow-suc 2 j,
  ap (λ (t : ℕ). bit (a / 2) j * t) (pow-suc 2 j),
  bit_and-pow (a / 2) j,
)

-- the weight of a field one digit further on
twice_weight : (v k : ℕ) → v * 2 ^ suc k ≡ v * 2 ^ k * 2
twice_weight v k =
    let weight : 2 ^ suc k ≡ 2 ^ k * 2 = omega (arith, pow-suc 2 k) in
    omega (arith, ap (λ (w : ℕ). v * w) weight)

bit_and_low_field : (k high low : ℕ) → low < 2 ^ k → bit_and (high * 2 ^ k + low) (2 ^ k - 1) ≡ low
bit_and_low_field zero high low small = rw bit_and-zero (omega arith)
bit_and_low_field (suc k) high low small =
    let halves = bit_and_low_field k high (low / 2) (omega arith) in
    ground (
      arith,
      pow-suc 2 k,
      twice_weight high k,
      halves,
      bit_and_step (high * 2 ^ suc k + low) (2 ^ suc k - 1),
    )

-- A mask of the `k` low bits is the remainder by `2 ^ k`.
pub bit_and_low : (k a : ℕ) → bit_and a (2 ^ k - 1) ≡ a % 2 ^ k
bit_and_low k a = ground (arith, one-le-pow k 2, bit_and_low_field k (a / 2 ^ k) (a % 2 ^ k))

bit_and_high_field :
    (k q r m : ℕ) → r < 2 ^ k → bit_and (q * 2 ^ k + r) (m * 2 ^ k) ≡ bit_and q m * 2 ^ k
bit_and_high_field zero q r m fits =
    let a : q * 1 + r ≡ q = omega arith in
    let b : m * 1 ≡ m = omega arith in rw (a, b) (omega arith)
bit_and_high_field (suc k) q r m fits = ground (
  arith,
  bit_and_step (q * 2 ^ suc k + r) (m * 2 ^ suc k),
  twice_weight q k,
  twice_weight m k,
  twice_weight (bit_and q m) k,
  pow-suc 2 k,
  bit_and_high_field k q (r / 2) m (omega arith),
)

-- A mask whose `k` low bits are clear keeps the bits above and clears those below.
pub bit_and_high : (k a m : ℕ) → bit_and a (m * 2 ^ k) ≡ bit_and (a / 2 ^ k) m * 2 ^ k
bit_and_high k a m = ground (arith, one-le-pow k 2, bit_and_high_field k (a / 2 ^ k) (a % 2 ^ k) m)

bit_or-zero : (x : ℕ) → bit_or x 0 ≡ x
bit_or-zero =
    by_halves (λ x. bit_or x 0 ≡ x) refl (λ n half. omega (arith, bit_or_step (suc n) 0, half))

-- `|` of two values with no common place is their sum.
pub bit_or_fields : (k high low : ℕ) → low < 2 ^ k → bit_or (high * 2 ^ k) low ≡ high * 2 ^ k + low
bit_or_fields zero high low small = ground (arith, bit_or-zero high)
bit_or_fields (suc k) high low small =
    let halves = bit_or_fields k high (low / 2) (omega arith) in
    ground (arith, twice_weight high k, halves, bit_or_step (high * 2 ^ suc k) low)

-- Neither operation leaves the width of its operands.
pub bit_or_lt : (w a b : ℕ) → a < 2 ^ w → b < 2 ^ w → bit_or a b < 2 ^ w
bit_or_lt zero a b ha hb =
    let a0 : a ≡ 0 = omega arith in let b0 : b ≡ 0 = omega arith in rw (a0, b0) (omega arith)
bit_or_lt (suc w) a b ha hb = omega (
  arith,
  pow-suc 2 w,
  bit_or_step a b,
  bit_or_lt w (a / 2) (b / 2) (omega (arith, pow-suc 2 w)) (omega (arith, pow-suc 2 w)),
)

pub bit_and-le : (a b : ℕ) → bit_and a b ≤ a
bit_and-le =
    by_halves (λ a. (b : ℕ) → bit_and a b ≤ a) (λ b. omega (arith, bit_and-bitwise 0 b))
      (λ n half b. omega (arith, bit_and_step (suc n) b, half (b / 2)))

pub bit_or_comm : (a b : ℕ) → bit_or a b ≡ bit_or b a
bit_or_comm =
    by_halves (λ a. (b : ℕ) → bit_or a b ≡ bit_or b a)
      (λ b. omega (arith, bit_or-bitwise 0 b, bit_or-zero b))
      (λ n half b. omega (arith, bit_or_step (suc n) b, bit_or_step b (suc n), half (b / 2)))
