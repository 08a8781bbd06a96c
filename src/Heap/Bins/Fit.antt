-- ===== src/Heap/Bins/Fit.antt =====
-- The bin of a size, against the sizes of the bins.
use mathlib.Core.Path.{subst}
use native.Mathlib.Nat.{pow-suc, one-le-pow}
use native.Mathlib.Decide.{dec_lt}
use balloon.Base.{
  ℕ, zero, suc, ◌+◌, ◌-◌, ◌*◌, ◌/◌, ◌^◌, ◌≤◌, ◌<◌, ◌≡◌, ◌↔◌, ◌⊎◌, refl, ◌&&◌, ◌||◌, true, Bool,
  arith, bit_and, ltb, leb, ◌==◌, ==_iff, if◌then◌else◌, all_below, all_below_sound,
}
use balloon.Heap.Bins.{big_bin, adjust_bin, bit_length, clz, bin_size}

-- A number of at least 2 ^ k has more than k digits.
bit_length-lt : (fuel k n : ℕ) → k < fuel → 2 ^ k ≤ n → k < bit_length fuel n
unfolding bit_length
bit_length-lt zero k n lt le = elim lt [ ]
bit_length-lt (suc fuel) zero n lt le = ground arith
bit_length-lt (suc fuel) (suc k) n lt le =
    ground (arith, pow-suc 2 k, one-le-pow k 2, bit_length-lt fuel k (n / 2))

bit_length-le : (fuel n : ℕ) → bit_length fuel n ≤ fuel
unfolding bit_length
bit_length-le zero n = omega arith
bit_length-le (suc fuel) n = ground (arith, bit_length-le fuel (n / 2))

adjust_bin_big : (bin : ℕ) → 13 ≤ bin → adjust_bin bin ≡ big_bin
unfolding adjust_bin
adjust_bin_big bin h = ground arith

abbrev fits : ℕ → Bool
fits size =
    ltb (bin_size size) big_bin
    && leb size (4 * 2 ^ bin_size size)
    && (bin_size size == 0 || ltb (2 * 2 ^ bin_size size) size)

fits_table : all_below 2048 (λ n. fits (n + 1)) ≡ true
unfolding bin_size all_below
fits_table = refl

big_table : all_below 2048 (λ n. bin_size (n + 2049) == big_bin) ≡ true
unfolding bin_size all_below
big_table = refl

fits_lem : (size : ℕ) → 0 < size → size ≤ 2048 → fits size ≡ true
fits_lem size pos le =
    let e : size - 1 + 1 ≡ size = omega arith in
    subst (λ n. fits n ≡ true) e
      (all_below_sound 2048 (λ n. fits (n + 1)) (size - 1) fits_table (omega arith))

bin_size_past_page : (size : ℕ) → 0x1000 ≤ size → bin_size size ≡ big_bin
unfolding bin_size clz
bin_size_past_page size h = ground (
  arith,
  bit_length-lt 32 12 size,
  bit_length-le 32 size,
  adjust_bin_big (32 - (32 - bit_length 32 size) + (if bit_and size (size - 1) == 0 then 0 else 1)),
)

pub bin_size_of_large : (size : ℕ) → 2048 < size → bin_size size ≡ big_bin
bin_size_of_large size h = elim (dec_lt size 0x1000) [
  | yes p ↦
      let e : size - 2049 + 2049 ≡ size = omega arith in
      subst (λ n. bin_size n ≡ big_bin) e
        ((==_iff _ big_bin).0 (
          all_below_sound 2048 (λ n. bin_size (n + 2049) == big_bin) (size - 2049) big_table
            (omega arith)))
  | no p ↦ bin_size_past_page size (omega arith)
]

-- A small bin holds cells of 4 * 2 ^ bucket bytes. The bin of a size from 1 to 2048 is small, its
-- cells hold the size, and those of the bin below would not.
pub bin_size_tightest :
    (size : ℕ)
    → 0 < size
    → size ≤ 2048
    → (bin_size size < big_bin)
      × (size ≤ 4 * 2 ^ bin_size size)
      × ((bin_size size ≡ 0) ⊎ (2 * 2 ^ bin_size size < size))
bin_size_tightest size pos le = ground (arith, fits_lem size pos le)

-- Exactly the sizes past 2048 go to the big bin.
pub bin_size_big : (size : ℕ) → 0 < size → (bin_size size ≡ big_bin) ↔ (2048 < size)
bin_size_big size pos = (λ e. ground (arith, bin_size_tightest size pos), bin_size_of_large size)
