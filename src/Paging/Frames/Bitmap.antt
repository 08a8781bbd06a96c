-- ===== src/Paging/Frames/Bitmap.antt =====
-- The bitmap as a function from frames to bits, under set_frame, clear_frame and test_frame.
use balloon.Base.{
  ℕ, ◌*◌, ◌/◌, ◌%◌, ◌^◌, ◌<◌, ◌≡◌, refl, true, arith, bit_and, bit_or, ◌==◌, ==_iff, if◌then◌else◌,
  ◌∙◌, ◌<<◌, not32, all_below, all_below_sound, ltb,
}
use balloon.Base.Bits.{
  bit, bit-lt, bit-bit_or, bit-bit_and, bit-pow, bit-complement, bit_and-pow, bit_or_lt, bit_and-le,
}
use balloon.Ram.Frame.{IsBytes, load32-lt, load32-store32_self, load32-store32_apart}
use balloon.Machine.{Kernel, get, put}
use balloon.Paging.Frames.{frame_word, set_frame, clear_frame, test_frame}

-- The bit of a frame: 1 if the frame is taken.
unfoldable pub frame_bit : Kernel → ℕ → ℕ
frame_bit k f = bit (get k (frame_word k (f / 32))) (f % 32)

pub frame_bit-lt : (k : Kernel) (f : ℕ) → frame_bit k f < 2
unfolding frame_bit
frame_bit-lt k f = bit-lt _ (f % 32)

one_table : all_below 32 (λ j. (1 << j) == 2 ^ j) ≡ true
unfolding all_below
one_table = refl

pub one_bit : (j : ℕ) → j < 32 → (1 << j) ≡ 2 ^ j
one_bit j h = (==_iff _ _).0 (all_below_sound 32 (λ i. (1 << i) == 2 ^ i) j one_table h)

pow_table : all_below 32 (λ j. ltb (2 ^ j) 0x1_0000_0000) ≡ true
unfolding all_below
pow_table = refl

pow_lt : (j : ℕ) → j < 32 → 2 ^ j < 0x1_0000_0000
pow_lt j h = ground (arith, all_below_sound 32 (λ i. ltb (2 ^ i) 0x1_0000_0000) j pow_table h)

-- A store to the word of one frame, seen at any frame.
pub frame_bit-put :
    (k : Kernel) (i v g : ℕ)
    → v < 0x1_0000_0000
    → frame_bit (put k (frame_word k i) v) g
      ≡ (if g / 32 == i then bit v (g % 32) else frame_bit k g)
unfolding frame_bit
frame_bit-put k i v g h = ground (
  arith,
  load32-store32_self k.ram (frame_word k i) v h,
  load32-store32_apart k.ram (frame_word k i) v (frame_word k (g / 32)),
)

module _ (k : Kernel) (bytes : IsBytes k.ram) (addr : ℕ) where
  abbrev f : ℕ
  f = addr / 0x1000

  abbrev word : ℕ
  word = get k (frame_word k (f / 32))

  word_lt : word < 0x1_0000_0000
  word_lt = load32-lt k.ram (frame_word k (f / 32)) bytes

  abbrev mask : ℕ
  mask = 2 ^ (f % 32)

  or_lt : bit_or word mask < 0x1_0000_0000
  or_lt = bit_or_lt 32 word mask word_lt (pow_lt (f % 32) (omega arith))

  and_lt : bit_and word (not32 mask) < 0x1_0000_0000
  and_lt = omega (arith, bit_and-le word (not32 mask), word_lt)

  set_bit :
      (g : ℕ)
      → (if g / 32 == f / 32 then bit (bit_or word mask) (g % 32) else frame_bit k g)
        ≡ (if g == f then 1 else frame_bit k g)
  unfolding frame_bit
  set_bit g =
      ground (arith, bit-bit_or word mask (g % 32), bit-pow (f % 32) (g % 32), bit-lt word (g % 32))

  clear_bit :
      (g : ℕ)
      → (if g / 32 == f / 32 then bit (bit_and word (not32 mask)) (g % 32) else frame_bit k g)
        ≡ (if g == f then 0 else frame_bit k g)
  unfolding frame_bit
  clear_bit g = ground (
    arith,
    bit-bit_and word (not32 mask) (g % 32),
    bit-complement 32 mask (g % 32) (pow_lt (f % 32) (omega arith)) (omega arith),
    bit-pow (f % 32) (g % 32),
    bit-lt word (g % 32),
  )

  -- set_frame takes the frame of an address and changes no other.
  pub frame_bit-set_frame :
      (g : ℕ) → frame_bit (set_frame k addr) g ≡ (if g == addr / 0x1000 then 1 else frame_bit k g)
  unfolding set_frame
  frame_bit-set_frame g =
      rw (one_bit (f % 32) (omega arith))
        (frame_bit-put k (f / 32) (bit_or word mask) g or_lt ∙ set_bit g)

  -- clear_frame gives the frame of an address back and changes no other.
  pub frame_bit-clear_frame :
      (g : ℕ) → frame_bit (clear_frame k addr) g ≡ (if g == addr / 0x1000 then 0 else frame_bit k g)
  unfolding clear_frame
  frame_bit-clear_frame g =
      rw (one_bit (f % 32) (omega arith))
        (frame_bit-put k (f / 32) (bit_and word (not32 mask)) g and_lt ∙ clear_bit g)

  -- test_frame is not 0 exactly if the frame of the address is taken: it is the frame's bit, in
  -- place.
  pub test_frame_lem : test_frame k addr ≡ frame_bit k (addr / 0x1000) * 2 ^ (addr / 0x1000 % 32)
  unfolding test_frame frame_bit
  test_frame_lem = rw (one_bit (f % 32) (omega arith)) (bit_and-pow word (f % 32))
