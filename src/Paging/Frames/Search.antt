-- ===== src/Paging/Frames/Search.antt =====
-- The search of first_frame.
use balloon.Base.{
  ℕ, zero, suc, ◌+◌, ◌*◌, ◌/◌, ◌%◌, ◌^◌, ◌≤◌, ◌<◌, ◌≡◌, refl, inl, inr, true, false, sym, arith,
  Option, none, some, bit_and, ◌==◌, ==_iff, ◌∙◌, ◌<<◌, all_below, all_below_sound, Bool-cases,
}
use mathlib.Core.Path.{subst}
use native.Mathlib.Decide.{dec_lt}
use native.Mathlib.Nat.{one-le-pow}
use balloon.Base.Bits.{bit, bit_and-pow}
use balloon.Machine.{Kernel, get}
use balloon.Paging.Frames.{frame_word, scan_word, scan_words, first_frame}
use balloon.Paging.Frames.Bitmap.{frame_bit, frame_bit-lt, one_bit}

-- What a search from frame `lo` up to the bound `hi` says: `some f` that `f` is free and all below
-- are taken, `none` that all are taken.
abbrev pub IsFirst : Kernel → (lo hi : ℕ) → Option ℕ → Type 0
IsFirst k lo hi none = (g : ℕ) → lo ≤ g → g < hi → frame_bit k g ≡ 1
IsFirst k lo hi (some f) =
    (lo ≤ f) × (f < hi) × (frame_bit k f ≡ 0) × ((g : ℕ) → lo ≤ g → g < f → frame_bit k g ≡ 1)

-- A taken frame in front widens the search.
IsFirst-extend :
    (k : Kernel) (lo mid hi : ℕ) (r : Option ℕ)
    → ((g : ℕ) → lo ≤ g → g < mid → frame_bit k g ≡ 1)
    → lo ≤ mid
    → IsFirst k mid hi r
    → IsFirst k lo hi r
IsFirst-extend k lo mid hi none taken le h =
    λ g a b. elim (dec_lt g mid) [ yes p ↦ taken g a p | no p ↦ h g (omega arith) b ]
IsFirst-extend k lo mid hi (some f) taken le h = (
  omega arith,
  h.1,
  h.2,
  λ g a b. elim (dec_lt g mid) [ yes p ↦ taken g a p | no p ↦ h.3 g (omega arith) b ],
)

-- The next search goes on where one that found nothing ended.
IsFirst-append :
    (k : Kernel) (lo mid hi : ℕ) (r rest : Option ℕ)
    → lo ≤ mid
    → mid ≤ hi
    → IsFirst k lo mid r
    → IsFirst k mid hi rest
    → IsFirst k lo hi (elim r [ some f ↦ some f | none ↦ rest ])
IsFirst-append k lo mid hi none rest a b h h' = IsFirst-extend k lo mid hi rest h a h'
IsFirst-append k lo mid hi (some f) rest a b h h' = (h.0, omega (arith, h.1), h.2, h.3)

full_table : all_below 32 (λ j. bit 0xffff_ffff j == 1) ≡ true
unfolding all_below bit
full_table = refl

factor_zero : (b p : ℕ) → 1 ≤ p → b * p ≡ 0 → b ≡ 0
factor_zero zero p h e = refl
factor_zero (suc b) p h e = absurd (grind arith)

module _ (k : Kernel) where
  -- The test of the inner loop reads the frame's bit.
  test_lem :
      (i j : ℕ)
      → j < 32
      → bit_and (get k (frame_word k i)) (1 << j) ≡ frame_bit k (i * 32 + j) * 2 ^ j
  unfolding frame_bit
  test_lem i j h =
      let a : (i * 32 + j) / 32 ≡ i = omega arith in
      let b : (i * 32 + j) % 32 ≡ j = omega arith in
      rw (one_bit j h, a, b) (bit_and-pow (get k (frame_word k i)) j)

  taken_bit :
      (i j g : ℕ)
      → j < 32
      → (bit_and (get k (frame_word k i)) (1 << j) == 0) ≡ false
      → g ≡ i * 32 + j
      → frame_bit k g ≡ 1
  taken_bit i j g h t e = rw e (ground (arith, test_lem i j h, frame_bit-lt k (i * 32 + j)))

  scan_word-IsFirst :
      (n i j : ℕ) → j + n ≡ 32 → IsFirst k (i * 32 + j) (i * 32 + 32) (scan_word k i j n)
  unfolding scan_word
  scan_word-IsFirst zero i j e = λ g a b. absurd (omega arith)
  scan_word-IsFirst (suc n) i j e =
      elim (Bool-cases (bit_and (get k (frame_word k i)) (1 << j) == 0)) [
        | inl clear ↦
            let product : frame_bit k (i * 32 + j) * 2 ^ j ≡ 0 =
              sym (test_lem i j (omega arith)) ∙ (==_iff _ _).0 clear in
            let same : i * 4 * 8 + j ≡ i * 32 + j = omega arith in
            rw clear (
              rw same (
                omega arith,
                omega arith,
                factor_zero (frame_bit k (i * 32 + j)) (2 ^ j) (one-le-pow j 2 (omega arith))
                    product,
                λ g a b. absurd (omega arith),
              ))
        | inr taken ↦ rw taken (
            IsFirst-extend k (i * 32 + j) (i * 32 + (j + 1)) (i * 32 + 32) (scan_word k i (j + 1) n)
              (λ g a b. taken_bit i j g (omega arith) taken (omega arith)) (omega arith)
              (scan_word-IsFirst n i (j + 1) (omega arith)))
      ]

  -- The word that the outer loop passes over has no free frame.
  full_word :
      (i g : ℕ)
      → get k (frame_word k i) ≡ 0xffff_ffff
      → i * 32 ≤ g
      → g < i * 32 + 32
      → frame_bit k g ≡ 1
  unfolding frame_bit
  full_word i g h lo hi =
      let at : g / 32 ≡ i = omega arith in
      rw (at, h)
        ((==_iff _ 1).0
          (all_below_sound 32 (λ j. bit 0xffff_ffff j == 1) (g % 32) full_table (omega arith)))

  scan_words-IsFirst : (n i hi : ℕ) → hi ≡ (i + n) * 32 → IsFirst k (i * 32) hi (scan_words k i n)
  unfolding scan_words
  scan_words-IsFirst zero i hi e = λ g a b. absurd (omega arith)
  scan_words-IsFirst (suc n) i hi e =
      let next : i * 32 + 32 ≡ (i + 1) * 32 = omega arith in
      let rest : IsFirst k (i * 32 + 32) hi (scan_words k (i + 1) n) =
        rw next (scan_words-IsFirst n (i + 1) hi (omega arith)) in
      elim (Bool-cases (get k (frame_word k i) == 0xffff_ffff)) [
        | inl full ↦ rw full (
            IsFirst-extend k (i * 32) (i * 32 + 32) hi (scan_words k (i + 1) n)
              (λ g. full_word i g ((==_iff _ _).0 full)) (omega arith) rest)
        | inr free ↦ rw free (
            IsFirst-append k (i * 32) (i * 32 + 32) hi (scan_word k i 0 32) (scan_words k (i + 1) n)
              (omega arith) (omega arith)
              (let start : i * 32 ≡ i * 32 + 0 = omega arith in
                subst (λ a. IsFirst k a (i * 32 + 32) (scan_word k i 0 32)) (sym start)
                  (scan_word-IsFirst 32 i 0 (omega arith)))
              rest)
      ]

-- The least free frame, or `none` exactly if all are taken.
pub first_frame-IsFirst : (k : Kernel) → IsFirst k 0 (k.nframes / 32 * 32) (first_frame k)
unfolding first_frame
first_frame-IsFirst k = scan_words-IsFirst k (k.nframes / 32) 0 (k.nframes / 32 * 32) (omega arith)

IsFirst-unique :
    (k : Kernel) (hi g : ℕ) (r : Option ℕ)
    → IsFirst k 0 hi r
    → g < hi
    → frame_bit k g ≡ 0
    → ((j : ℕ) → j < g → frame_bit k j ≡ 1)
    → r ≡ some g
IsFirst-unique k hi g none h below free taken = absurd (omega (arith, h g (omega arith) below))
IsFirst-unique k hi g (some f) h below free taken = ground (arith, taken f, h.3 g)

IsFirst-none :
    (k : Kernel) (hi : ℕ) (r : Option ℕ)
    → IsFirst k 0 hi r
    → ((j : ℕ) → j < hi → frame_bit k j ≡ 1)
    → r ≡ none
IsFirst-none k hi none h taken = refl
IsFirst-none k hi (some f) h taken = absurd (omega (arith, taken f h.1, h.2))

-- first_frame returns the first free frame of the bitmap, below the bound of its search, which is
-- the whole words of `nframes` bits.
pub first_frame_free :
    (k : Kernel) (g : ℕ)
    → g < k.nframes / 32 * 32
    → frame_bit k g ≡ 0
    → ((j : ℕ) → j < g → frame_bit k j ≡ 1)
    → first_frame k ≡ some g
first_frame_free k g =
    IsFirst-unique k (k.nframes / 32 * 32) g (first_frame k) (first_frame-IsFirst k)

-- If the frames below the bound are all taken, first_frame ends without a return value: the
-- test for -1 in alloc_frame has nothing to test.
pub first_frame_full :
    (k : Kernel) → ((j : ℕ) → j < k.nframes / 32 * 32 → frame_bit k j ≡ 1) → first_frame k ≡ none
first_frame_full k = IsFirst-none k (k.nframes / 32 * 32) (first_frame k) (first_frame-IsFirst k)
