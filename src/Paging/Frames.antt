-- ===== src/Paging/Frames.antt =====
-- The bitmap of physical frames: one bit for each 4 KB of memory, set if the frame is taken.
pub mod Bitmap
pub mod Search
use balloon.Base.{
  ℕ, zero, suc, ◌+◌, ◌*◌, ◌/◌, ◌%◌, Option, none, some, bit_and, bit_or, not, ◌==◌, if◌then◌else◌,
  ◌<<◌, not32,
}
use balloon.Machine.{Kernel, get, put}

-- INDEX_FROM_BIT and OFFSET_FROM_BIT
abbrev pub index_from_bit : ℕ → ℕ
index_from_bit a = a / (8 * 4)

abbrev pub offset_from_bit : ℕ → ℕ
offset_from_bit a = a % (8 * 4)

-- &frames[idx]
abbrev pub frame_word : Kernel → ℕ → ℕ
frame_word k idx = k.frames + 4 * idx

unfoldable pub set_frame : Kernel → (frame_addr : ℕ) → Kernel
set_frame k frame_addr =
    let frame = frame_addr / 0x1000 in
    let idx = index_from_bit frame in
    let off = offset_from_bit frame in
    put k (frame_word k idx) (bit_or (get k (frame_word k idx)) (1 << off))

unfoldable pub clear_frame : Kernel → (frame_addr : ℕ) → Kernel
clear_frame k frame_addr =
    let frame = frame_addr / 0x1000 in
    let idx = index_from_bit frame in
    let off = offset_from_bit frame in
    put k (frame_word k idx) (bit_and (get k (frame_word k idx)) (not32 (1 << off)))

unfoldable pub test_frame : Kernel → (frame_addr : ℕ) → ℕ
test_frame k frame_addr =
    let frame = frame_addr / 0x1000 in
    let idx = index_from_bit frame in
    let off = offset_from_bit frame in bit_and (get k (frame_word k idx)) (1 << off)

-- for (; j < j + n; j++) of first_frame, at the word `i`
unfoldable pub scan_word : Kernel → (i j n : ℕ) → Option ℕ
scan_word k i j zero = none
scan_word k i j (suc n) =
    let rest = scan_word k i (j + 1) n in
    if bit_and (get k (frame_word k i)) (1 << j) == 0 then some (i * 4 * 8 + j) else rest

-- for (; i < i + n; i++) of first_frame
unfoldable pub scan_words : Kernel → (i n : ℕ) → Option ℕ
scan_words k i zero = none
scan_words k i (suc n) =
    let rest = scan_words k (i + 1) n in
    if not (get k (frame_word k i) == 0xffff_ffff)
    then elim (scan_word k i 0 32) [ some f ↦ some f | none ↦ rest ]
    else rest

-- `none`: the end of the function is reached, which returns no value.
unfoldable pub first_frame : Kernel → Option ℕ
first_frame k = scan_words k 0 (index_from_bit k.nframes)
