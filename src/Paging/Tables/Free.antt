-- ===== src/Paging/Tables/Free.antt =====
-- free_frame: the entry, and the bitmap.
use balloon.Base.{ℕ, ◌*◌, ◌/◌, ◌<◌, ◌≡◌, refl, arith, ◌==◌, if◌then◌else◌, ◌∙◌, ap, false}
use balloon.Ram.Frame.{IsBytes, load32-lt, store32-IsBytes}
use balloon.Machine.{Kernel, get}
use balloon.Paging.Entry.{field, set_field, frame, set_page}
use balloon.Paging.Frames.{clear_frame}
use balloon.Paging.Frames.Bitmap.{frame_bit, frame_bit-clear_frame}
use balloon.Paging.Tables.{free_frame}
use balloon.Paging.Tables.Map.{OutsideBitmap, set_page_word, set_page_bit}

cleared_lt :
    (w : ℕ)
    → w < 0x1_0000_0000
    → (set_field w 12 20 0 < 0x1_0000_0000) × (field (set_field w 12 20 0) 12 20 ≡ 0)
cleared_lt w h = omega arith

clear_frame-IsBytes : (k : Kernel) (a : ℕ) → IsBytes k.ram → IsBytes (clear_frame k a).ram
unfolding clear_frame
clear_frame-IsBytes k a b = store32-IsBytes k.ram _ _ b

clear_frame-OutsideBitmap :
    (k : Kernel) (a page : ℕ) → OutsideBitmap k page → OutsideBitmap (clear_frame k a) page
unfolding clear_frame
clear_frame-OutsideBitmap k a page out = out

clear_frame-lt :
    (k : Kernel) (a g : ℕ) → g < k.nframes / 32 * 32 → g < (clear_frame k a).nframes / 32 * 32
unfolding clear_frame
clear_frame-lt k a g lt = lt

free_frame-mapped :
    (k : Kernel) (page : ℕ)
    → 0 < frame k page
    → free_frame k page ≡ set_page (clear_frame k (frame k page)) page 12 20 0
unfolding free_frame
free_frame-mapped k page mapped =
    let nonzero : (frame k page == 0) ≡ false = ground arith in rw nonzero refl

-- free_frame of an entry with a frame leaves the entry without one. It hands clear_frame the
-- frame's number where clear_frame takes an address, so the bit that it clears is that of frame
-- number / 4096.
pub free_frame_lem :
    (k : Kernel) (page g : ℕ)
    → IsBytes k.ram
    → OutsideBitmap k page
    → 0 < frame k page
    → g < k.nframes / 32 * 32
    → (frame (free_frame k page) page ≡ 0)
      × (frame_bit (free_frame k page) g
          ≡ (if g == frame k page / 0x1000 then 0 else frame_bit k g))
free_frame_lem k page g bytes out mapped lt =
    let k₁ = clear_frame k (frame k page) in
    let lt₁ =
      cleared_lt (get k₁ page)
        (load32-lt k₁.ram page (clear_frame-IsBytes k (frame k page) bytes)) in
    rw (free_frame-mapped k page mapped) (
      ap (λ w. field w 12 20) (set_page_word k₁ page 12 20 0 lt₁.0) ∙ lt₁.1,
      set_page_bit k₁ page 12 20 0 g (clear_frame-OutsideBitmap k (frame k page) page out)
            (clear_frame-lt k (frame k page) g lt)
          ∙ frame_bit-clear_frame k bytes (frame k page) g,
    )

-- free_frame of an entry with a frame of the bitmap leaves that frame's bit as it was, so a taken
-- frame stays taken.
pub free_frame_leaks :
    (k : Kernel) (page : ℕ)
    → IsBytes k.ram
    → OutsideBitmap k page
    → 0 < frame k page
    → frame k page < k.nframes / 32 * 32
    → frame_bit (free_frame k page) (frame k page) ≡ frame_bit k (frame k page)
free_frame_leaks k page bytes out mapped lt =
    let e = (free_frame_lem k page (frame k page) bytes out mapped lt).1 in
    let other : (frame k page == frame k page / 0x1000) ≡ false = ground arith in rw other at e
