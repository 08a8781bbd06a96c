-- ===== src/Paging/Tables/Map.antt =====
-- alloc_frame: the entry, and the bitmap.
use mathlib.Core.Path.{subst}
use balloon.Base.{
  ℕ, ◌+◌, ◌*◌, ◌/◌, ◌≤◌, ◌<◌, ◌≡◌, refl, ◌⊎◌, Bool, true, false, some, arith, ◌==◌, if◌then◌else◌,
  ◌∙◌, ap,
}
use balloon.Ram.Frame.{
  IsBytes, load32-lt, load32-store32_self, load32-store32_apart, store32-IsBytes,
}
use balloon.Machine.{Kernel, get, put}
use balloon.Paging.Entry.{field, set_field, present, rw_flag, user, frame, set_page}
use balloon.Paging.Frames.{frame_word, set_frame, first_frame}
use balloon.Paging.Frames.Bitmap.{frame_bit, frame_bit-set_frame}
use balloon.Paging.Frames.Search.{IsFirst, first_frame-IsFirst}
use balloon.Paging.Tables.{flag, fill_page, alloc_frame}

-- The entry lies outside the bitmap.
abbrev pub OutsideBitmap : Kernel → ℕ → Type 0
OutsideBitmap k page = (page + 4 ≤ k.frames) ⊎ (k.frames + 4 * (k.nframes / 32) ≤ page)

-- A store to a page entry leaves the bitmap.
pub frame_bit-put_page :
    (k : Kernel) (page v g : ℕ)
    → OutsideBitmap k page
    → g < k.nframes / 32 * 32
    → frame_bit (put k page v) g ≡ frame_bit k g
unfolding frame_bit
frame_bit-put_page k page v g out lt =
    ground (arith, load32-store32_apart k.ram page v (frame_word k (g / 32)))

-- The word of an entry with its four fields filled in.
abbrev filled : (w writeable for_user idx : ℕ) → ℕ
filled w writeable for_user idx =
    set_field (set_field (set_field (set_field w 0 1 1) 1 1 writeable) 2 1 for_user) 12 20 idx

filled_fields :
    (w a b idx : ℕ)
    → w < 0x1_0000_0000
    → a < 2
    → b < 2
    → idx < 0x10_0000
    → (field (filled w a b idx) 12 20 ≡ idx)
      × (field (filled w a b idx) 0 1 ≡ 1)
      × (field (filled w a b idx) 1 1 ≡ a)
      × (field (filled w a b idx) 2 1 ≡ b)
filled_fields w a b idx hw ha hb hi = omega arith

set_field_lt :
    (w v : ℕ)
    → w < 0x1_0000_0000
    → (set_field w 0 1 v < 0x1_0000_0000)
      × (set_field w 1 1 v < 0x1_0000_0000)
      × (set_field w 2 1 v < 0x1_0000_0000)
      × (set_field w 12 20 v < 0x1_0000_0000)
set_field_lt w v h = omega arith

pub set_page_word :
    (k : Kernel) (page lo width v : ℕ)
    → set_field (get k page) lo width v < 0x1_0000_0000
    → get (set_page k page lo width v) page ≡ set_field (get k page) lo width v
unfolding set_page
set_page_word k page lo width v lt = load32-store32_self k.ram page _ lt

pub set_page_bit :
    (k : Kernel) (page lo width v g : ℕ)
    → OutsideBitmap k page
    → g < k.nframes / 32 * 32
    → frame_bit (set_page k page lo width v) g ≡ frame_bit k g
unfolding set_page
set_page_bit k page lo width v g out lt = frame_bit-put_page k page _ g out lt

set_page_step :
    (k : Kernel) (page lo width v w : ℕ)
    → get k page ≡ w
    → set_field w lo width v < 0x1_0000_0000
    → get (set_page k page lo width v) page ≡ set_field w lo width v
set_page_step k page lo width v w e lt =
    set_page_word k page lo width v (rw e lt) ∙ ap (λ u. set_field u lo width v) e

fill_page_word :
    (k : Kernel) (page idx : ℕ) (is_kernel is_writeable : Bool)
    → get k page < 0x1_0000_0000
    → get (fill_page k page idx is_kernel is_writeable) page
      ≡ filled (get k page) (flag is_writeable) (if is_kernel then 0 else 1) idx
unfolding fill_page
fill_page_word k page idx is_kernel is_writeable lt =
    let w₁ = set_field (get k page) 0 1 1 in
    let w₂ = set_field w₁ 1 1 (flag is_writeable) in
    let w₃ = set_field w₂ 2 1 (if is_kernel then 0 else 1) in
    let lt₁ : w₁ < 0x1_0000_0000 = (set_field_lt (get k page) 1 lt).0 in
    let lt₂ : w₂ < 0x1_0000_0000 = (set_field_lt w₁ (flag is_writeable) lt₁).1 in
    let lt₃ : w₃ < 0x1_0000_0000 = (set_field_lt w₂ (if is_kernel then 0 else 1) lt₂).2 in
    let lt₄ = (set_field_lt w₃ idx lt₃).3 in
    let k₁ = set_page k page 0 1 1 in
    let k₂ = set_page k₁ page 1 1 (flag is_writeable) in
    let k₃ = set_page k₂ page 2 1 (if is_kernel then 0 else 1) in
    let e₁ : get k₁ page ≡ w₁ = set_page_word k page 0 1 1 lt₁ in
    let e₂ : get k₂ page ≡ w₂ = set_page_step k₁ page 1 1 (flag is_writeable) w₁ e₁ lt₂ in
    let e₃ : get k₃ page ≡ w₃ = set_page_step k₂ page 2 1 (if is_kernel then 0 else 1) w₂ e₂ lt₃ in
    set_page_step k₃ page 12 20 idx w₃ e₃ lt₄

fill_page_bit :
    (k : Kernel) (page idx g : ℕ) (is_kernel is_writeable : Bool)
    → OutsideBitmap k page
    → g < k.nframes / 32 * 32
    → frame_bit (fill_page k page idx is_kernel is_writeable) g ≡ frame_bit k g
unfolding fill_page set_page
fill_page_bit k page idx g is_kernel is_writeable out lt =
    frame_bit-put_page _ page _ g out lt
    ∙ frame_bit-put_page _ page _ g out lt
    ∙ frame_bit-put_page _ page _ g out lt
    ∙ frame_bit-put_page k page _ g out lt

pub set_frame-IsBytes : (k : Kernel) (a : ℕ) → IsBytes k.ram → IsBytes (set_frame k a).ram
unfolding set_frame
set_frame-IsBytes k a b = store32-IsBytes k.ram _ _ b

set_frame-OutsideBitmap :
    (k : Kernel) (a page : ℕ) → OutsideBitmap k page → OutsideBitmap (set_frame k a) page
unfolding set_frame
set_frame-OutsideBitmap k a page out = out

set_frame-lt :
    (k : Kernel) (a g : ℕ) → g < k.nframes / 32 * 32 → g < (set_frame k a).nframes / 32 * 32
unfolding set_frame
set_frame-lt k a g lt = lt

set_frame_bit :
    (k : Kernel) (f g : ℕ)
    → IsBytes k.ram
    → frame_bit (set_frame k (f * 0x1000)) g ≡ (if g == f then 1 else frame_bit k g)
set_frame_bit k f g bytes =
    let back : f * 0x1000 / 0x1000 ≡ f = omega arith in
    subst (λ h. frame_bit (set_frame k (f * 0x1000)) g ≡ (if g == h then 1 else frame_bit k g)) back
      (frame_bit-set_frame k bytes (f * 0x1000) g)

flag_lt : (b : Bool) → flag b < 2
flag_lt true = omega arith
flag_lt false = omega arith

pub alloc_frame-fill_page :
    (k : Kernel) (page f : ℕ) (is_kernel is_writeable : Bool)
    → frame k page ≡ 0
    → first_frame k ≡ some f
    → f < 0x10_0000
    → alloc_frame k page is_kernel is_writeable
      ≡ some (fill_page (set_frame k (f * 0x1000)) page f is_kernel is_writeable)
unfolding alloc_frame
alloc_frame-fill_page k page f is_kernel is_writeable unmapped found small =
    let valid : (f == 0xffff_ffff) ≡ false = ground arith in rw (unmapped, found, valid) refl

-- Where the entry holds no frame and first_frame finds one, alloc_frame maps the entry to that
-- frame: it was free, the entry is present with the flags that were asked for, and of the frames
-- of the bitmap only this one is now taken besides those that were. The entry lies outside the
-- bitmap, which covers at most the 2 ^ 20 frames of the address space.
pub alloc_frame_lem :
    (k : Kernel) (page f g : ℕ) (is_kernel is_writeable : Bool)
    → IsBytes k.ram
    → k.nframes ≤ 0x10_0000
    → OutsideBitmap k page
    → frame k page ≡ 0
    → first_frame k ≡ some f
    → g < k.nframes / 32 * 32
    → (k' : Kernel) × (alloc_frame k page is_kernel is_writeable ≡ some k')
      × (frame_bit k f ≡ 0)
      × (frame k' page ≡ f)
      × (present k' page ≡ 1)
      × (rw_flag k' page ≡ flag is_writeable)
      × (user k' page ≡ (if is_kernel then 0 else 1))
      × (frame_bit k' g ≡ (if g == f then 1 else frame_bit k g))
alloc_frame_lem k page f g is_kernel is_writeable bytes few out unmapped found lt =
    let least = subst (IsFirst k 0 (k.nframes / 32 * 32)) found (first_frame-IsFirst k) in
    let small : f < 0x10_0000 = omega (arith, least.1) in
    let k₁ = set_frame k (f * 0x1000) in
    let bytes₁ = set_frame-IsBytes k (f * 0x1000) bytes in
    let word = fill_page_word k₁ page f is_kernel is_writeable (load32-lt k₁.ram page bytes₁) in
    let fields =
      filled_fields (get k₁ page) (flag is_writeable) (if is_kernel then 0 else 1) f
        (load32-lt k₁.ram page bytes₁) (flag_lt is_writeable) (ground arith) small in
    (
      fill_page k₁ page f is_kernel is_writeable,
      alloc_frame-fill_page k page f is_kernel is_writeable unmapped found small,
      least.2,
      ap (λ w. field w 12 20) word ∙ fields.0,
      ap (λ w. field w 0 1) word ∙ fields.1,
      ap (λ w. field w 1 1) word ∙ fields.2,
      ap (λ w. field w 2 1) word ∙ fields.3,
      fill_page_bit k₁ page f g is_kernel is_writeable
            (set_frame-OutsideBitmap k (f * 0x1000) page out) (set_frame-lt k (f * 0x1000) g lt)
          ∙ set_frame_bit k f g bytes,
    )
