-- ===== src/Paging/Tables/Distinct.antt =====
-- Two calls of alloc_frame, one after the other.
use mathlib.Core.Path.{subst}
use balloon.Base.{
  ℕ, ◌*◌, ◌/◌, ◌≤◌, ◌≡◌, ◌≢◌, sym, ap, ◌∙◌, Bool, Option, none, some, arith, ◌==◌, if◌then◌else◌,
}
use balloon.Ram.Frame.{IsBytes, store32-IsBytes}
use balloon.Machine.{Kernel}
use balloon.Paging.Entry.{frame, set_page}
use balloon.Paging.Frames.{set_frame, first_frame}
use balloon.Paging.Frames.Bitmap.{frame_bit}
use balloon.Paging.Frames.Search.{IsFirst, first_frame-IsFirst}
use balloon.Paging.Tables.{fill_page, alloc_frame}
use balloon.Paging.Tables.Map.{
  OutsideBitmap, alloc_frame_lem, alloc_frame-fill_page, set_frame-IsBytes,
}

same_state : (k k' : Kernel) → some k ≡ some k' → k ≡ k'
same_state k k' e = ap (λ (o : Option Kernel). elim o [ none ↦ k | some s ↦ s ]) e

set_page-IsBytes :
    (k : Kernel) (page lo width v : ℕ) → IsBytes k.ram → IsBytes (set_page k page lo width v).ram
unfolding set_page
set_page-IsBytes k page lo width v h = store32-IsBytes k.ram page _ h

fill_page-IsBytes :
    (k : Kernel) (page idx : ℕ) (is_kernel is_writeable : Bool)
    → IsBytes k.ram
    → IsBytes (fill_page k page idx is_kernel is_writeable).ram
unfolding fill_page
fill_page-IsBytes k page idx is_kernel is_writeable h = set_page-IsBytes _ page 12 20 idx (
    set_page-IsBytes _ page 2 1 _ (set_page-IsBytes _ page 1 1 _ (set_page-IsBytes k page 0 1 1 h)))

-- What the second call needs of the state that the first one leaves.
after_alloc :
    (k : Kernel) (page page' f : ℕ) (is_kernel is_writeable : Bool)
    → IsBytes k.ram
    → k.nframes ≤ 0x10_0000
    → OutsideBitmap k page'
    → (let k' = fill_page (set_frame k (f * 0x1000)) page f is_kernel is_writeable in
        IsBytes k'.ram × (k'.nframes ≤ 0x10_0000) × OutsideBitmap k' page')
unfolding fill_page set_page set_frame
after_alloc k page page' f is_kernel is_writeable bytes few out = (
  fill_page-IsBytes (set_frame k (f * 0x1000)) page f is_kernel is_writeable
      (set_frame-IsBytes k (f * 0x1000) bytes),
  few,
  out,
)

-- The entry holds the frame, the frame is taken, and the next call finds what it needs.
first_call :
    (k k' : Kernel) (page page' f : ℕ) (is_kernel is_writeable : Bool)
    → IsBytes k.ram
    → k.nframes ≤ 0x10_0000
    → OutsideBitmap k page
    → OutsideBitmap k page'
    → frame k page ≡ 0
    → first_frame k ≡ some f
    → alloc_frame k page is_kernel is_writeable ≡ some k'
    → (frame k' page ≡ f)
      × (frame_bit k' f ≡ 1)
      × (frame_bit k f ≡ 0)
      × (IsBytes k'.ram × (k'.nframes ≤ 0x10_0000) × OutsideBitmap k' page')
first_call k k' page page' f is_kernel is_writeable bytes few out out' unmapped found done =
    let least = subst (IsFirst k 0 (k.nframes / 32 * 32)) found (first_frame-IsFirst k) in
    let r =
      alloc_frame_lem k page f f is_kernel is_writeable bytes few out unmapped found least.1 in
    let e : r.0 ≡ k' = same_state r.0 k' (sym r.1 ∙ done) in
    let filled =
      alloc_frame-fill_page k page f is_kernel is_writeable unmapped found
        (omega (arith, least.1)) in
    let e' = same_state _ k' (sym filled ∙ done) in
    let taken : (if f == f then 1 else frame_bit k f) ≡ 1 = ground arith in
    (
      subst (λ s. frame s page ≡ f) e r.3,
      subst (λ s. frame_bit s f ≡ 1) e (r.7 ∙ taken),
      r.2,
      subst (λ (s : Kernel). IsBytes s.ram × (s.nframes ≤ 0x10_0000) × OutsideBitmap s page') e'
          (after_alloc k page page' f is_kernel is_writeable bytes few out'),
    )

-- Two calls of alloc_frame for entries that hold no frame map them to different frames. Both
-- entries lie outside the bitmap, which has a free frame for each call.
pub alloc_frame_distinct :
    (k k' k'' : Kernel) (page page' f f' : ℕ) (is_kernel is_writeable : Bool)
    → IsBytes k.ram
    → k.nframes ≤ 0x10_0000
    → OutsideBitmap k page
    → OutsideBitmap k page'
    → frame k page ≡ 0
    → first_frame k ≡ some f
    → alloc_frame k page is_kernel is_writeable ≡ some k'
    → frame k' page' ≡ 0
    → first_frame k' ≡ some f'
    → alloc_frame k' page' is_kernel is_writeable ≡ some k''
    → frame k'' page' ≢ frame k' page
alloc_frame_distinct k k' k'' page page' f f' is_kernel is_writeable bytes few out out' unmapped
      found first unmapped' found' second =
    let (entry, taken, free, (bytes', few', outside')) =
      first_call k k' page page' f is_kernel is_writeable bytes few out out' unmapped found first in
    let (entry', taken', free', rest) =
      first_call k' k'' page' page' f' is_kernel is_writeable bytes' few' outside' outside'
        unmapped' found' second in
    λ same.
      let again : f' ≡ f = sym entry' ∙ same ∙ entry in
      omega (arith, sym (subst (λ g. frame_bit k' g ≡ 0) again free') ∙ taken)
