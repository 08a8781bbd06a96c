-- ===== src/Drivers/Atapi/Found/Table.antt =====
-- The table of the drives that ide_initialize leaves, out of what the drives answer.
use balloon.Base.{
  ℕ, ◌+◌, ◌<◌, ◌≡◌, ◌≢◌, refl, sym, ◌∙◌, ap, Bool-cases, inl, inr, Option, none, some, List, [],
  ◌∷◌, ◌++◌, arith, true, false, ◌==◌, if◌then◌else◌, length, length-append,
}
use balloon.Drivers.Atapi.{Device, Channel, Ide, IdeDevice, Event}
use balloon.Drivers.Atapi.Detect.{
  identified, add_device, kind_of, with_kind, select, detect, detect_all,
}
use balloon.Drivers.Atapi.Found.{
  asked, answer, Place, nothing, disk, packet, unknown, Answers, entry, Lists, Lists-rest,
  Lists-append,
}
use balloon.Drivers.Atapi.Found.Steps.{At, emptied, ide_read_buffer-At}
use balloon.Drivers.Atapi.Found.Rounds.{select_lem, kind_of-disk, kind_of-probe}

emptied-Lists :
    (d d' : ℕ → IdeDevice) (es : List (ℕ × ℕ × ℕ))
    → Lists d 0 es
    → d' ≡ emptied d (length es)
    → Lists d' 0 (es ++ [])
unfolding Lists
emptied-Lists d d' es listed same =
    let at : 0 + length es ≡ length es = omega arith in
    Lists-append d d' 0 (length es) es [] at
      (λ m lt. let other : (m == length es) ≡ false = ground arith in rw (same, other) refl) listed
      (λ m le lt. elim (Bool-cases (m == length es)) [
        | inl here ↦ rw (same, here) refl
        | inr other ↦ rw (same, other) (Lists-rest d 0 (length es) es at listed m le lt)
      ])

-- One more entry.
abbrev with_entry : (ℕ → IdeDevice) → (count : ℕ) → IdeDevice → ℕ → IdeDevice
with_entry d count new n = if n == count then new else emptied d count n

with_entry-Lists :
    (d d' : ℕ → IdeDevice) (es : List (ℕ × ℕ × ℕ)) (new : IdeDevice)
    → Lists d 0 es
    → d' ≡ with_entry d (length es) new
    → new.reserved ≡ 1
    → Lists d' 0 (es ++ ((new.channel, new.drive, new.type) ∷ []))
unfolding Lists
with_entry-Lists d d' es new listed same reserved =
    let at : 0 + length es ≡ length es = omega arith in
    let here : (length es == length es) ≡ true = ground arith in
    Lists-append d d' 0 (length es) es ((new.channel, new.drive, new.type) ∷ []) at
      (λ m lt. let other : (m == length es) ≡ false = ground arith in rw (same, other) refl) listed
      (rw (same, here)
        (
          reserved,
          refl,
          refl,
          refl,
          λ m le lt.
              let other : (m == length es) ≡ false = ground arith in
              rw other (Lists-rest d 0 (length es) es at listed m (omega arith) lt),
        ))

module _ (fuel : ℕ) (dev : Device) (chs : ℕ → Channel) (i j : ℕ) where
  -- The table and the channels after a round that starts with `es`.
  abbrev Round : (s : Ide) → (es new : List (ℕ × ℕ × ℕ)) → Type 0
  Round s es new =
      (s' : Ide) × (detect fuel dev (length es) s i j ≡ some (length (es ++ new), s'))
      × (s'.channels ≡ chs)
      × Lists s'.devices 0 (es ++ new)

  same_length : (es : List (ℕ × ℕ × ℕ)) → length es ≡ length (es ++ [])
  same_length es = rw (length-append es []) (omega arith)

  Round-nothing :
      (s : Ide) (es : List (ℕ × ℕ × ℕ))
      → j < 2
      → s.channels ≡ chs
      → Lists s.devices 0 es
      → answer dev (chs i).base (asked (chs i).base i j s.events) 0 ≡ 0
      → Round s es []
  unfolding detect
  Round-nothing s es h wiring listed status =
      let (read, at) =
        select_lem dev chs i j (length es) s.events s.devices s h (wiring, refl, refl) in
      (
        (select dev s (length es) i j).1,
        rw (read, status) (ap (λ n. some (n, (select dev s (length es) i j).1)) (same_length es)),
        at.0,
        emptied-Lists s.devices _ es listed at.2,
      )

  detect-kind :
      (s s' : Ide) (count : ℕ) (kind : Option ℕ)
      → (select dev s count i j).0 ≢ 0
      → kind_of fuel dev (select dev s count i j).1 i ≡ some (kind, s')
      → detect fuel dev count s i j ≡ some (with_kind dev count i j kind s')
  unfolding detect
  detect-kind s s' count kind some_status known =
      let present : ((select dev s count i j).0 == 0) ≡ false = ground (arith, some_status) in
      rw (present, known) refl

  Round-unknown :
      (s s' : Ide) (es : List (ℕ × ℕ × ℕ)) (t : List Event)
      → Lists s.devices 0 es
      → (select dev s (length es) i j).0 ≢ 0
      → kind_of fuel dev (select dev s (length es) i j).1 i ≡ some (none, s')
      → At chs t (emptied s.devices (length es)) s'
      → Round s es []
  unfolding with_kind
  Round-unknown s s' es t listed some_status known at = (
    s',
    detect-kind s s' (length es) none some_status known ∙ ap (λ n. some (n, s')) (same_length es),
    at.0,
    emptied-Lists s.devices _ es listed at.2,
  )

  Round-drive :
      (type : ℕ) (s s' : Ide) (es : List (ℕ × ℕ × ℕ)) (t : List Event)
      → Lists s.devices 0 es
      → (select dev s (length es) i j).0 ≢ 0
      → kind_of fuel dev (select dev s (length es) i j).1 i ≡ some (some type, s')
      → At chs t (emptied s.devices (length es)) s'
      → Round s es ((i, j, type) ∷ [])
  unfolding with_kind add_device identified
  Round-drive type s s' es t listed some_status known at =
      let (t', at') = ide_read_buffer-At dev chs i t _ s' at in
      let s'' = (add_device dev s' (length es) type i j).1 in
      let new = identified s''.buf type i j in
      let added : (ℕ → IdeDevice) → ℕ → IdeDevice = λ d n. if n == length es then new else d n in
      (
        s'',
        detect-kind s s' (length es) (some type) some_status known
            ∙ ap (λ n. some (n, s'')) (sym (length-append es ((i, j, type) ∷ []))),
        at'.0,
        with_entry-Lists s.devices _ es new listed (ap added at'.2) refl,
      )

  round_lem :
      (s : Ide) (es : List (ℕ × ℕ × ℕ)) (place : Place)
      → j < 2
      → s.channels ≡ chs
      → Lists s.devices 0 es
      → Answers fuel dev (chs i).base (asked (chs i).base i j s.events) place
      → Round s es (entry place i j)
  unfolding Answers entry
  round_lem s es nothing h wiring listed answers = Round-nothing s es h wiring listed answers
  round_lem s es disk h wiring listed (some_status, k, lt, settles) =
      let (read, at) =
        select_lem dev chs i j (length es) s.events s.devices s h (wiring, refl, refl) in
      let (t', s', known, at') = kind_of-disk dev chs i fuel k _ _ _ lt at settles in
      Round-drive 0 s s' es t' listed (λ zero_status. some_status (sym read ∙ zero_status)) known
        at'
  round_lem s es packet h wiring listed (some_status, k, lt, settles, is_packet) =
      let (read, at) =
        select_lem dev chs i j (length es) s.events s.devices s h (wiring, refl, refl) in
      let (t', s', known, at') =
        kind_of-probe dev chs i fuel k (some 1) _ _ _ lt at settles (refl, is_packet) in
      Round-drive 1 s s' es t' listed (λ zero_status. some_status (sym read ∙ zero_status)) known
        at'
  round_lem s es unknown h wiring listed (some_status, k, lt, settles, other) =
      let (read, at) =
        select_lem dev chs i j (length es) s.events s.devices s h (wiring, refl, refl) in
      let (t', s', known, at') = kind_of-probe dev chs i fuel k none _ _ _ lt at settles other in
      Round-unknown s s' es t' listed (λ zero_status. some_status (sym read ∙ zero_status)) known
        at'

-- From a table of four empty entries, and with drives that each answer as nothing, a disk, a packet
-- drive or an unknown drive whenever they are asked to identify themselves, in fewer than `fuel`
-- reads of the status behind the first one, the detection of the drives ends. It returns the number
-- of disks and packet drives, and the table lists just these, in the order of their places, each
-- with its channel, its number there and its type.
pub detect_all-Lists :
    (fuel : ℕ) (dev : Device) (s : Ide) (place : (i j : ℕ) → Place)
    → Lists s.devices 0 []
    → ((i j : ℕ) (t : List Event)
        → i < 2
        → j < 2
        → Answers fuel dev (s.channels i).base (asked (s.channels i).base i j t) (place i j))
    → (let es =
          ((entry (place 0 0) 0 0 ++ entry (place 0 1) 0 1) ++ entry (place 1 0) 1 0)
          ++ entry (place 1 1) 1 1 in
        (s' : Ide) × (detect_all fuel dev s ≡ some (length es, s')) × Lists s'.devices 0 es)
unfolding detect_all
detect_all-Lists fuel dev s place empty answers =
    let round = round_lem fuel dev s.channels in
    let (s₁, run₁, w₁, l₁) =
      round 0 0 s [] (place 0 0) (omega arith) refl empty
        (answers 0 0 s.events (omega arith) (omega arith)) in
    let (s₂, run₂, w₂, l₂) =
      round 0 1 s₁ _ (place 0 1) (omega arith) w₁ l₁
        (answers 0 1 s₁.events (omega arith) (omega arith)) in
    let (s₃, run₃, w₃, l₃) =
      round 1 0 s₂ _ (place 1 0) (omega arith) w₂ l₂
        (answers 1 0 s₂.events (omega arith) (omega arith)) in
    let (s₄, run₄, w₄, l₄) =
      round 1 1 s₃ _ (place 1 1) (omega arith) w₃ l₃
        (answers 1 1 s₃.events (omega arith) (omega arith)) in
    (s₄, rw (run₁, run₂, run₃) run₄, l₄)
