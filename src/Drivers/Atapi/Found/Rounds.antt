-- ===== src/Drivers/Atapi/Found/Rounds.antt =====
-- The steps of ide_initialize at one place: what it selects, how long it waits and what kind it finds.
use balloon.Base.{
  ℕ, zero, suc, ◌+◌, ◌<◌, ◌≡◌, ◌⊎◌, refl, ◌∙◌, ap, Bool-cases, inl, inr, Option, none, some, List,
  ◌∷◌, bit_or, arith, true, false, ◌&&◌, ◌||◌, ◌==◌, u8, u16, ◌<<◌,
}
use balloon.Drivers.Atapi.{
  Device, Channel, Ide, IdeDevice, Event, out_byte, checking, sleep, shown, event, ide_write,
  ide_read,
}
use balloon.Drivers.Atapi.Detect.{await_identify, probe_atapi, set_device, kind_of, select}
use balloon.Drivers.Atapi.Status.{repeated}
use balloon.Drivers.Atapi.Found.{
  asked, in_status, answer, IsError, IsReady, IsBusy, IsPacket, Settles, Signature, low_byte,
  high_byte,
}
use balloon.Drivers.Atapi.Found.Steps.{
  At, emptied, is_error_lem, is_ready_lem, is_busy_lem, place_byte, event-At, ide_write-At,
  ide_read-At,
}

module _ (dev : Device) (chs : ℕ → Channel) (i : ℕ) where
  abbrev base : ℕ
  base = (chs i).base

  -- What the loop of step (III) ends with.
  abbrev Ends : (err state : ℕ) → Type 0
  Ends err state = ((err ≡ 0) × IsReady state) ⊎ ((err ≡ 1) × IsError state)

  await_identify-end :
      (fuel err : ℕ) (t : List Event) (d : ℕ → IdeDevice) (s : Ide)
      → At chs t d s
      → Ends err (answer dev base t 0)
      → await_identify (suc fuel) dev s i ≡ some (err, (ide_read dev s i 0x07).1)
  unfolding await_identify repeated
  await_identify-end fuel err t d s at (inl (code, ready)) =
      let (no_error, sent) = is_ready_lem _ ready in
      rw ((ide_read-At dev chs i t d s 0x07 (omega arith) at).0, no_error, sent, code) refl
  await_identify-end fuel err t d s at (inr (code, error)) =
      rw ((ide_read-At dev chs i t d s 0x07 (omega arith) at).0, is_error_lem _ error, code) refl

  await_identify-busy :
      (fuel : ℕ) (t : List Event) (d : ℕ → IdeDevice) (s : Ide)
      → At chs t d s
      → IsBusy (answer dev base t 0)
      → await_identify (suc fuel) dev s i ≡ await_identify fuel dev (ide_read dev s i 0x07).1 i
  unfolding await_identify repeated
  await_identify-busy fuel t d s at busy =
      let (no_error, none_yet) = is_busy_lem _ busy in
      rw ((ide_read-At dev chs i t d s 0x07 (omega arith) at).0, no_error, none_yet) refl

  await_identify_lem :
      (fuel k err : ℕ) (t : List Event) (d : ℕ → IdeDevice) (s : Ide)
      → k < fuel
      → At chs t d s
      → Settles (Ends err) dev base t k
      → (s' : Ide) × (await_identify fuel dev s i ≡ some (err, s'))
        × At chs (repeated (suc k) (in_status base) t) d s'
  unfolding repeated
  await_identify_lem zero k err t d s h at settles = ground arith
  await_identify_lem (suc fuel) zero err t d s h at (busy, last) = (
    _,
    await_identify-end fuel err t d s at last,
    (ide_read-At dev chs i t d s 0x07 (omega arith) at).1,
  )
  await_identify_lem (suc fuel) (suc k) err t d s h at (busy, last) =
      let (s', run, at') =
        await_identify_lem fuel k err (in_status base ∷ t) d _ (omega arith)
          (ide_read-At dev chs i t d s 0x07 (omega arith) at).1
          ((λ j lt. busy (suc j) (omega arith)), last) in
      (s', await_identify-busy fuel t d s at (busy 0 (omega arith)) ∙ run, at')

  -- What probe_atapi makes of the signature.
  abbrev pub Has : (type : Option ℕ) → (low high : ℕ) → Type 0
  Has none low high = ¬ IsPacket low high
  Has (some type) low high = (type ≡ 1) × IsPacket low high

  packet_test :
      (low high : ℕ)
      → IsPacket low high
      → ((low == 0x14 && high == 0xeb) || (low == 0x69 && high == 0x96)) ≡ true
  packet_test low high is_packet = ground arith

  other_test :
      (low high : ℕ)
      → ¬ IsPacket low high
      → ((low == 0x14 && high == 0xeb) || (low == 0x69 && high == 0x96)) ≡ false
  other_test low high other =
      elim (Bool-cases ((low == 0x14 && high == 0xeb) || (low == 0x69 && high == 0x96))) [
        | inl known ↦ absurd (other (ground arith))
        | inr not_known ↦ not_known
      ]

  probe_atapi_lem :
      (type : Option ℕ) (t : List Event) (d : ℕ → IdeDevice) (s : Ide)
      → At chs t d s
      → Has type (low_byte dev base t) (high_byte dev base t)
      → (t' : List Event) × (s' : Ide) × (probe_atapi dev s i ≡ (type, s')) × At chs t' d s'
  unfolding probe_atapi
  probe_atapi_lem none t d s at other =
      let (low, at₁) = ide_read-At dev chs i t d s 0x04 (omega arith) at in
      let (high, at₂) =
        ide_read-At dev chs i _ d (ide_read dev s i 0x04).1 0x05 (omega arith) at₁ in
      let not_known = other_test (low_byte dev base t) (high_byte dev base t) other in
      (_, (ide_read dev (ide_read dev s i 0x04).1 i 0x05).1, rw (low, high, not_known) refl, at₂)
  probe_atapi_lem (some n) t d s at (code, is_packet) =
      let (low, at₁) = ide_read-At dev chs i t d s 0x04 (omega arith) at in
      let (high, at₂) =
        ide_read-At dev chs i _ d (ide_read dev s i 0x04).1 0x05 (omega arith) at₁ in
      let known = packet_test (low_byte dev base t) (high_byte dev base t) is_packet in
      let s₂ = (ide_read dev (ide_read dev s i 0x04).1 i 0x05).1 in
      let at₃ = ide_write-At dev chs i _ d s₂ 0x07 0xa1 (omega arith) at₂ in
      (
        _,
        event dev (ide_write dev s₂ i 0x07 0xa1) (sleep 1),
        rw (low, high, known, code) refl,
        event-At dev chs i _ d (ide_write dev s₂ i 0x07 0xa1) (sleep 1) at₃,
      )

  pub kind_of-disk :
      (fuel k : ℕ) (t : List Event) (d : ℕ → IdeDevice) (s : Ide)
      → k < fuel
      → At chs t d s
      → Settles IsReady dev base t k
      → (t' : List Event) × (s' : Ide) × (kind_of fuel dev s i ≡ some (some 0, s')) × At chs t' d s'
  unfolding kind_of
  kind_of-disk fuel k t d s h at (busy, ready) =
      let (s', run, at') = await_identify_lem fuel k 0 t d s h at (busy, inl (refl, ready)) in
      (_, s', rw run refl, at')

  pub kind_of-probe :
      (fuel k : ℕ) (type : Option ℕ) (t : List Event) (d : ℕ → IdeDevice) (s : Ide)
      → k < fuel
      → At chs t d s
      → Settles IsError dev base t k
      → Signature (Has type) dev base t k
      → (t' : List Event) × (s' : Ide) × (kind_of fuel dev s i ≡ some (type, s')) × At chs t' d s'
  unfolding kind_of
  kind_of-probe fuel k type t d s h at (busy, error) has =
      let (s₁, run, at₁) = await_identify_lem fuel k 1 t d s h at (busy, inr (refl, error)) in
      let (t', s', probed, at') = probe_atapi_lem type _ d s₁ at₁ has in
      (t', s', rw (run, probed) refl, at')

  -- What select sends, with `v` for the place.
  abbrev in_place : (v : ℕ) → List Event → List Event
  in_place v t =
      sleep 1 ∷ out_byte (u16 (base + 7)) 0xec ∷ sleep 1 ∷ out_byte (u16 (base + 6)) v ∷ t

  six : 6 < 8
  six = omega arith

  seven : 7 < 8
  seven = omega arith

  pub select_lem :
      (j count : ℕ) (t : List Event) (d : ℕ → IdeDevice) (s : Ide)
      → j < 2
      → At chs t d s
      → ((select dev s count i j).0 ≡ answer dev base (asked base i j t) 0)
        × At chs (in_status base ∷ asked base i j t) (emptied d count) (select dev s count i j).1
  unfolding select repeated
  select_lem j count t d s h at =
      let at₁ = event-At dev chs i t d s (shown (checking i j)) at in
      let s₁ = event dev s (shown (checking i j)) in
      let s₂ : Ide = set_device s₁ count (record (s₁.devices count) { reserved = 0 }) in
      let at₂ : At chs (shown (checking i j) ∷ t) (emptied d count) s₂ =
        (at₁.0, at₁.1, ap (λ (d' : ℕ → IdeDevice). emptied d' count) at₁.2) in
      let at₃ =
        event-At dev chs i _ _ _ (sleep 1)
          (ide_write-At dev chs i _ _ s₂ 0x06 (u8 (bit_or 0xa0 (j << 4))) six at₂) in
      let at₄ =
        event-At dev chs i _ _ _ (sleep 1) (ide_write-At dev chs i _ _ _ 0x07 0xec seven at₃) in
      let (status, at₅) = ide_read-At dev chs i _ _ _ 0x07 seven at₄ in
      let sent = place_byte j h in
      (
        status
            ∙ ap (λ v. u8 (dev.byte (in_place v (shown (checking i j) ∷ t)) (u16 (base + 7)))) sent,
        (
          at₅.0,
          at₅.1 ∙ ap (λ v. in_status base ∷ in_place v (shown (checking i j) ∷ t)) sent,
          at₅.2,
        ),
      )
