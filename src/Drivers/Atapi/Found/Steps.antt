-- ===== src/Drivers/Atapi/Found/Steps.antt =====
-- What an access of ide_read, ide_write and ide_read_buffer to one of the first eight registers does,
-- and the bits of the status.
use mathlib.Core.Path.{subst}
use balloon.Base.{
  ℕ, zero, suc, ◌+◌, ◌*◌, ◌<◌, ◌≡◌, refl, sym, ◌∙◌, ap, some, List, ◌∷◌, bit_and, bit_or, arith,
  true, false, not, ◌&&◌, ◌==◌, if◌then◌else◌, u8, u16, ◌<<◌,
}
use balloon.Base.Bits.{bit, bit_and-pow}
use balloon.Drivers.Atapi.{
  Device, Channel, Ide, IdeDevice, Event, in_byte, out_byte, in_block, event, read_block,
  register_port, write_register, set_control, read_register, ide_write, ide_read, ide_read_buffer,
}
use balloon.Drivers.Atapi.Status.{event-events, event-channels, event-devices}
use balloon.Drivers.Atapi.Found.{IsError, IsReady, IsBusy}

-- The channels, the history and the table of a state.
abbrev pub At : (ℕ → Channel) → List Event → (ℕ → IdeDevice) → Ide → Type 0
At chs t d s = (s.channels ≡ chs) × (s.events ≡ t) × (s.devices ≡ d)

-- The entry of the next drive is marked as empty while it is looked for.
abbrev pub emptied : (ℕ → IdeDevice) → (count : ℕ) → ℕ → IdeDevice
emptied d count n = if n == count then record (d count) { reserved = 0 } else d n

pub is_error_lem : (state : ℕ) → IsError state → (bit_and state 0x01 == 0) ≡ false
unfolding bit
is_error_lem state error = ground (arith, bit_and-pow state 0)

pub is_ready_lem :
    (state : ℕ)
    → IsReady state
    → ((bit_and state 0x01 == 0) ≡ true)
      × ((bit_and state 0x80 == 0 && not (bit_and state 0x08 == 0)) ≡ true)
unfolding bit
is_ready_lem state ready =
    ground (arith, bit_and-pow state 0, bit_and-pow state 7, bit_and-pow state 3)

pub is_busy_lem :
    (state : ℕ)
    → IsBusy state
    → ((bit_and state 0x01 == 0) ≡ true)
      × ((bit_and state 0x80 == 0 && not (bit_and state 0x08 == 0)) ≡ false)
unfolding bit
is_busy_lem state busy =
    ground (arith, bit_and-pow state 0, bit_and-pow state 7, bit_and-pow state 3)

pub place_byte : (j : ℕ) → j < 2 → u8 (bit_or 0xa0 (j << 4)) ≡ 0xa0 + 0x10 * j
place_byte zero h = refl
place_byte (suc zero) h = refl
place_byte (suc (suc j)) h = omega arith

set_control-low : (dev : Device) (s : Ide) (ch reg v : ℕ) → reg < 8 → set_control dev s ch reg v ≡ s
unfolding set_control
set_control-low dev s ch reg v h = ground arith

register_port-low :
    (c : Channel) (reg : ℕ) → reg < 8 → register_port c reg ≡ some (u16 (c.base + reg))
unfolding register_port
register_port-low c reg h = ground arith

write_register-low :
    (dev : Device) (s : Ide) (ch reg v : ℕ)
    → reg < 8
    → write_register dev s ch reg v ≡ event dev s (out_byte (u16 ((s.channels ch).base + reg)) v)
unfolding write_register
write_register-low dev s ch reg v h =
    rw (write_register, register_port-low (s.channels ch) reg h) refl

read_register-low :
    (dev : Device) (s : Ide) (ch reg : ℕ)
    → reg < 8
    → (let port : ℕ = u16 ((s.channels ch).base + reg) in
        read_register dev s ch reg ≡ (u8 (dev.byte s.events port), event dev s (in_byte port)))
unfolding read_register
read_register-low dev s ch reg h = rw (read_register, register_port-low (s.channels ch) reg h) refl

ide_write-low :
    (dev : Device) (s : Ide) (ch reg v : ℕ)
    → reg < 8
    → ide_write dev s ch reg v ≡ event dev s (out_byte (u16 ((s.channels ch).base + reg)) v)
unfolding ide_write
ide_write-low dev s ch reg v h =
    set_control-low dev _ ch reg _ h
    ∙ ap (λ s'. write_register dev s' ch reg v) (set_control-low dev s ch reg _ h)
    ∙ write_register-low dev s ch reg v h

ide_read-low :
    (dev : Device) (s : Ide) (ch reg : ℕ)
    → reg < 8
    → (let port : ℕ = u16 ((s.channels ch).base + reg) in
        ide_read dev s ch reg ≡ (u8 (dev.byte s.events port), event dev s (in_byte port)))
unfolding ide_read
ide_read-low dev s ch reg h =
    rw
      (
        set_control-low dev s ch reg (bit_or 0x80 (s.channels ch).nien) h,
        read_register-low dev s ch reg h,
      )
      (ap (λ (s' : Ide). (u8 (dev.byte s.events (u16 ((s.channels ch).base + reg))), s'))
        (set_control-low dev _ ch reg _ h))

module _ (dev : Device) (chs : ℕ → Channel) (i : ℕ) where
  abbrev base : ℕ
  base = (chs i).base

  pub event-At :
      (t : List Event) (d : ℕ → IdeDevice) (s : Ide) (e : Event)
      → At chs t d s
      → At chs (e ∷ t) d (event dev s e)
  event-At t d s e (wiring, history, table) = (
    event-channels dev s e ∙ wiring,
    event-events dev s e ∙ ap (λ t'. e ∷ t') history,
    event-devices dev s e ∙ table,
  )

  pub ide_write-At :
      (t : List Event) (d : ℕ → IdeDevice) (s : Ide) (reg v : ℕ)
      → reg < 8
      → At chs t d s
      → At chs (out_byte (u16 (base + reg)) v ∷ t) d (ide_write dev s i reg v)
  ide_write-At t d s reg v h at =
      subst (At chs (out_byte (u16 (base + reg)) v ∷ t) d)
        (sym (
          ide_write-low dev s i reg v h
          ∙ ap (λ (c : ℕ → Channel). event dev s (out_byte (u16 ((c i).base + reg)) v)) at.0))
        (event-At t d s (out_byte (u16 (base + reg)) v) at)

  pub ide_read-At :
      (t : List Event) (d : ℕ → IdeDevice) (s : Ide) (reg : ℕ)
      → reg < 8
      → At chs t d s
      → ((ide_read dev s i reg).0 ≡ u8 (dev.byte t (u16 (base + reg))))
        × At chs (in_byte (u16 (base + reg)) ∷ t) d (ide_read dev s i reg).1
  ide_read-At t d s reg h at =
      let e : ide_read dev s i reg
          ≡ (u8 (dev.byte t (u16 (base + reg))), event dev s (in_byte (u16 (base + reg)))) =
        ide_read-low dev s i reg h
        ∙ ap
            (λ (c : ℕ → Channel). (
              u8 (dev.byte s.events (u16 ((c i).base + reg))),
              event dev s (in_byte (u16 ((c i).base + reg))),
            ))
            at.0
        ∙ ap (λ t'. (u8 (dev.byte t' (u16 (base + reg))), event dev s (in_byte (u16 (base + reg)))))
            at.1 in
      rw e (refl, event-At t d s (in_byte (u16 (base + reg))) at)

  pub ide_read_buffer-At :
      (t : List Event) (d : ℕ → IdeDevice) (s : Ide)
      → At chs t d s
      → (t' : List Event) × At chs t' d (ide_read_buffer dev s i 0x00 128)
  unfolding ide_read_buffer register_port set_control read_block
  ide_read_buffer-At t d s at = (
    in_block (u16 ((s.channels i).base + 0)) 512 ∷ t,
    event-At t d _ (in_block (u16 ((s.channels i).base + 0)) 512) at,
  )
