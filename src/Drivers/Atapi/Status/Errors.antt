-- ===== src/Drivers/Atapi/Status/Errors.antt =====
-- The code that ide_print_error returns for an error of the drive.
use balloon.Base.{
  ℕ, ◌+◌, ◌<◌, ◌≡◌, refl, ◌∙◌, Bool-cases, inl, inr, ◌∷◌, bit_and, arith, leb, ◌==◌, all_below,
  all_below_sound, ==_iff, if◌then◌else◌, u8, u16,
}
use balloon.Drivers.Atapi.{
  Device, Ide, Message, in_byte, ide, shown, event, register_port, read_register, set_control,
  ide_read, error_bit, error_register, explain, ide_print_error,
}
use balloon.Drivers.Atapi.Status.{event-channels, event-devices, event-events}

ide_read-error :
    (dev : Device) (s : Ide) (ch : ℕ)
    → ide_read dev s ch 0x01 ≡ (
      u8 (dev.byte s.events (u16 ((s.channels ch).base + 1))),
      event dev s (in_byte (u16 ((s.channels ch).base + 1))),
    )
unfolding ide_read read_register register_port set_control
ide_read-error dev s ch = refl

-- The code for the highest bit that is set in the error register.
abbrev pub highest_code : (st : ℕ) → ℕ
highest_code st =
    if leb 0x80 st
    then 13
    else if leb 0x40 st
    then 22
    else if leb 0x20 st
    then 3
    else if leb 0x10 st
    then 21
    else if leb 0x08 st
    then 3
    else if leb 0x04 st
    then 20
    else if leb 0x02 st
    then 3
    else if leb 0x01 st
    then 7
    else 2

-- What one test makes of the code.
abbrev code_after : (st err mask code : ℕ) → ℕ
code_after st err mask code = if bit_and st mask == 0 then err else code

error_bit-code :
    (dev : Device) (r : ℕ × Ide) (st mask : ℕ) (m : Message) (code : ℕ)
    → (error_bit dev r st mask m code).0 ≡ code_after st r.0 mask code
unfolding error_bit
error_bit-code dev (err, s) st mask m code = elim (Bool-cases (bit_and st mask == 0)) [
  | inl clear ↦ rw clear refl
  | inr set ↦ rw set refl
]

-- The tests one after the other, from the code 2 on.
abbrev tested_code : (st : ℕ) → ℕ
tested_code st =
    code_after st
      (code_after st
        (code_after st
          (code_after st
            (code_after st (code_after st (code_after st (code_after st 2 0x01 7) 0x02 3) 0x04 20)
              0x08 3)
            0x10 21)
          0x20 3)
        0x40 22)
      0x80 13

error_register-code :
    (dev : Device) (s : Ide) (st : ℕ) → (error_register dev (2, s) st).0 ≡ tested_code st
unfolding error_register
error_register-code dev s st = simp (error_bit-code) refl

tested_code_lem : (st : ℕ) → st < 256 → tested_code st ≡ highest_code st
unfolding all_below
tested_code_lem st h =
    (==_iff _ _).0 (all_below_sound 256 (λ n. tested_code n == highest_code n) st refl h)

-- For the error 2 of ide_polling, ide_print_error reads the error register of the drive's channel
-- and returns the code of its highest bit, or 2 where it is 0; 0 is returned as it is.
pub ide_print_error_lem :
    (dev : Device) (s : Ide) (drive : ℕ)
    → ((ide_print_error dev s drive 0) ≡ (0, s))
      × ((ide_print_error dev s drive 2).0
          ≡ highest_code (
              u8 (
                dev.byte
                  (shown ide ∷ s.events)
                  (u16 ((s.channels (s.devices drive).channel).base + 1)))))
unfolding ide_print_error explain
ide_print_error_lem dev s drive =
    let s' = event dev s (shown ide) in
    let ch = (s'.devices drive).channel in
    let st : ℕ = u8 (dev.byte s'.events (u16 ((s'.channels ch).base + 1))) in
    (
      refl,
      rw (ide_read-error dev s' ch) (
          error_register-code dev _ st
          ∙ tested_code_lem st (omega arith)
          ∙ rw
              (
                event-events dev s (shown ide),
                event-channels dev s (shown ide),
                event-devices dev s (shown ide),
              )
              refl),
    )
