-- ===== src/Drivers/Atapi/Status.antt =====
-- The waiting loops of the ATAPI driver end where the drive answers, and what a status means.
pub mod Errors
use balloon.Base.{
  ◌/◌, ◌%◌, ℕ, zero, suc, true, ◌+◌, ◌-◌, ◌<◌, ◌≤◌, ◌≡◌, refl, sym, ◌∙◌, ap, Bool-cases, inl, inr,
  Option, some, List, ◌∷◌, bit_and, arith, ◌==◌, if◌then◌else◌, u8, u16,
}
use balloon.Base.Bits.{bit, bit_and-pow}
use balloon.Heap.Skip.{◌>>=◌}
use balloon.Drivers.Atapi.{
  Device, Ide, Event, in_byte, wait, event, ide_irq, register_port, ide_read, read_register,
  set_control, ide_wait_irq, settle, while_status, status_error, ide_polling,
}
use balloon.Drivers.Atapi.Sectors.{receive, finish, atapi_read}

-- `n` more events of one kind.
unfoldable pub repeated : ℕ → Event → List Event → List Event
repeated zero e t = t
repeated (suc n) e t = repeated n e (e ∷ t)

repeated-cons : (n : ℕ) (e : Event) (t : List Event) → e ∷ repeated n e t ≡ repeated (suc n) e t
unfolding repeated
repeated-cons zero e t = refl
repeated-cons (suc n) e t = repeated-cons n e (e ∷ t)

pub event-channels : (dev : Device) (s : Ide) (e : Event) → (event dev s e).channels ≡ s.channels
unfolding event ide_irq
event-channels dev s e = elim (Bool-cases (dev.irq (e ∷ s.events))) [
  | inl raised ↦ rw raised refl
  | inr quiet ↦ rw quiet refl
]

pub event-devices : (dev : Device) (s : Ide) (e : Event) → (event dev s e).devices ≡ s.devices
unfolding event ide_irq
event-devices dev s e = elim (Bool-cases (dev.irq (e ∷ s.events))) [
  | inl raised ↦ rw raised refl
  | inr quiet ↦ rw quiet refl
]

pub event-events : (dev : Device) (s : Ide) (e : Event) → (event dev s e).events ≡ e ∷ s.events
unfolding event ide_irq
event-events dev s e = elim (Bool-cases (dev.irq (e ∷ s.events))) [
  | inl raised ↦ rw raised refl
  | inr quiet ↦ rw quiet refl
]

-- The drive's answer at a port has none of the bits of `mask` after the history `t`.
abbrev pub IsClear : Device → (mask port : ℕ) → List Event → Type 0
IsClear dev mask port t = bit_and (u8 (dev.byte t port)) mask ≡ 0

abbrev pub status_port : Ide → (channel : ℕ) → ℕ
status_port s channel = u16 ((s.channels channel).base + 7)

pub ide_read-status :
    (dev : Device) (s : Ide) (ch : ℕ)
    → ide_read dev s ch 0x07
      ≡ (u8 (dev.byte s.events (status_port s ch)), event dev s (in_byte (status_port s ch)))
unfolding ide_read read_register register_port set_control
ide_read-status dev s ch = refl

while_status-round :
    (fuel : ℕ) (dev : Device) (s : Ide) (ch mask port : ℕ)
    → port ≡ status_port s ch
    → while_status (suc fuel) dev s ch mask ≡ (
        if bit_and (u8 (dev.byte s.events port)) mask == 0
        then some (event dev s (in_byte port))
        else while_status fuel dev (event dev s (in_byte port)) ch mask)
unfolding while_status
while_status-round fuel dev s ch mask port same = rw (same, ide_read-status dev s ch) refl

IsClear-moved :
    (dev : Device) (mask port j : ℕ) (t t' : List Event)
    → t ≡ t'
    → IsClear dev mask port (repeated j (in_byte port) t)
    → IsClear dev mask port (repeated j (in_byte port) t')
IsClear-moved dev mask port j t t' e clear = rw (sym e) clear

-- The loop ends with the first status that is clear, and has read it as often as that takes.
pub while_status_lem :
    (fuel k : ℕ) (dev : Device) (s : Ide) (ch mask port : ℕ)
    → k < fuel
    → port ≡ status_port s ch
    → IsClear dev mask port (repeated k (in_byte port) s.events)
    → (j : ℕ) × (s' : Ide) × (while_status fuel dev s ch mask ≡ some s')
      × (s'.events ≡ repeated (suc j) (in_byte port) s.events)
      × (s'.channels ≡ s.channels)
      × IsClear dev mask port (repeated j (in_byte port) s.events)
      × (j ≤ k)
unfolding repeated
while_status_lem zero k dev s ch mask port h same clear = ground arith
while_status_lem (suc fuel) zero dev s ch mask port h same clear =
    let now : (bit_and (u8 (dev.byte s.events port)) mask == 0) ≡ true = ground arith in
    rw (while_status-round fuel dev s ch mask port same, now)
      (
        0,
        event dev s (in_byte port),
        refl,
        event-events dev s (in_byte port),
        event-channels dev s (in_byte port),
        clear,
        omega arith,
      )
while_status_lem (suc fuel) (suc k) dev s ch mask port h same clear =
    let s' = event dev s (in_byte port) in
    let e = event-events dev s (in_byte port) in
    let c = event-channels dev s (in_byte port) in
    rw (while_status-round fuel dev s ch mask port same)
      (elim (Bool-cases (bit_and (u8 (dev.byte s.events port)) mask == 0)) [
        | inl now ↦ rw now (0, s', refl, e, c, ground arith, omega arith)
        | inr later ↦
            let (j, s'', run, history, wiring, first, le) =
              while_status_lem fuel k dev s' ch mask port (omega arith) (rw c same) (rw e clear) in
            rw later (
              suc j,
              s'',
              run,
              history ∙ ap (repeated (suc j) (in_byte port)) e,
              wiring ∙ c,
              IsClear-moved dev mask port j s'.events (in_byte port ∷ s.events) e first,
              omega arith,
            )
      ])

-- The history once the alternate status was read four times.
abbrev pub settled : Ide → (channel : ℕ) → List Event
settled s channel = repeated 4 (in_byte (u16 ((s.channels channel).ctrl + 0x0c - 0x0a))) s.events

ide_read-altstatus :
    (dev : Device) (s : Ide) (ch : ℕ)
    → (ide_read dev s ch 0x0c).1 ≡ event dev s (in_byte (u16 ((s.channels ch).ctrl + 0x0c - 0x0a)))
unfolding ide_read read_register register_port set_control
ide_read-altstatus dev s ch = refl

settle-round :
    (rounds : ℕ) (dev : Device) (s : Ide) (ch port : ℕ)
    → port ≡ u16 ((s.channels ch).ctrl + 0x0c - 0x0a)
    → settle (suc rounds) dev s ch ≡ settle rounds dev (event dev s (in_byte port)) ch
unfolding settle
settle-round rounds dev s ch port same =
    rw same (ap (λ s'. settle rounds dev s' ch) (ide_read-altstatus dev s ch))

settle_lem :
    (rounds : ℕ) (dev : Device) (s : Ide) (ch port : ℕ)
    → port ≡ u16 ((s.channels ch).ctrl + 0x0c - 0x0a)
    → ((settle rounds dev s ch).events ≡ repeated rounds (in_byte port) s.events)
      × ((settle rounds dev s ch).channels ≡ s.channels)
unfolding settle repeated
settle_lem zero dev s ch port same = (refl, refl)
settle_lem (suc rounds) dev s ch port same =
    let e = event-events dev s (in_byte port) in
    let c = event-channels dev s (in_byte port) in
    let (history, wiring) =
      settle_lem rounds dev (event dev s (in_byte port)) ch port (rw c same) in
    rw (settle-round rounds dev s ch port same)
      (history ∙ ap (repeated rounds (in_byte port)) e, wiring ∙ c)

-- What a status says of the command: 2 if bit 0 reports an error, else 1 if bit 5 reports a fault of
-- the drive, else 3 if bit 3 has no data to offer, and 0 if it has.
abbrev pub meaning : (state : ℕ) → ℕ
meaning state =
    if state % 2 == 1
    then 2
    else if state / 32 % 2 == 1
    then 1
    else if state / 8 % 2 == 0
    then 3
    else 0

status_error-meaning : (state : ℕ) → status_error state ≡ meaning state
unfolding status_error bit
status_error-meaning state =
    ground (arith, bit_and-pow state 0, bit_and-pow state 5, bit_and-pow state 3)

-- Where the drive has no BSY after at most `k` reads of its status, ide_polling ends, and with the
-- advanced check it returns what the read of the status behind one without BSY means: 2 for an
-- error, else 1 for a fault of the drive, else 3 if there is no data, and 0 if there is.
pub ide_polling_lem :
    (fuel k : ℕ) (dev : Device) (s : Ide) (ch : ℕ)
    → k < fuel
    → IsClear dev 0x80 (status_port s ch) (repeated k (in_byte (status_port s ch)) (settled s ch))
    → (j : ℕ) × (s' : Ide) × (ide_polling fuel dev s ch 1
        ≡ some (
          meaning (
              u8 (
                dev.byte
                  (repeated (suc j) (in_byte (status_port s ch)) (settled s ch))
                  (status_port s ch))),
          s',
        ))
      × (s'.events ≡ repeated (suc (suc j)) (in_byte (status_port s ch)) (settled s ch))
      × (s'.channels ≡ s.channels)
      × IsClear dev 0x80 (status_port s ch) (repeated j (in_byte (status_port s ch)) (settled s ch))
      × (j ≤ k)
unfolding ide_polling
ide_polling_lem fuel k dev s ch h clear =
    let port : ℕ = status_port s ch in
    let s₁ = settle 4 dev s ch in
    let (history, wiring) = settle_lem 4 dev s ch (u16 ((s.channels ch).ctrl + 0x0c - 0x0a)) refl in
    let here : port ≡ status_port s₁ ch = rw wiring refl in
    let (j, s₂, run, history', wiring', first, le) =
      while_status_lem fuel k dev s₁ ch 0x80 port h here (rw history clear) in
    let here' : status_port s₂ ch ≡ port = rw (wiring', wiring) refl in
    let all : s₂.events ≡ repeated (suc j) (in_byte port) (settled s ch) =
      history' ∙ ap (repeated (suc j) (in_byte port)) history in
    (
      j,
      event dev s₂ (in_byte port),
      rw (run, ide_read-status dev s₂ ch, here', all)
          (ap (λ err. some (err, event dev s₂ (in_byte port))) (status_error-meaning _)),
      event-events dev s₂ (in_byte port)
          ∙ ap (λ t. in_byte port ∷ t) all
          ∙ repeated-cons (suc j) (in_byte port) (settled s ch),
      event-channels dev s₂ (in_byte port) ∙ wiring' ∙ wiring,
      IsClear-moved dev 0x80 port j s₁.events (settled s ch) history first,
      le,
    )
