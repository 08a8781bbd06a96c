-- ===== src/Drivers/Atapi.antt =====
-- source/drivers/disc/atapi.c with pata.h: the ports of an IDE channel, and what a drive answers.
-- The drive is a parameter that answers by the history of what was sent to it, newest first. Its
-- interrupt may come after any access, and ide_irq notes it.
pub mod Detect
pub mod Found
pub mod Kept
pub mod Packet
pub mod Sectors
pub mod Status
use balloon.Base.{
  ℕ, zero, suc, ◌+◌, ◌-◌, ◌*◌, Bool, ◌&&◌, ◌||◌, Option, none, some, List, [], ◌∷◌, bit_and, bit_or,
  leb, ltb, ◌==◌, if◌then◌else◌, u8, u16,
}
use balloon.Heap.Skip.{◌>>=◌}

-- The messages of kprintf, with their arguments.
pub data Message : Type 0 where
  reading : (drive lba numsects : ℕ) → Message
  ide : Message
  device_fault : Message
  no_address_mark : Message
  no_media : Message
  command_aborted : Message
  id_not_found : Message
  uncorrectable : Message
  bad_sectors : Message
  reads_nothing : Message
  write_protected : Message
  which_drive : (channel drive : ℕ) → (model : List ℕ) → Message
  error_code : (err : ℕ) → Message
  checking : (i j : ℕ) → Message
  found : (type number size : ℕ) → (model : List ℕ) → Message
  first_byte : (c : ℕ) → Message

-- What the driver does outside its variables. `wait` is a round of ide_wait_irq's loop.
pub data Event : Type 0 where
  in_byte : (port : ℕ) → Event
  out_byte : (port data_byte : ℕ) → Event
  in_block : (port bytes : ℕ) → Event
  out_words : (port : ℕ) → (words : List ℕ) → Event
  wait : Event
  sleep : (msec : ℕ) → Event
  shown : Message → Event

-- `byte` is the answer of a port, `stream` the bytes of a block that is read from it, and `irq` says
-- that the newest event was followed by an interrupt. `stray` is the value of a variable that
-- was not set.
pub record Device : Type 0 where
  pub byte : List Event → (port : ℕ) → ℕ
  pub stream : List Event → (port i : ℕ) → ℕ
  pub irq : List Event → Bool
  pub stray : ℕ

pub record Channel : Type 0 where
  pub base : ℕ
  pub ctrl : ℕ
  pub bmide : ℕ
  pub nien : ℕ

pub record IdeDevice : Type 0 where
  pub reserved : ℕ
  pub channel : ℕ
  pub drive : ℕ
  pub type : ℕ
  pub signature : ℕ
  pub capabilities : ℕ
  pub command_sets : ℕ
  pub size : ℕ
  pub model : List ℕ

-- The variables of pata.h, and the history. The two arrays are given by index.
pub record Ide : Type 0 where
  pub channels : ℕ → Channel
  pub devices : ℕ → IdeDevice
  pub buf : ℕ → ℕ
  pub irq_invoked : ℕ
  pub atapi_packet : List ℕ
  pub events : List Event

unfoldable pub ide_irq : Ide → Ide
ide_irq s = record s { irq_invoked = 1 }

-- An event, and the interrupt that may follow.
unfoldable pub event : Device → Ide → Event → Ide
event dev s e =
    let s' : Ide = record s { events = e ∷ s.events } in
    if dev.irq (e ∷ s.events) then ide_irq s' else s'

abbrev pub inb : Device → Ide → (port : ℕ) → ℕ × Ide
inb dev s port = (u8 (dev.byte s.events port), event dev s (in_byte port))

-- A block of bytes from a port into ide_buf: insl and inws.
unfoldable pub read_block : Device → Ide → (port bytes : ℕ) → Ide
read_block dev s port bytes =
    let old : ℕ → ℕ = s.buf in
    event dev
      (record s { buf = λ i. if ltb i bytes then u8 (dev.stream s.events port i) else old i })
      (in_block port bytes)

-- The port of a register: the chain of tests in ide_read, ide_write and ide_read_buffer.
unfoldable pub register_port : Channel → (reg : ℕ) → Option ℕ
register_port c reg =
    if ltb reg 0x08
    then some (u16 (c.base + reg))
    else if ltb reg 0x0c
    then some (u16 (c.base + reg - 0x06))
    else if ltb reg 0x0e
    then some (u16 (c.ctrl + reg - 0x0a))
    else if ltb reg 0x16
    then some (u16 (c.bmide + reg - 0x0e))
    else none

abbrev pub is_high : (reg : ℕ) → Bool
is_high reg = ltb 0x07 reg && ltb reg 0x0c

unfoldable pub write_register : Device → Ide → (channel reg data_byte : ℕ) → Ide
write_register dev s channel reg data_byte = elim (register_port (s.channels channel) reg) [
  | some port ↦ event dev s (out_byte port data_byte)
  | none ↦ s
]

-- The first and the last test of the three functions: the call of ide_write for ATA_REG_CONTROL,
-- whose own tests fail.
unfoldable pub set_control : Device → Ide → (channel reg data_byte : ℕ) → Ide
set_control dev s channel reg data_byte =
    if is_high reg then write_register dev s channel 0x0c data_byte else s

unfoldable pub ide_write : Device → Ide → (channel reg data_byte : ℕ) → Ide
ide_write dev s channel reg data_byte =
    let s₁ = set_control dev s channel reg (bit_or 0x80 (s.channels channel).nien) in
    let s₂ = write_register dev s₁ channel reg data_byte in
    set_control dev s₂ channel reg (s₂.channels channel).nien

unfoldable pub read_register : Device → Ide → (channel reg : ℕ) → ℕ × Ide
read_register dev s channel reg = elim (register_port (s.channels channel) reg) [
  | some port ↦ inb dev s port
  | none ↦ (u8 dev.stray, s)
]

unfoldable pub ide_read : Device → Ide → (channel reg : ℕ) → ℕ × Ide
ide_read dev s channel reg =
    let s₁ = set_control dev s channel reg (bit_or 0x80 (s.channels channel).nien) in
    let (result, s₂) = read_register dev s₁ channel reg in
    (result, set_control dev s₂ channel reg (s₂.channels channel).nien)

-- `buffer` is ide_buf, as in the only call. The inline assembly around insl saves and loads es.
unfoldable pub ide_read_buffer : Device → Ide → (channel reg quads : ℕ) → Ide
ide_read_buffer dev s channel reg quads =
    let s₁ = set_control dev s channel reg (bit_or 0x80 (s.channels channel).nien) in
    let s₂ : Ide = elim (register_port (s₁.channels channel) reg) [
      | some port ↦ read_block dev s₁ port (quads * 4)
      | none ↦ s₁
    ] in
    set_control dev s₂ channel reg (s₂.channels channel).nien

-- `none`: no interrupt in `fuel` rounds.
unfoldable pub ide_wait_irq : (fuel : ℕ) → Device → Ide → Option Ide
ide_wait_irq zero dev s = none
ide_wait_irq (suc fuel) dev s =
    let rest = ide_wait_irq fuel dev (event dev s wait) in
    if s.irq_invoked == 0 then rest else some (record s { irq_invoked = 0 })

-- for (i = 0; i < 4; i++) ide_read(channel, ATA_REG_ALTSTATUS);
unfoldable pub settle : (rounds : ℕ) → Device → Ide → (channel : ℕ) → Ide
settle zero dev s channel = s
settle (suc rounds) dev s channel = settle rounds dev (ide_read dev s channel 0x0c).1 channel

-- while (ide_read(channel, ATA_REG_STATUS) & mask);  `none`: a bit of the mask was set in `fuel` reads.
unfoldable pub while_status : (fuel : ℕ) → Device → Ide → (channel mask : ℕ) → Option Ide
while_status zero dev s channel mask = none
while_status (suc fuel) dev s channel mask =
    let (status, s') = ide_read dev s channel 0x07 in
    let rest = while_status fuel dev s' channel mask in
    if bit_and status mask == 0 then some s' else rest

-- What ide_polling makes of the status: ATA_SR_ERR, ATA_SR_DF and ATA_SR_DRQ.
unfoldable pub status_error : (state : ℕ) → ℕ
status_error state =
    if bit_and state 0x01 == 0
    then (if bit_and state 0x20 == 0 then (if bit_and state 0x08 == 0 then 3 else 0) else 1)
    else 2

unfoldable pub ide_polling :
    (fuel : ℕ) → Device → Ide → (channel advanced_check : ℕ) → Option (ℕ × Ide)
ide_polling fuel dev s channel advanced_check =
    while_status fuel dev (settle 4 dev s channel) channel 0x80 >>= λ s₁.
    (if advanced_check == 0
      then some (0, s₁)
      else (let (state, s₂) = ide_read dev s₁ channel 0x07 in some (status_error state, s₂)))

-- The tests of the error register, in order: each one that holds prints and sets the code.
unfoldable pub error_bit : Device → ℕ × Ide → (st mask : ℕ) → Message → (code : ℕ) → ℕ × Ide
error_bit dev (err, s) st mask message code =
    if bit_and st mask == 0 then (err, s) else (code, event dev s (shown message))

unfoldable pub error_register : Device → ℕ × Ide → (st : ℕ) → ℕ × Ide
error_register dev r st =
    let r₁ = error_bit dev r st 0x01 no_address_mark 7 in
    let r₂ = error_bit dev r₁ st 0x02 no_media 3 in
    let r₃ = error_bit dev r₂ st 0x04 command_aborted 20 in
    let r₄ = error_bit dev r₃ st 0x08 no_media 3 in
    let r₅ = error_bit dev r₄ st 0x10 id_not_found 21 in
    let r₆ = error_bit dev r₅ st 0x20 no_media 3 in
    let r₇ = error_bit dev r₆ st 0x40 uncorrectable 22 in error_bit dev r₇ st 0x80 bad_sectors 13

unfoldable pub explain : Device → Ide → (drive err : ℕ) → ℕ × Ide
explain dev s drive err =
    if err == 1
    then (19, event dev s (shown device_fault))
    else if err == 2
    then (let (st, s') = ide_read dev s (s.devices drive).channel 0x01 in
        error_register dev (err, s') st)
    else if err == 3
    then (23, event dev s (shown reads_nothing))
    else if err == 4
    then (8, event dev s (shown write_protected))
    else (err, s)

unfoldable pub ide_print_error : Device → Ide → (drive err : ℕ) → ℕ × Ide
ide_print_error dev s drive err =
    let (err', s') = explain dev (event dev s (shown ide)) drive err in
    let d = s'.devices drive in
    if err == 0
    then (err, s)
    else (err', event dev s' (shown (which_drive d.channel d.drive d.model)))
