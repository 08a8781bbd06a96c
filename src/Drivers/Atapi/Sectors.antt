-- ===== src/Drivers/Atapi/Sectors.antt =====
-- atapi_read and read_sectors of source/drivers/disc/atapi.c. `fuel` bounds each waiting loop, and
-- `none` says that one did not end within it.
use balloon.Base.{
  ℕ, zero, suc, ◌+◌, ◌*◌, ◌&&◌, ◌||◌, Option, some, List, [], ◌∷◌, bit_and, ltb, ◌==◌,
  if◌then◌else◌, u8, u16, add32, ◌<<◌, ◌>>◌,
}
use balloon.Heap.Skip.{◌>>=◌}
use balloon.Drivers.Atapi.{
  Device, Channel, Ide, reading, error_code, out_words, shown, event, read_block, ide_write,
  ide_wait_irq, settle, while_status, ide_polling, ide_print_error,
}

-- The packet of the command ATAPI_CMD_READ.
unfoldable pub read_packet : (lba numsects : ℕ) → List ℕ
read_packet lba numsects =
    0xa8
    ∷ 0
    ∷ u8 (bit_and (lba >> 24) 0xff)
    ∷ u8 (bit_and (lba >> 16) 0xff)
    ∷ u8 (bit_and (lba >> 8) 0xff)
    ∷ u8 (bit_and (lba >> 0) 0xff)
    ∷ 0
    ∷ 0
    ∷ 0
    ∷ numsects
    ∷ 0
    ∷ 0
    ∷ []

-- The words that outsw reads from the bytes of the packet.
unfoldable pub packet_words : List ℕ → List ℕ
packet_words [] = []
packet_words (low ∷ []) = []
packet_words (low ∷ high ∷ rest) = (low + 0x100 * high) ∷ packet_words rest

abbrev pub clear_nien : Channel → Channel
clear_nien c = record c { nien = 0 }

-- channels[channel].nIEN = ide_irq_invoked = 0
unfoldable pub reset_irq : Ide → (channel : ℕ) → Ide
reset_irq s channel =
    let old = s.channels in
    record s { channels = λ c. if c == channel then clear_nien (old c) else old c; irq_invoked = 0 }

-- The body of atapi_read down to the command. `words` is 1024.
unfoldable pub send_command : Device → Ide → (drive lba numsects : ℕ) → Ide
send_command dev s drive lba numsects =
    let channel : ℕ = (s.devices drive).channel in
    let slavebit : ℕ = (s.devices drive).drive in
    let s₁ = reset_irq (event dev s (shown (reading drive lba numsects))) channel in
    let s₂ : Ide = record (ide_write dev s₁ channel 0x0c 0) {
      atapi_packet = read_packet lba numsects;
    } in
    let s₃ = settle 4 dev (ide_write dev s₂ channel 0x06 (u8 (slavebit << 4))) channel in
    let s₄ = ide_write dev s₃ channel 0x01 0 in
    let s₅ = ide_write dev s₄ channel 0x04 (bit_and (1024 * 2) 0xff) in
    ide_write dev (ide_write dev s₅ channel 0x05 ((1024 * 2) >> 8)) channel 0x07 0xa0

-- The loop over the sectors, with `left` of them. Each goes into ide_buf: edi is only counted up.
unfoldable pub receive : (left fuel : ℕ) → Device → Ide → (channel bus : ℕ) → Option (ℕ × Ide)
receive zero fuel dev s channel bus = some (0, s)
receive (suc left) fuel dev s channel bus = ide_wait_irq fuel dev s >>= λ s₁.
    (ide_polling fuel dev s₁ channel 1 >>= λ (err, s₂).
    (let rest = receive left fuel dev (read_block dev s₂ (u16 bus) (1024 * 2)) channel bus in
      if err == 0 then rest else some (err, s₂)))

-- The end of atapi_read, once the sectors are read.
unfoldable pub finish : (fuel : ℕ) → Device → Ide → (channel : ℕ) → Option (ℕ × Ide)
finish fuel dev s channel =
    ide_wait_irq fuel dev s >>= λ s₁. (while_status fuel dev s₁ channel 0x88 >>= λ s₂. some (0, s₂))

-- `selector` and `edi` have no effect.
unfoldable pub atapi_read : (fuel : ℕ) → Device → Ide → (drive lba numsects : ℕ) → Option (ℕ × Ide)
atapi_read fuel dev s drive lba numsects =
    let channel : ℕ = (s.devices drive).channel in
    let bus : ℕ = (s.channels channel).base in
    ide_polling fuel dev (send_command dev s drive lba numsects) channel 1 >>= λ (err, s₁).
    (let s₂ = event dev s₁ (out_words (u16 bus) (packet_words s₁.atapi_packet)) in
      let rest = receive numsects fuel dev s₂ channel bus >>= λ (err', s₃).
      (if err' == 0 then finish fuel dev s₃ channel else some (err', s₃)) in
      if err == 0 then rest else some (err, s₁))

-- The calls of atapi_read from sector `i` on, `left` of them; `err` is the variable's value before.
unfoldable pub read_each : (left fuel : ℕ) → Device → Ide → (drive lba i err : ℕ) → Option (ℕ × Ide)
read_each zero fuel dev s drive lba i err = some (err, s)
read_each (suc left) fuel dev s drive lba i err =
    atapi_read fuel dev s drive (add32 lba i) 1 >>= λ (err', s').
    read_each left fuel dev s' drive lba (i + 1) err'

-- IDE_ATA is 0 and IDE_ATAPI is 1. `err` is not set where no sector is read.
unfoldable pub read_sectors : (fuel : ℕ) → Device → Ide → (drive numsects lba : ℕ) → Option Ide
read_sectors fuel dev s drive numsects lba =
    let d = s.devices drive in
    let sectors : ℕ = if d.type == 1 then numsects else 0 in
    let report = read_each sectors fuel dev s drive lba 0 (u8 dev.stray) >>= λ (err, s₁).
    (let s₂ : Ide = (ide_print_error dev s₁ drive err).1 in
      some (if err == 0 then s₂ else event dev s₂ (shown (error_code err)))) in
    if ltb 3 drive || d.reserved == 0
    then some s
    else if ltb d.size (add32 lba numsects) && d.type == 0
    then some s
    else if d.type == 0
    then some s
    else report
