-- ===== src/Tests/Disc.antt =====
-- Drives on the two channels.
use balloon.Base.{
  ℕ, zero, suc, inl, ◌<◌, Bool, true, false, ◌%◌, ◌≤◌, ◌≡◌, refl, ◌&&◌, none, some, List, [], ◌∷◌,
  arith, ◌==◌, if◌then◌else◌, u8,
}
use balloon.Drivers.Atapi.{
  Device, Channel, Ide, IdeDevice, Event, in_byte, out_byte, ide_irq, event, read_block,
  register_port, write_register, set_control, ide_write, read_register, ide_read, ide_wait_irq,
  settle, while_status, status_error, ide_polling,
}
use balloon.Drivers.Atapi.Sectors.{
  read_packet, packet_words, reset_irq, send_command, receive, finish, atapi_read,
}
use balloon.Drivers.Atapi.Detect.{detect_all}
use balloon.Drivers.Atapi.Kept.Ports.{OnPorts, Extends, atapi_read_confined}
use balloon.Drivers.Atapi.Status.{repeated, IsClear, settled, meaning, ide_polling_lem}
use balloon.Drivers.Atapi.Found.{asked, Place, nothing, packet, Answers, entry, Lists}
use balloon.Drivers.Atapi.Found.Table.{detect_all-Lists}

abbrev is_read : Event → ℕ → Bool
is_read e port = elim e [ in_byte p ↦ p == port | _ ↦ false ]

-- DRQ until a port was read twice in a row.
abbrev drive_status : List Event → ℕ → ℕ
drive_status [] port = 0x08
drive_status (e ∷ []) port = 0x08
drive_status (e ∷ e' ∷ t) port = if is_read e port && is_read e' port then 0 else 0x08

abbrev packet_drive : Device
packet_drive = record {
  byte = drive_status;
  stream = λ t port i. i % 0x100;
  irq = λ _. true;
  stray = 0;
}

abbrev no_drive : IdeDevice
no_drive = record {
  reserved = 0;
  channel = 0;
  drive = 0;
  type = 0;
  signature = 0;
  capabilities = 0;
  command_sets = 0;
  size = 0;
  model = [];
}

abbrev channels : ℕ → Channel
channels c =
    if c == 0
    then record { base = 0x1f0; ctrl = 0x3f4; bmide = 0; nien = 0 }
    else record { base = 0x170; ctrl = 0x374; bmide = 8; nien = 0 }

-- The driver before the detection, and with a packet drive as the first one.
abbrev idle : Ide
idle = record {
  channels = channels;
  devices = λ _. no_drive;
  buf = λ _. 0;
  irq_invoked = 0;
  atapi_packet = [];
  events = [];
}

abbrev one_drive : Ide
one_drive = record idle { devices = λ _. record no_drive { reserved = 1; type = 1 } }

-- What the read gives.
after_read : ℕ × Ide
after_read = elim (atapi_read 3 packet_drive one_drive 0 0x10 1) [
  | some r ↦ r
  | none ↦ (0xff, one_drive)
]

atapi_read_confined_example :
    Extends (OnPorts 0x1f0 0x3f4) [] after_read.1.events
    × (after_read.1.devices ≡ one_drive.devices)
    × ((i : ℕ) → 0x800 ≤ i → after_read.1.buf i ≡ 0)
unfolding after_read atapi_read send_command receive finish reset_irq read_packet packet_words
    ide_polling while_status settle ide_wait_irq ide_write ide_read write_register read_register
    set_control register_port read_block event ide_irq status_error
atapi_read_confined_example =
    atapi_read_confined 3 packet_drive one_drive after_read.1 0 0x10 1 0 refl

ide_polling_lem_example :
    (j : ℕ) × (s' : Ide) × (ide_polling 3 packet_drive one_drive 0 1
      ≡ some (
        meaning (u8 (drive_status (repeated (suc j) (in_byte 0x1f7) (settled one_drive 0)) 0x1f7)),
        s',
      ))
    × (s'.events ≡ repeated (suc (suc j)) (in_byte 0x1f7) (settled one_drive 0))
    × (s'.channels ≡ channels)
    × IsClear packet_drive 0x80 0x1f7 (repeated j (in_byte 0x1f7) (settled one_drive 0))
    × (j ≤ 0)
unfolding repeated
ide_polling_lem_example = ide_polling_lem 3 0 packet_drive one_drive 0 (omega arith) refl

-- The place that the history has chosen on the first channel.
abbrev chosen : List Event → ℕ
chosen [] = 0xa0
chosen (e ∷ t) = elim e [ out_byte port v ↦ if port == 0x1f6 then v else chosen t | _ ↦ chosen t ]

-- A packet drive as the first one, and nothing else.
abbrev one_packet : Device
one_packet = record packet_drive {
  byte = λ t port.
      if port == 0x1f7
      then (if chosen t == 0xa0 then 0x01 else 0)
      else if port == 0x1f4
      then 0x14
      else if port == 0x1f5
      then 0xeb
      else 0;
}

abbrev places : (i j : ℕ) → Place
places zero zero = packet
places zero (suc j) = nothing
places (suc i) j = nothing

one_packet-Answers :
    (i j : ℕ) (t : List Event)
    → i < 2
    → j < 2
    → Answers 1 one_packet (channels i).base (asked (channels i).base i j t) (places i j)
unfolding Answers repeated
one_packet-Answers zero zero t hi hj =
    (λ e. omega (arith, e), 0, omega arith, ((λ j lt. ground arith), refl), inl (refl, refl))
one_packet-Answers zero (suc zero) t hi hj = refl
one_packet-Answers zero (suc (suc j)) t hi hj = ground arith
one_packet-Answers (suc zero) j t hi hj = refl
one_packet-Answers (suc (suc i)) j t hi hj = ground arith

detect_all-Lists_example :
    (s' : Ide) × (detect_all 1 one_packet idle ≡ some (1, s')) × Lists s'.devices 0 ((0, 0, 1) ∷ [])
unfolding Lists entry
detect_all-Lists_example =
    detect_all-Lists 1 one_packet idle places (λ m le lt. refl) one_packet-Answers
