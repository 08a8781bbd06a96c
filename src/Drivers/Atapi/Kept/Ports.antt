-- ===== src/Drivers/Atapi/Kept/Ports.antt =====
-- A read of a drive accesses the ports of the drive's channel and no other, and writes nothing of
-- the driver's tables.
use balloon.Base.{
  ℕ, true, ◌+◌, ◌-◌, ◌<◌, ◌≤◌, ◌≡◌, refl, sym, ap, Bool-cases, inl, inr, ◌⊎◌, some, List, ◌∷◌,
  arith, ltb, ◌==◌, if◌then◌else◌, u8, u16,
}
use balloon.Drivers.Atapi.{
  Device, Channel, Ide, Event, in_byte, out_byte, in_block, out_words, wait, sleep, shown, event,
  ide_irq, read_block, register_port,
}
use balloon.Drivers.Atapi.Sectors.{reset_irq, atapi_read}
use balloon.Drivers.Atapi.Kept.{Kept, Sure-result, atapi_read-Kept}

-- A port of the channel whose base port is `b` and whose control port is `k`.
abbrev pub OnChannel : (b k port : ℕ) → Type 0
OnChannel b k port =
    ((i : ℕ) × (i < 8) × (port ≡ u16 (b + i))) ⊎ ((i : ℕ) × (i < 2) × (port ≡ u16 (k + 2 + i)))

-- An event that accesses no port, or one of the channel.
abbrev pub OnPorts : (b k : ℕ) → Event → Type 0
OnPorts b k (in_byte port) = OnChannel b k port
OnPorts b k (out_byte port v) = OnChannel b k port
OnPorts b k (in_block port bytes) = OnChannel b k port
OnPorts b k (out_words port words) = OnChannel b k port
OnPorts b k wait = Unit {0}
OnPorts b k (sleep msec) = Unit {0}
OnPorts b k (shown m) = Unit {0}

-- The history goes on from `old` with events that are all `Q`.
pub data Extends (Q : Event → Type 0) (old : List Event) : List Event → Type 0 where
  start : Extends Q old old
  next : {e : Event} {es : List Event} → Q e → Extends Q old es → Extends Q old (e ∷ es)

register_port-OnChannel :
    (c : Channel) (reg port : ℕ)
    → reg < 0x0e
    → register_port c reg ≡ some port
    → OnChannel c.base c.ctrl port
unfolding register_port
register_port-OnChannel c reg port h e = elim (Bool-cases (ltb reg 0x08)) [
  | inl low ↦ inl (reg, ground arith, ground arith)
  | inr low ↦ elim (Bool-cases (ltb reg 0x0c)) [
    | inl high ↦ inl (reg - 6, ground arith, ground arith)
    | inr high ↦ inr (reg - 0x0c, ground arith, ground arith)
  ]
]

-- What a read keeps.
unfoldable pub Confined : (b k ch : ℕ) → Ide → Ide → Type 0
Confined b k ch s s' =
    ((s'.channels ch).base ≡ b)
    × ((s'.channels ch).ctrl ≡ k)
    × Extends (OnPorts b k) s.events s'.events
    × (s'.devices ≡ s.devices)
    × ((i : ℕ) → 0x800 ≤ i → s'.buf i ≡ s.buf i)

event-Confined :
    (dev : Device) (b k ch : ℕ) (s s' : Ide) (e : Event)
    → OnPorts b k e
    → Confined b k ch s s'
    → Confined b k ch s (event dev s' e)
unfolding Confined event ide_irq
event-Confined dev b k ch s s' e on (base, ctrl, es, devices, buf) =
    elim (Bool-cases (dev.irq (e ∷ s'.events))) [
      | inl raised ↦ rw raised (base, ctrl, next on es, devices, buf)
      | inr quiet ↦ rw quiet (base, ctrl, next on es, devices, buf)
    ]

read_block-Confined :
    (dev : Device) (b k ch : ℕ) (s s' : Ide) (port bytes : ℕ)
    → OnChannel b k port
    → bytes ≤ 0x800
    → Confined b k ch s s'
    → Confined b k ch s (read_block dev s' port bytes)
unfolding Confined read_block
read_block-Confined dev b k ch s s' port bytes on few (base, ctrl, es, devices, buf) =
    let old : ℕ → ℕ = s'.buf in
    event-Confined dev b k ch s
      (record s' { buf = λ i. if ltb i bytes then u8 (dev.stream s'.events port i) else old i })
      (in_block port bytes) on (base, ctrl, es, devices, λ i h. ground (arith, buf i h))

register_port-Confined :
    (b k ch : ℕ) (s s' : Ide) (reg port : ℕ)
    → reg < 0x0e
    → register_port (s'.channels ch) reg ≡ some port
    → Confined b k ch s s'
    → OnChannel b k port
unfolding Confined
register_port-Confined b k ch s s' reg port h e (base, ctrl, es, devices, buf) =
    let on = register_port-OnChannel (s'.channels ch) reg port h e in rw (sym base, sym ctrl) on

base-OnChannel : (b k : ℕ) → OnChannel b k (u16 b)
base-OnChannel b k =
    let here : b ≡ b + 0 = omega arith in inl (0, omega arith, ap (λ (p : ℕ). u16 p) here)

reset_irq-Confined :
    (b k ch : ℕ) (s s' : Ide) → Confined b k ch s s' → Confined b k ch s (reset_irq s' ch)
unfolding Confined reset_irq
reset_irq-Confined b k ch s s' (base, ctrl, es, devices, buf) =
    let self : (ch == ch) ≡ true = ground arith in (rw self base, rw self ctrl, es, devices, buf)

pub Confined-Kept : (dev : Device) (b k ch : ℕ) (s : Ide) → Kept dev ch b (Confined b k ch s)
unfolding Confined
Confined-Kept dev b k ch s = record {
  in_port = λ s' reg port h e c.
      event-Confined dev b k ch s s' (in_byte port)
        (register_port-Confined b k ch s s' reg port h e c) c;
  out_port = λ s' reg port v h e c.
      event-Confined dev b k ch s s' (out_byte port v)
        (register_port-Confined b k ch s s' reg port h e c) c;
  wired = λ s' c. c.0;
  block = λ s' bytes few c.
      read_block-Confined dev b k ch s s' (u16 b) bytes (base-OnChannel b k) few c;
  words = λ s' ws c. event-Confined dev b k ch s s' (out_words (u16 b) ws) (base-OnChannel b k) c;
  message = λ s' m c. event-Confined dev b k ch s s' (shown m) (record {}) c;
  round = λ s' c. event-Confined dev b k ch s s' wait (record {}) c;
  taken = λ s' c. c;
  reset = λ s' c. reset_irq-Confined b k ch s s' c;
  packet = λ s' bytes c. c;
}

-- Where atapi_read ends, with or without an error, each access to a port was to one of the eight
-- ports at the base of the drive's channel or to its two control ports, the table of the drives
-- is as before, and so is the memory behind the 2048 bytes of ide_buf.
pub atapi_read_confined :
    (fuel : ℕ) (dev : Device) (s s' : Ide) (drive lba numsects err : ℕ)
    → atapi_read fuel dev s drive lba numsects ≡ some (err, s')
    → Extends
        (OnPorts
          (s.channels (s.devices drive).channel).base
          (s.channels (s.devices drive).channel).ctrl)
        s.events
        s'.events
      × (s'.devices ≡ s.devices)
      × ((i : ℕ) → 0x800 ≤ i → s'.buf i ≡ s.buf i)
unfolding Confined
atapi_read_confined fuel dev s s' drive lba numsects err e =
    let ch = (s.devices drive).channel in
    let b = (s.channels ch).base in
    let k = (s.channels ch).ctrl in
    let kept =
      atapi_read-Kept (Confined-Kept dev b k ch s) fuel s drive lba numsects refl
        (refl, refl, start, refl, λ i h. refl) in
    let (base, ctrl, es, devices, buf) = Sure-result _ _ (err, s') e kept in (es, devices, buf)
