-- ===== src/Drivers/Atapi/Kept.antt =====
-- What every operation of the ATAPI driver keeps is what the single accesses keep.
pub mod Ports
use balloon.Base.{
  ℕ, zero, suc, Bool, true, false, ◌+◌, ◌*◌, ◌<◌, ◌≤◌, ◌≡◌, refl, ◌&&◌, Bool-cases, inl, inr,
  Option, none, some, List, bit_and, bit_or, arith, leb, ltb, ◌==◌, if◌then◌else◌, u16,
}
use balloon.Heap.Skip.{◌>>=◌}
use balloon.Drivers.Atapi.{
  Device, Ide, Event, Message, in_byte, out_byte, out_words, wait, sleep, shown, event, read_block,
  register_port, is_high, write_register, set_control, ide_write, read_register, ide_read,
  ide_wait_irq, settle, while_status, ide_polling, reading, ide_read_buffer,
}
use balloon.Drivers.Atapi.Sectors.{
  read_packet, packet_words, reset_irq, send_command, receive, finish, atapi_read,
}

-- A property of the state that the accesses of one channel keep: those to a register below 0x0e,
-- the blocks at the base port `bus`, the events without a port, and the changes of the driver's
-- variables.
pub record Kept (dev : Device) (ch bus : ℕ) (P : Ide → Type 0) : Type 0 where
  pub in_port :
      (s : Ide) (reg port : ℕ)
      → reg < 0x0e
      → register_port (s.channels ch) reg ≡ some port
      → P s
      → P (event dev s (in_byte port))
  pub out_port :
      (s : Ide) (reg port v : ℕ)
      → reg < 0x0e
      → register_port (s.channels ch) reg ≡ some port
      → P s
      → P (event dev s (out_byte port v))
  pub wired : (s : Ide) → P s → (s.channels ch).base ≡ bus
  pub block : (s : Ide) (bytes : ℕ) → bytes ≤ 0x800 → P s → P (read_block dev s (u16 bus) bytes)
  pub words : (s : Ide) (ws : List ℕ) → P s → P (event dev s (out_words (u16 bus) ws))
  pub message : (s : Ide) (m : Message) → P s → P (event dev s (shown m))
  pub round : (s : Ide) → P s → P (event dev s wait)
  pub taken : (s : Ide) → P s → P (record s { irq_invoked = 0 })
  pub reset : (s : Ide) → P s → P (reset_irq s ch)
  pub packet : (s : Ide) (bytes : List ℕ) → P s → P (record s { atapi_packet = bytes })

-- A property of the result, if there is one.
unfoldable pub Sure {ℓ} : {A : Type ℓ} → (A → Type 0) → Option A → Type 0
Sure Q none = Unit {0}
Sure Q (some x) = Q x

pub Sure-bind {ℓ ℓ'} :
    {A : Type ℓ} {B : Type ℓ'} (Q : A → Type 0) (R : B → Type 0) (o : Option A) (f : A → Option B)
    → Sure Q o
    → ((x : A) → Q x → Sure R (f x))
    → Sure R (o >>= f)
unfolding Sure
Sure-bind Q R none f q h = record {}
Sure-bind Q R (some x) f q h = h x q

-- What both branches have.
pub if_both {ℓ} :
    {A : Type ℓ} (Q : A → Type 0) (b : Bool) (x y : A) → Q x → Q y → Q (if b then x else y)
if_both Q true x y h h' = h
if_both Q false x y h h' = h'

pub Sure-result {ℓ} :
    {A : Type ℓ} (Q : A → Type 0) (o : Option A) (x : A) → o ≡ some x → Sure Q o → Q x
unfolding Sure
Sure-result Q o x e q = rw e at q

-- A register below 0x0e has a port.
register_port_lem :
    (s : Ide) (ch reg : ℕ)
    → reg < 0x0e
    → (port : ℕ) × (register_port (s.channels ch) reg ≡ some port)
unfolding register_port
register_port_lem s ch reg h = elim (Bool-cases (ltb reg 0x08)) [
  | inl low ↦ rw low (_, refl)
  | inr low ↦ elim (Bool-cases (ltb reg 0x0c)) [
    | inl high ↦ rw (low, high) (_, refl)
    | inr high ↦
        let control : ltb reg 0x0e ≡ true = ground arith in rw (low, high, control) (_, refl)
  ]
]

module _ {dev : Device} {ch bus : ℕ} {P : Ide → Type 0} (kept : Kept dev ch bus P) where
  write_register-Kept : (s : Ide) (reg v : ℕ) → reg < 0x0e → P s → P (write_register dev s ch reg v)
  unfolding write_register
  write_register-Kept s reg v h p =
      let (port, here) = register_port_lem s ch reg h in
      rw (write_register, here) (kept.out_port s reg port v h here p)

  set_control-Kept : (s : Ide) (reg v : ℕ) → P s → P (set_control dev s ch reg v)
  unfolding set_control
  set_control-Kept s reg v p = elim (Bool-cases (is_high reg)) [
    | inl high ↦ rw high (write_register-Kept s 0x0c v (omega arith) p)
    | inr low ↦ rw low p
  ]

  pub ide_write-Kept : (s : Ide) (reg v : ℕ) → reg < 0x0e → P s → P (ide_write dev s ch reg v)
  unfolding ide_write
  ide_write-Kept s reg v h p =
      set_control-Kept _ reg _ (write_register-Kept _ reg v h (set_control-Kept s reg _ p))

  read_register-Kept : (s : Ide) (reg : ℕ) → reg < 0x0e → P s → P (read_register dev s ch reg).1
  unfolding read_register
  read_register-Kept s reg h p =
      let (port, here) = register_port_lem s ch reg h in
      rw (read_register, here) (kept.in_port s reg port h here p)

  pub ide_read-Kept : (s : Ide) (reg : ℕ) → reg < 0x0e → P s → P (ide_read dev s ch reg).1
  unfolding ide_read
  ide_read-Kept s reg h p =
      set_control-Kept _ reg _ (read_register-Kept _ reg h (set_control-Kept s reg _ p))

  settle-Kept : (rounds : ℕ) (s : Ide) → P s → P (settle rounds dev s ch)
  unfolding settle
  settle-Kept zero s p = p
  settle-Kept (suc rounds) s p =
      settle-Kept rounds (ide_read dev s ch 0x0c).1 (ide_read-Kept s 0x0c (omega arith) p)

  while_status-Kept :
      (fuel : ℕ) (s : Ide) (mask : ℕ) → P s → Sure P (while_status fuel dev s ch mask)
  unfolding while_status Sure
  while_status-Kept zero s mask p = record {}
  while_status-Kept (suc fuel) s mask p =
      let after = ide_read-Kept s 0x07 (omega arith) p in
      elim (Bool-cases (bit_and (ide_read dev s ch 0x07).0 mask == 0)) [
        | inl clear ↦ rw clear after
        | inr busy ↦ rw busy (while_status-Kept fuel (ide_read dev s ch 0x07).1 mask after)
      ]

  -- The second half of a result.
  abbrev pub Second {ℓ} : {A : Type ℓ} → A × Ide → Type 0
  Second (_, s) = P s

  ide_polling-Kept :
      (fuel : ℕ) (s : Ide) (check : ℕ) → P s → Sure Second (ide_polling fuel dev s ch check)
  unfolding ide_polling Sure
  ide_polling-Kept fuel s check p =
      Sure-bind P Second _ _ (while_status-Kept fuel _ 0x80 (settle-Kept 4 s p)) (λ s₁ p₁.
        elim (Bool-cases (check == 0)) [
          | inl plain ↦ rw plain p₁
          | inr advanced ↦ rw advanced (ide_read-Kept s₁ 0x07 (omega arith) p₁)
        ])

  ide_wait_irq-Kept : (fuel : ℕ) (s : Ide) → P s → Sure P (ide_wait_irq fuel dev s)
  unfolding ide_wait_irq Sure
  ide_wait_irq-Kept zero s p = record {}
  ide_wait_irq-Kept (suc fuel) s p = elim (Bool-cases (s.irq_invoked == 0)) [
    | inl idle ↦ rw idle (ide_wait_irq-Kept fuel (event dev s wait) (kept.round s p))
    | inr noted ↦ rw noted (kept.taken s p)
  ]

  pub ide_read_buffer-Kept :
      (s : Ide) (quads : ℕ) → quads ≤ 0x200 → P s → P (ide_read_buffer dev s ch 0x00 quads)
  unfolding ide_read_buffer register_port
  ide_read_buffer-Kept s quads few p =
      let s₁ = set_control dev s ch 0x00 (bit_or 0x80 (s.channels ch).nien) in
      let p₁ = set_control-Kept s 0x00 (bit_or 0x80 (s.channels ch).nien) p in
      let port : (s₁.channels ch).base + 0 ≡ bus = omega (arith, kept.wired s₁ p₁) in
      set_control-Kept _ 0x00 _ (rw port (kept.block s₁ (quads * 4) (omega arith) p₁))

  receive-Kept : (left fuel : ℕ) (s : Ide) → P s → Sure Second (receive left fuel dev s ch bus)
  unfolding receive Sure
  receive-Kept zero fuel s p = p
  receive-Kept (suc left) fuel s p = Sure-bind P Second _ _ (ide_wait_irq-Kept fuel s p) (λ s₁ p₁.
      Sure-bind Second Second _ _ (ide_polling-Kept fuel s₁ 1 p₁) (λ (err, s₂) p₂.
        elim (Bool-cases (err == 0)) [
          | inl ready ↦ rw ready (
              receive-Kept left fuel (read_block dev s₂ (u16 bus) (1024 * 2))
                (kept.block s₂ 2048 (omega arith) p₂))
          | inr failed ↦ rw failed p₂
        ]))

  finish-Kept : (fuel : ℕ) (s : Ide) → P s → Sure Second (finish fuel dev s ch)
  unfolding finish Sure
  finish-Kept fuel s p =
      Sure-bind P Second _ _ (ide_wait_irq-Kept fuel s p)
        (λ s₁ p₁. Sure-bind P Second _ _ (while_status-Kept fuel s₁ 0x88 p₁) (λ s₂ p₂. p₂))

  send_command-Kept :
      (s : Ide) (drive lba numsects : ℕ)
      → (s.devices drive).channel ≡ ch
      → P s
      → P (send_command dev s drive lba numsects)
  unfolding send_command
  send_command-Kept s drive lba numsects here p = rw here (
      ide_write-Kept _ 0x07 _ (omega arith) (
        ide_write-Kept _ 0x05 _ (omega arith) (
          ide_write-Kept _ 0x04 _ (omega arith) (
            ide_write-Kept _ 0x01 _ (omega arith) (
              settle-Kept 4 _ (
                ide_write-Kept _ 0x06 _ (omega arith) (
                  kept.packet _ _ (
                    ide_write-Kept _ 0x0c _ (omega arith)
                      (kept.reset _ (kept.message s (reading drive lba numsects) p))))))))))

  pub atapi_read-Kept :
      (fuel : ℕ) (s : Ide) (drive lba numsects : ℕ)
      → (s.devices drive).channel ≡ ch
      → P s
      → Sure Second (atapi_read fuel dev s drive lba numsects)
  unfolding atapi_read Sure
  atapi_read-Kept fuel s drive lba numsects here p =
      rw (here, kept.wired s p)
        (Sure-bind Second Second _ _
          (ide_polling-Kept fuel _ 1 (send_command-Kept s drive lba numsects here p))
          (λ (err, s₁) p₁. elim (Bool-cases (err == 0)) [
            | inl ready ↦ rw ready (
                Sure-bind Second Second _ _
                  (receive-Kept numsects fuel _ (kept.words s₁ (packet_words s₁.atapi_packet) p₁))
                  (λ (err', s₃) p₃. elim (Bool-cases (err' == 0)) [
                    | inl complete ↦ rw complete (finish-Kept fuel s₃ p₃)
                    | inr failed ↦ rw failed p₃
                  ]))
            | inr failed ↦ rw failed p₁
          ]))
