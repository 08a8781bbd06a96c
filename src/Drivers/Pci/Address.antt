-- ===== src/Drivers/Pci/Address.antt =====
-- The address that a read of the configuration space sends, and what the scan reads there.
use balloon.Base.{
  ℕ, ◌+◌, ◌*◌, ◌/◌, ◌%◌, ◌<◌, ◌≡◌, [], ◌∷◌, arith, refl, ==_iff, all_below, all_below_sound, ◌==◌,
  if◌then◌else◌, bit_and, bit_or,
}
use balloon.Base.Bits.{bit_and_low, bit_or_fields, bit_or_comm}
use balloon.Drivers.Pci.{pci_address, pci_read_word, pci_scan_device}

aligned_offset : (offset : ℕ) → offset < 0x100 → bit_and offset 0xfc ≡ offset / 4 * 4
unfolding all_below
aligned_offset offset h =
    (==_iff _ _).0 (all_below_sound 0x100 (λ o. bit_and o 0xfc == o / 4 * 4) offset refl h)

-- The fields of the address do not overlap: bus, slot and function at their bits, the offset rounded
-- down to a multiple of 4, and the enable bit.
pub pci_address_lem :
    (bus slot func offset : ℕ)
    → bus < 0x100
    → slot < 32
    → func < 8
    → offset < 0x100
    → pci_address bus slot func offset
      ≡ 0x8000_0000 + bus * 0x1_0000 + slot * 0x800 + func * 0x100 + offset / 4 * 4
unfolding pci_address
pci_address_lem bus slot func offset hb hs hf ho =
    let bus_word : bus * 0x1_0000 % 0x1_0000_0000 ≡ bus * 0x1_0000 = omega arith in
    let slot_word : slot * 0x800 % 0x1_0000_0000 ≡ slot * 0x800 = omega arith in
    let func_word : func * 0x100 % 0x1_0000_0000 ≡ func * 0x100 = omega arith in
    let with_slot : bit_or (bus * 0x1_0000) (slot * 0x800) ≡ (bus * 32 + slot) * 0x800 =
      omega (arith, bit_or_fields 16 bus (slot * 0x800) (omega arith)) in
    let with_func : bit_or ((bus * 32 + slot) * 0x800) (func * 0x100)
        ≡ (bus * 256 + slot * 8 + func) * 0x100 =
      omega (arith, bit_or_fields 11 (bus * 32 + slot) (func * 0x100) (omega arith)) in
    let number : ℕ = (bus * 256 + slot * 8 + func) * 0x100 + offset / 4 * 4 in
    let with_offset : bit_or ((bus * 256 + slot * 8 + func) * 0x100) (offset / 4 * 4) ≡ number =
      bit_or_fields 8 (bus * 256 + slot * 8 + func) (offset / 4 * 4) (omega arith) in
    let enabled : bit_or number 0x8000_0000 ≡ 0x8000_0000 + number =
      omega (arith, bit_or_comm number 0x8000_0000, bit_or_fields 31 1 number (omega arith)) in
    rw (bus_word, slot_word, func_word, with_slot, with_func, aligned_offset offset ho)
      (rw (with_offset, enabled) (omega arith))

-- The scan of a device reports nothing exactly if the high half of its first configuration word is
-- 0xFFFF; the number it calls the vendor is that half, and the one it calls the device is the low
-- one.
pub pci_scan_device_lem :
    (config : ℕ → ℕ) (bus device : ℕ)
    → bus < 0x100
    → device < 32
    → pci_scan_device config bus device ≡ (
        let word = config (0x8000_0000 + bus * 0x1_0000 + device * 0x800) in
        if word / 0x1_0000 % 0x1_0000 == 0xffff
        then []
        else record { device = word % 0x1_0000; vendor = word / 0x1_0000 % 0x1_0000 } ∷ [])
unfolding pci_scan_device pci_read_word
pci_scan_device_lem config bus device hb hd =
    let word : ℕ = config (0x8000_0000 + bus * 0x1_0000 + device * 0x800) in
    let low : pci_address bus device 0 0 ≡ 0x8000_0000 + bus * 0x1_0000 + device * 0x800 =
      omega (arith, pci_address_lem bus device 0 0 hb hd (omega arith) (omega arith)) in
    let high : pci_address bus device 0 2 ≡ 0x8000_0000 + bus * 0x1_0000 + device * 0x800 =
      omega (arith, pci_address_lem bus device 0 2 hb hd (omega arith) (omega arith)) in
    rw (low, high, bit_and_low 16 (word / 0x1_0000), bit_and_low 16 (word / 1))
      (let whole : word / 1 ≡ word = omega arith in rw whole refl)
