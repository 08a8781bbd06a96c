-- ===== src/Drivers/Pci.antt =====
-- source/drivers/bus/pci.c. `config` is what the port 0xCFC answers when the address is at 0xCF8.
-- A report is the message of kprintf, with its two numbers.
pub mod Address
use balloon.Base.{
  ℕ, zero, suc, ◌+◌, ◌*◌, List, [], ◌∷◌, ◌++◌, bit_and, bit_or, ◌==◌, if◌then◌else◌, ◌<<◌, ◌>>◌,
}

pub record Report : Type 0 where
  pub device : ℕ
  pub vendor : ℕ

-- The word that is sent to the port 0xCF8.
unfoldable pub pci_address : (bus slot func offset : ℕ) → ℕ
pci_address bus slot func offset =
    bit_or (bit_or (bit_or (bit_or (bus << 16) (slot << 11)) (func << 8)) (bit_and offset 0xfc))
      0x8000_0000

unfoldable pub pci_read_word : (config : ℕ → ℕ) → (bus slot func offset : ℕ) → ℕ
pci_read_word config bus slot func offset =
    bit_and (config (pci_address bus slot func offset) >> (bit_and offset 2 * 8)) 0xffff

unfoldable pub pci_scan_device : (config : ℕ → ℕ) → (bus device : ℕ) → List Report
pci_scan_device config bus device =
    let vendor : ℕ = pci_read_word config bus device 0 2 in
    let did : ℕ = pci_read_word config bus device 0 0 in
    if vendor == 0xffff then [] else record { device = did; vendor = vendor } ∷ []

-- The loop over the devices, from `device` on.
unfoldable pub scan_devices : (config : ℕ → ℕ) → (bus device left : ℕ) → List Report
scan_devices config bus device zero = []
scan_devices config bus device (suc left) =
    pci_scan_device config bus device ++ scan_devices config bus (device + 1) left

unfoldable pub pci_scan_bus : (config : ℕ → ℕ) → (bus : ℕ) → List Report
pci_scan_bus config bus = scan_devices config bus 0 32

unfoldable pub pci_scan : (config : ℕ → ℕ) → List Report
pci_scan config = pci_scan_bus config 0
