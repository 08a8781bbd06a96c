-- ===== src/Tests/Ramdisk.antt =====
-- A RAM disk with one file, and i2hex.
use balloon.Base.{
  ℕ, ◌+◌, ◌-◌, ◌*◌, ◌/◌, ◌%◌, ◌^◌, ◌≤◌, ◌<◌, ◌≡◌, refl, ◌⊎◌, inl, ◌&&◌, some, List, [], ◌∷◌, length,
  ltb, ◌==◌, if◌then◌else◌, arith,
}
use balloon.Ram.Access.{Ram, load32, store8, store32}
use balloon.Ram.Frame.{IsBytes, store8-IsBytes, store32-IsBytes}
use balloon.Libc.Strings.Text.{IsText}
use balloon.Libc.Hex.{i2hex}
use balloon.Libc.Hex.Digits.{hex_digit, i2hex_lem}
use balloon.Drivers.Ramfs.Mount.{Ramfs, mount_files}
use balloon.Drivers.Ramfs.Mount.File.{Untouched, Mounted}
use balloon.Drivers.Ramfs.Mount.Files.{Named, mount_files_all}
use balloon.Tests.States.{zeros, zeros-IsBytes}

i2hex_lem_example :
    ((j : ℕ)
      → j < 8
      → i2hex zeros 0x1a2b 0x9000 (0x9000 + j) ≡ (
          if ltb j 7 && (0x1a2b / 2 ^ (4 * (7 - j)) == 0)
          then 0
          else hex_digit (0x1a2b / 2 ^ (4 * (7 - j)) % 16)))
    × ((x : ℕ) → (x < 0x9000) ⊎ (0x9000 + 8 ≤ x) → i2hex zeros 0x1a2b 0x9000 x ≡ 0)
i2hex_lem_example = i2hex_lem zeros 0x1a2b 0x9000 (omega arith)

-- The disk at 0x8000 holds one file, named "a", at the offset 77.
abbrev disk_ram : Ram
disk_ram = store32 (store8 (store32 zeros 0x8000 1) 0x8005 b'a') 0x8045 77

disk_ram-IsBytes : IsBytes disk_ram
disk_ram-IsBytes =
    store32-IsBytes _ 0x8045 77
      (store8-IsBytes _ 0x8005 b'a' (store32-IsBytes _ 0x8000 1 zeros-IsBytes))

abbrev disk : Ramfs
disk = record { header = 0x8000; file_headers = 0x8004; nodes = 0x9000 }

abbrev file_names : ℕ → List ℕ
file_names i = b'a' ∷ []

disk_names : Named disk 1 file_names disk_ram 2 0
unfolding IsText store32 store8
disk_names j lo hi =
    let first : j ≡ 0 = omega arith in
    rw first ((refl, (λ e. omega (arith, e)), refl), omega arith, omega arith)

mount_files_all_example :
    (m' : Ram) × (mount_files 2 2 disk_ram disk 0x8000 0x10_0000 0 ≡ some m')
    × ((i : ℕ) → i < 1 → Mounted disk_ram m' disk 0x8000 0x10_0000 i (file_names i))
    × ((x : ℕ) → ((i : ℕ) → i < 1 → Untouched disk i (length (file_names i)) x) → m' x ≡ disk_ram x)
unfolding load32 store32 store8
mount_files_all_example =
    mount_files_all 2 2 disk_ram disk 1 0x8000 0x10_0000 file_names disk_ram-IsBytes
      (refl, inl (omega arith)) (omega arith) refl disk_names (omega arith)
