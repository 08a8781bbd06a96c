-- ===== src/Drivers/Ramfs/Mount.antt =====
-- ramfs_mount of source/drivers/fs/ramfs/ramfs.c. In multiboot_t mods_addr is at 24. The header of
-- the RAM disk is the word nfiles, and the headers of the files follow; a file system node has 160
-- bytes. The value that ramfs_mount should return has no place here: the source returns none.
pub mod File
pub mod Files
use balloon.Base.{
  ℕ, zero, suc, ◌+◌, ◌*◌, Option, none, some, List, [], ◌∷◌, ltb, if◌then◌else◌, add32, mul32,
}
use balloon.Ram.Access.{Ram, load32, store32}
use balloon.Machine.{Kernel, get}
use balloon.Libc.Memory.{memcpy}
use balloon.Libc.Strings.{strlen}
use balloon.Heap.Skip.{◌>>=◌}
use balloon.Heap.Place.{kmalloc}
use balloon.Console.{Console}
use balloon.Printf.Kprintf.{kprintf}

-- the pointers ramfs_header, ramfs_file_headers and ramfs_nodes
pub record Ramfs : Type 0 where
  pub header : ℕ
  pub file_headers : ℕ
  pub nodes : ℕ

-- &ramfs_file_headers[i] and its fields name and offset, &ramfs_nodes[i] and its fields
abbrev pub header_at : (headers i : ℕ) → ℕ
header_at headers i = headers + 73 * i

abbrev pub name_of : ℕ → ℕ
name_of header = header + 1

abbrev pub offset_of : ℕ → ℕ
offset_of header = header + 65

abbrev pub node_size : ℕ
node_size = 160

abbrev pub node_at : (nodes i : ℕ) → ℕ
node_at nodes i = nodes + node_size * i

abbrev pub inode_of : ℕ → ℕ
inode_of node = node + 144

abbrev pub read_of : ℕ → ℕ
read_of node = node + 156

-- One turn of the loop; `ramfs_read` is the address of the function. `none`: the name has no end.
unfoldable pub mount_file : (fuel : ℕ) → Ram → Ramfs → (start ramfs_read i : ℕ) → Option Ram
mount_file fuel m fs start ramfs_read i =
    let header = header_at fs.file_headers i in
    let m₁ = store32 m (offset_of header) (add32 (load32 m (offset_of header)) start) in
    strlen fuel m₁ (name_of header) >>= λ len.
    let m₂ = memcpy m₁ (node_at fs.nodes i) (name_of header) len in
    some (store32 m₂ (read_of (node_at fs.nodes i)) ramfs_read)

-- for (; i < ramfs_header->nfiles; i++), for `rounds` turns at most
unfoldable pub mount_files : (fuel rounds : ℕ) → Ram → Ramfs → (start ramfs_read i : ℕ) → Option Ram
mount_files fuel zero m fs start ramfs_read i = none
mount_files fuel (suc rounds) m fs start ramfs_read i =
    let rest = mount_file fuel m fs start ramfs_read i >>= λ m'.
    mount_files fuel rounds m' fs start ramfs_read (i + 1) in
    if ltb i (load32 m fs.header) then rest else some m

-- "%d files in ramdisk"
abbrev pub files_message : List ℕ
files_message =
    b'%' ∷ b'd' ∷ b' ' ∷ b'f' ∷ b'i' ∷ b'l' ∷ b'e' ∷ b's' ∷ b' ' ∷ b'i' ∷ b'n' ∷ b' ' ∷ b'r' ∷ b'a'
    ∷ b'm' ∷ b'd' ∷ b'i' ∷ b's' ∷ b'k' ∷ []

unfoldable pub ramfs_mount :
    (fuel rounds : ℕ)
    → Kernel
    → Console
    → (multiboot ramfs_read : ℕ) → Option (Kernel × Console × Ramfs)
ramfs_mount fuel rounds k s multiboot ramfs_read =
    let start = get k (get k (multiboot + 24)) in
    kmalloc fuel k (mul32 node_size (get k start)) >>= λ (nodes, phys, k₁).
    let fs : Ramfs = record { header = start; file_headers = start + 4; nodes = nodes } in
    mount_files fuel rounds k₁.ram fs start ramfs_read 0 >>= λ m.
    kprintf fuel s m files_message (λ _. load32 m start) >>= λ (s', m').
    some (record k₁ { ram = m' }, s', fs)
