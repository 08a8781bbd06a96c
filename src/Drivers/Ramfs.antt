-- ===== src/Drivers/Ramfs.antt =====
-- source/drivers/fs/ramfs/ramfs.c, ramfs_read, and read_fs of source/kernel/vfs.c. The headers of
-- the files are packed, 73 bytes each: magic at 0, name at 1, offset at 65, length at 69.
-- In an fs_node_t the inode is at 144 and the pointer `read` at 156.
pub mod Mount
pub mod Read
use balloon.Base.{ℕ, ◌+◌, ◌*◌, ltb, ◌==◌, if◌then◌else◌, add32, sub32}
use balloon.Ram.Access.{Ram, load32}
use balloon.Libc.Memory.{memcpy}

-- &ramfs_file_headers[node->inode]
abbrev pub file_header : Ram → (headers node : ℕ) → ℕ
file_header m headers node = headers + 73 * load32 m (node + 144)

abbrev pub file_offset : Ram → (headers node : ℕ) → ℕ
file_offset m headers node = load32 m (file_header m headers node + 65)

abbrev pub file_length : Ram → (headers node : ℕ) → ℕ
file_length m headers node = load32 m (file_header m headers node + 69)

-- The number of bytes, and the memory after the copy.
unfoldable pub ramfs_read : Ram → (headers node offset size buffer : ℕ) → ℕ × Ram
ramfs_read m headers node offset size buffer =
    let length : ℕ = file_length m headers node in
    let size' : ℕ = if ltb length (add32 offset size) then sub32 length offset else size in
    if ltb length offset
    then (0, m)
    else (size', memcpy m buffer (add32 (file_offset m headers node) offset) size')

-- `run` calls the function at an address.
unfoldable pub read_fs :
    (run : ℕ → Ram → (node offset size buffer : ℕ) → ℕ × Ram)
    → Ram
    → (node offset size buffer : ℕ) → ℕ × Ram
read_fs run m node offset size buffer =
    let read : ℕ = load32 m (node + 156) in
    if read == 0 then (0, m) else run read m node offset size buffer
