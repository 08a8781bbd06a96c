-- ===== src/Drivers/Ramfs/Read.antt =====
-- What a read of a file in the RAM disk returns.
use balloon.Base.{
  ℕ, ◌+◌, ◌-◌, ◌≤◌, ◌<◌, ◌≡◌, ◌⊎◌, min, ltb, sym, ◌==◌, if◌then◌else◌, arith, inl, inr, Bool-cases,
}
use balloon.Ram.Access.{Ram, load32}
use balloon.Ram.Frame.{IsBytes, load32-lt}
use balloon.Libc.Memory.{memcpy}
use balloon.Libc.Memory.Copy.{within, memcpy_lem}
use balloon.Drivers.Ramfs.{file_header, file_offset, file_length, ramfs_read, read_fs}

-- A read of `size` bytes from `offset` on returns the number of bytes that are left of the file,
-- and `size` at most; it is 0 past the end. The sum of the two must not wrap.
pub ramfs_read_count :
    (m : Ram) (headers node offset size buffer : ℕ)
    → IsBytes m
    → offset + size < 0x1_0000_0000
    → (ramfs_read m headers node offset size buffer).0
      ≡ min size (file_length m headers node - offset)
unfolding ramfs_read
ramfs_read_count m headers node offset size buffer b h =
    ground (arith, load32-lt m (file_header m headers node + 69) b)

past_end :
    (m : Ram) (headers node offset size buffer : ℕ)
    → file_length m headers node < offset
    → ramfs_read m headers node offset size buffer ≡ (0, m)
unfolding ramfs_read
past_end m headers node offset size buffer past = ground arith

inside :
    (m : Ram) (headers node offset size buffer : ℕ)
    → IsBytes m
    → offset + size < 0x1_0000_0000
    → file_offset m headers node + file_length m headers node < 0x1_0000_0000
    → offset ≤ file_length m headers node
    → (let count = min size (file_length m headers node - offset) in
        ramfs_read m headers node offset size buffer
        ≡ (count, memcpy m buffer (file_offset m headers node + offset) count))
unfolding ramfs_read
inside m headers node offset size buffer b h fits within_file =
    grind (arith, load32-lt m (file_header m headers node + 69) b)

copied_bytes :
    (m : Ram) (headers node offset size buffer x : ℕ)
    → IsBytes m
    → offset + size < 0x1_0000_0000
    → file_offset m headers node + file_length m headers node < 0x1_0000_0000
    → (buffer ≤ file_offset m headers node + offset)
      ⊎ (file_offset m headers node + file_length m headers node ≤ buffer)
    → (ramfs_read m headers node offset size buffer).1 x ≡ (
        if within buffer (ramfs_read m headers node offset size buffer).0 x
        then m (file_offset m headers node + offset + (x - buffer))
        else m x)
unfolding ramfs_read
copied_bytes m headers node offset size buffer x b h fits apart =
    let length : ℕ = file_length m headers node in
    elim (Bool-cases (ltb length offset)) [
      | inl past ↦ rw (past_end m headers node offset size buffer (ground arith)) (ground arith)
      | inr not_past ↦ rw (inside m headers node offset size buffer b h fits (ground arith)) (
          ground (
            arith,
            memcpy_lem m buffer (file_offset m headers node + offset) (min size (length - offset)) x
                b (ground arith),
          ))
    ]

-- A read of `size` bytes from `offset` on counts the bytes that are left of the file, and `size` at
-- most. As many bytes of the file stand in the buffer afterwards, and nothing else changed. The sum
-- of offset and size must not wrap, the file ends below 2 ^ 32, and the buffer does not start inside
-- what is read.
pub ramfs_read_bytes :
    (m : Ram) (headers node offset size buffer : ℕ)
    → IsBytes m
    → offset + size < 0x1_0000_0000
    → file_offset m headers node + file_length m headers node < 0x1_0000_0000
    → (buffer ≤ file_offset m headers node + offset)
      ⊎ (file_offset m headers node + file_length m headers node ≤ buffer)
    → ((ramfs_read m headers node offset size buffer).0
        ≡ min size (file_length m headers node - offset))
      × ((x : ℕ)
          → (ramfs_read m headers node offset size buffer).1 x ≡ (
              if within buffer (min size (file_length m headers node - offset)) x
              then m (file_offset m headers node + offset + (x - buffer))
              else m x))
ramfs_read_bytes m headers node offset size buffer b h fits apart =
    let count = ramfs_read_count m headers node offset size buffer b h in
    (count, λ x. rw (sym count) (copied_bytes m headers node offset size buffer x b h fits apart))

-- A file system node reads through the function it names, and not at all if it names none.
pub read_fs-ramfs_read :
    (run : ℕ → Ram → (node offset size buffer : ℕ) → ℕ × Ram) (m : Ram)
    (headers node offset size buffer : ℕ)
    → IsBytes m
    → offset + size < 0x1_0000_0000
    → run (load32 m (node + 156)) m node offset size buffer
      ≡ ramfs_read m headers node offset size buffer
    → (read_fs run m node offset size buffer).0
      ≡ (if load32 m (node + 156) == 0 then 0 else min size (file_length m headers node - offset))
unfolding read_fs
read_fs-ramfs_read run m headers node offset size buffer b h installed =
    grind (arith, ramfs_read_count m headers node offset size buffer b h, installed)
