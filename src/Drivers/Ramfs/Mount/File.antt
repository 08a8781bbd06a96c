-- ===== src/Drivers/Ramfs/Mount/File.antt =====
-- What ramfs_mount leaves in the header of one file and in its node.
use balloon.Base.{
  ℕ, ◌+◌, ◌-◌, ◌*◌, ◌≤◌, ◌<◌, ◌≡◌, refl, ◌∙◌, ◌⊎◌, inl, inr, some, List, [], ◌∷◌, length, arith,
  if◌then◌else◌, add32,
}
use balloon.Ram.Access.{Ram, load32, store32}
use balloon.Ram.Frame.{IsBytes, store32-IsBytes, store32_outside, load32-store32_self, load32_ext}
use balloon.Libc.Memory.{memcpy}
use balloon.Libc.Memory.Copy.{within, memcpy_lem}
use balloon.Libc.Strings.Text.{IsText, strlen_lem}
use balloon.Drivers.Ramfs.Mount.{
  Ramfs, header_at, name_of, offset_of, node_size, node_at, inode_of, read_of, mount_file,
}

-- The byte `x` is none that the mount of the file `i` writes.
abbrev pub Untouched : Ramfs → (i len x : ℕ) → Type 0
Untouched fs i len x =
    ((x < offset_of (header_at fs.file_headers i))
      ⊎ (offset_of (header_at fs.file_headers i) + 4 ≤ x))
    × ((x < node_at fs.nodes i) ⊎ (node_at fs.nodes i + len ≤ x))
    × ((x < read_of (node_at fs.nodes i)) ⊎ (read_of (node_at fs.nodes i) + 4 ≤ x))

-- The node lies beside the header, and the address of ramfs_read is a word.
abbrev pub Apart : Ramfs → (n : ℕ) → Type 0
Apart fs n =
    (fs.header + 4 ≡ fs.file_headers)
    × ((fs.file_headers + 73 * n ≤ fs.nodes) ⊎ (fs.nodes + node_size * n ≤ fs.header))

-- The file `i` is mounted in `m'`, its header and node being as in `m` before.
pub record Mounted (m m' : Ram) (fs : Ramfs) (start ramfs_read i : ℕ) (name : List ℕ) : Type 0 where
  pub offset :
      load32 m' (offset_of (header_at fs.file_headers i))
      ≡ add32 (load32 m (offset_of (header_at fs.file_headers i))) start
  pub read : load32 m' (read_of (node_at fs.nodes i)) ≡ ramfs_read
  pub named :
      (j : ℕ)
      → j < length name
      → m' (node_at fs.nodes i + j) ≡ m (name_of (header_at fs.file_headers i) + j)
  pub inode : load32 m' (inode_of (node_at fs.nodes i)) ≡ load32 m (inode_of (node_at fs.nodes i))

pub IsText-kept :
    (m m' : Ram) (p : ℕ) (cs : List ℕ)
    → ((x : ℕ) → p ≤ x → x ≤ p + length cs → m' x ≡ m x)
    → IsText m p cs
    → IsText m' p cs
unfolding IsText
IsText-kept m m' p [] same t = same p (omega arith) (omega arith) ∙ t
IsText-kept m m' p (c ∷ cs) same (here, nonzero, t) = (
  same p (omega arith) (omega arith) ∙ here,
  nonzero,
  IsText-kept m m' (p + 1) cs (λ x lo hi. same x (omega arith) (omega arith)) t,
)

module _ (m : Ram) (fs : Ramfs) (n start ramfs_read : ℕ) (apart : Apart fs n)
    (word : ramfs_read < 0x1_0000_0000) where
  pub mount_file_lem :
      (fuel i : ℕ) (name : List ℕ)
      → IsBytes m
      → i < n
      → IsText m (name_of (header_at fs.file_headers i)) name
      → length name < 64
      → length name < fuel
      → (m' : Ram) × (mount_file fuel m fs start ramfs_read i ≡ some m')
        × IsBytes m'
        × Mounted m m' fs start ramfs_read i name
        × ((x : ℕ) → Untouched fs i (length name) x → m' x ≡ m x)
  unfolding mount_file
  mount_file_lem fuel i name bytes lt text short enough =
      let header = header_at fs.file_headers i in
      let node = node_at fs.nodes i in
      let m₁ = store32 m (offset_of header) (add32 (load32 m (offset_of header)) start) in
      let m₂ = memcpy m₁ node (name_of header) (length name) in
      let m₃ = store32 m₂ (read_of node) ramfs_read in
      let beside : (header + 73 ≤ node) ⊎ (node + node_size ≤ header) = ground (arith, apart) in
      let first : (x : ℕ) → (x < offset_of header) ⊎ (offset_of header + 4 ≤ x) → m₁ x ≡ m x =
        λ x out.
          store32_outside m (offset_of header) (add32 (load32 m (offset_of header)) start) x out in
      let text₁ =
        IsText-kept m m₁ (name_of header) name (λ x lo hi. first x (inl (omega arith))) text in
      let len = strlen_lem fuel m₁ (name_of header) name text₁ enough in
      let bytes₁ : IsBytes m₁ =
        store32-IsBytes m (offset_of header) (add32 (load32 m (offset_of header)) start) bytes in
      let copied : (x : ℕ)
          → m₂ x
            ≡ (if within node (length name) x then m₁ (name_of header + (x - node)) else m₁ x) =
        λ x. memcpy_lem m₁ node (name_of header) (length name) x bytes₁ (ground (arith, beside)) in
      let second : (x : ℕ) → (x < node) ⊎ (node + length name ≤ x) → m₂ x ≡ m₁ x =
        λ x out. ground (arith, copied x) in
      let third : (x : ℕ) → (x < read_of node) ⊎ (read_of node + 4 ≤ x) → m₃ x ≡ m₂ x =
        λ x out. store32_outside m₂ (read_of node) ramfs_read x out in
      let bytes₂ : IsBytes m₂ =
        λ x. ground (arith, copied x, bytes₁ x, bytes₁ (name_of header + (x - node))) in
      (
        m₃,
        rw len refl,
        store32-IsBytes m₂ (read_of node) ramfs_read bytes₂,
        record {
          offset =
              load32_ext m₃ m₁ (offset_of header)
                (λ x lo hi. third x (ground (arith, beside)) ∙ second x (ground (arith, beside)))
              ∙ load32-store32_self m (offset_of header) (add32 (load32 m (offset_of header)) start)
                  (omega arith);
          read = load32-store32_self m₂ (read_of node) ramfs_read word;
          named = λ j j_lt.
              third (node + j) (inl (omega arith))
              ∙ ground (arith, copied (node + j), first (name_of header + j));
          inode = load32_ext m₃ m (inode_of node) (λ x lo hi.
              third x (inl (omega arith))
              ∙ second x (inr (omega arith))
              ∙ first x (ground (arith, beside)));
        },
        λ x (o₁, o₂, o₃). third x o₃ ∙ second x o₂ ∙ first x o₁,
      )
