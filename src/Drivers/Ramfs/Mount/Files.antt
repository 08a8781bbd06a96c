-- ===== src/Drivers/Ramfs/Mount/Files.antt =====
-- What ramfs_mount leaves in the headers of the files and in their nodes.
use mathlib.Core.Path.{subst}
use balloon.Base.{
  ℕ, zero, suc, ◌+◌, ◌≤◌, ◌<◌, ◌≡◌, ◌≢◌, refl, sym, ◌∙◌, ap, ◌⊎◌, inl, inr, Bool-cases, true, false,
  some, List, length, arith, ltb, ◌==◌, add32,
}
use balloon.Ram.Access.{Ram, load32}
use balloon.Ram.Frame.{IsBytes, load32_ext}
use balloon.Libc.Strings.Text.{IsText}
use balloon.Drivers.Ramfs.Mount.{
  Ramfs, header_at, name_of, offset_of, node_size, node_at, inode_of, read_of, mount_file,
  mount_files,
}
use balloon.Drivers.Ramfs.Mount.File.{Untouched, Apart, Mounted, IsText-kept, mount_file_lem}

-- The byte `x` is one of the header or of the node of the file `i`.
abbrev pub OfFile : Ramfs → (i x : ℕ) → Type 0
OfFile fs i x =
    ((header_at fs.file_headers i ≤ x) × (x < header_at fs.file_headers i + 73))
    ⊎ ((node_at fs.nodes i ≤ x) × (x < node_at fs.nodes i + node_size))

-- Only the bytes of the file count.
Mounted-same :
    (m m₁ n n₁ : Ram) (fs : Ramfs) (start ramfs_read i : ℕ) (name : List ℕ)
    → length name < 64
    → ((x : ℕ) → OfFile fs i x → m x ≡ n x)
    → ((x : ℕ) → OfFile fs i x → m₁ x ≡ n₁ x)
    → Mounted n n₁ fs start ramfs_read i name
    → Mounted m m₁ fs start ramfs_read i name
Mounted-same m m₁ n n₁ fs start ramfs_read i name short old new mounted =
    let header = header_at fs.file_headers i in
    let node = node_at fs.nodes i in
    record {
      offset =
          load32_ext m₁ n₁ (offset_of header) (λ x lo hi. new x (inl (omega arith, omega arith)))
          ∙ mounted.offset
          ∙ ap (λ w. add32 w start)
              (sym (
                load32_ext m n (offset_of header)
                  (λ x lo hi. old x (inl (omega arith, omega arith)))));
      read =
          load32_ext m₁ n₁ (read_of node) (λ x lo hi. new x (inr (omega arith, omega arith)))
          ∙ mounted.read;
      named = λ j lt.
          new (node + j) (inr (omega arith, omega arith))
          ∙ mounted.named j lt
          ∙ sym (old (name_of header + j) (inl (omega arith, omega arith)));
      inode =
          load32_ext m₁ n₁ (inode_of node) (λ x lo hi. new x (inr (omega arith, omega arith)))
          ∙ mounted.inode
          ∙ sym
              (load32_ext m n (inode_of node) (λ x lo hi. old x (inr (omega arith, omega arith))));
    }

other-Untouched :
    (fs : Ramfs) (n i j len x : ℕ)
    → Apart fs n
    → i < n
    → j < n
    → i ≢ j
    → len < 64
    → OfFile fs j x
    → Untouched fs i len x
other-Untouched fs n i j len x apart hi hj ne short here =
    (ground (arith, apart, here), ground (arith, apart, here), ground (arith, apart, here))

mount_files_step :
    (fuel rounds : ℕ) (m m₁ : Ram) (fs : Ramfs) (start ramfs_read i n : ℕ)
    → load32 m fs.header ≡ n
    → ltb i n ≡ true
    → mount_file fuel m fs start ramfs_read i ≡ some m₁
    → mount_files fuel (suc rounds) m fs start ramfs_read i
      ≡ mount_files fuel rounds m₁ fs start ramfs_read (i + 1)
unfolding mount_files
mount_files_step fuel rounds m m₁ fs start ramfs_read i n count more run =
    rw (count, more, run) refl

mount_files_end :
    (fuel rounds : ℕ) (m : Ram) (fs : Ramfs) (start ramfs_read i n : ℕ)
    → load32 m fs.header ≡ n
    → ltb i n ≡ false
    → mount_files fuel (suc rounds) m fs start ramfs_read i ≡ some m
unfolding mount_files
mount_files_end fuel rounds m fs start ramfs_read i n count all = rw (count, all) refl

header-Untouched :
    (fs : Ramfs) (n i len x : ℕ)
    → Apart fs n
    → i < n
    → len < 64
    → fs.header ≤ x
    → x < fs.header + 4
    → Untouched fs i len x
header-Untouched fs n i len x apart lt short lo hi =
    (ground (arith, apart), ground (arith, apart), ground (arith, apart))

-- the names of the files from `i` on stand in their headers
abbrev pub Named : Ramfs → (n : ℕ) → (ℕ → List ℕ) → Ram → (fuel i : ℕ) → Type 0
Named fs n names m fuel i =
    (j : ℕ)
    → i ≤ j
    → j < n
    → IsText m (name_of (header_at fs.file_headers j)) (names j)
      × (length (names j) < 64)
      × (length (names j) < fuel)

module _ (fs : Ramfs) (n start ramfs_read : ℕ) (names : ℕ → List ℕ) (apart : Apart fs n)
    (word : ramfs_read < 0x1_0000_0000) where
  -- The files from `i` on are mounted, and the rest of memory is as it was.
  abbrev pub MountedFrom : (m m' : Ram) (i : ℕ) → Type 0
  MountedFrom m m' i =
      ((j : ℕ) → i ≤ j → j < n → Mounted m m' fs start ramfs_read j (names j))
      × ((x : ℕ) → ((j : ℕ) → i ≤ j → j < n → Untouched fs j (length (names j)) x) → m' x ≡ m x)

  module _ (m m₁ : Ram) (fuel i : ℕ) (named : Named fs n names m fuel i) (lt : i < n)
      (frame : (x : ℕ) → Untouched fs i (length (names i)) x → m₁ x ≡ m x) where
    kept : (j x : ℕ) → suc i ≤ j → j < n → OfFile fs j x → m₁ x ≡ m x
    kept j x lo hi here = frame x (
        other-Untouched fs n i j (length (names i)) x apart lt hi (omega arith)
          (named i (omega arith) lt).1 here)

    count-kept : load32 m₁ fs.header ≡ load32 m fs.header
    count-kept = load32_ext m₁ m fs.header (λ x lo hi.
        frame x (
          header-Untouched fs n i (length (names i)) x apart lt (named i (omega arith) lt).1 lo hi))

    Named-kept : Named fs n names m₁ fuel (i + 1)
    Named-kept j lo hi =
        let (text, short, fits) = named j (omega arith) hi in
        (
          IsText-kept m m₁ (name_of (header_at fs.file_headers j)) (names j)
              (λ x from to. kept j x (omega arith) hi (inl (omega arith, omega arith))) text,
          short,
          fits,
        )

    next-MountedFrom :
        (m' : Ram)
        → Mounted m m₁ fs start ramfs_read i (names i)
        → MountedFrom m₁ m' (i + 1)
        → MountedFrom m m' i
    next-MountedFrom m' mounted (others, frame') =
        let later : (x : ℕ) → OfFile fs i x → m' x ≡ m₁ x = λ x here. frame' x (λ j lo hi.
          other-Untouched fs n j i (length (names j)) x apart hi lt (omega arith)
            (named j (omega arith) hi).1 here) in
        (
          λ j lo hi. elim (Bool-cases (j == i)) [
            | inl here ↦
                let e : i ≡ j = ground arith in
                subst (λ f. Mounted m m' fs start ramfs_read f (names f)) e
                  (Mounted-same m m' m m₁ fs start ramfs_read i (names i)
                    (named i (omega arith) lt).1 (λ x h. refl) later mounted)
            | inr other ↦
                let above : suc i ≤ j = ground arith in
                Mounted-same m m' m₁ m' fs start ramfs_read j (names j) (named j lo hi).1
                  (λ x h. sym (kept j x above hi h)) (λ x h. refl) (others j (omega arith) hi)
          ],
          λ x out. frame' x (λ j lo hi. out j (omega arith) hi) ∙ frame x (out i (omega arith) lt),
        )

  mount_files_lem :
      (fuel rounds : ℕ) (m : Ram) (i : ℕ)
      → IsBytes m
      → load32 m fs.header ≡ n
      → Named fs n names m fuel i
      → i ≤ n
      → n < i + rounds
      → (m' : Ram) × (mount_files fuel rounds m fs start ramfs_read i ≡ some m')
        × MountedFrom m m' i
  mount_files_lem fuel zero m i bytes count named le enough = absurd (omega arith)
  mount_files_lem fuel (suc rounds) m i bytes count named le enough = elim (Bool-cases (ltb i n)) [
    | inr all ↦
        let same : n ≡ i = ground arith in
        (
          m,
          mount_files_end fuel rounds m fs start ramfs_read i n count all,
          (λ j lo hi. absurd (omega arith), λ x out. refl),
        )
    | inl more ↦
        let lt : i < n = ground arith in
        let (text, short, fits) = named i (omega arith) lt in
        let (m₁, run, bytes₁, mounted, frame) =
          mount_file_lem m fs n start ramfs_read apart word fuel i (names i) bytes lt text short
            fits in
        let (m', rest, done) =
          mount_files_lem fuel rounds m₁ (i + 1) bytes₁
            (count-kept m m₁ fuel i named lt frame ∙ count) (Named-kept m m₁ fuel i named lt frame)
            (omega arith) (omega arith) in
        (
          m',
          mount_files_step fuel rounds m m₁ fs start ramfs_read i n count more run ∙ rest,
          next-MountedFrom m m₁ fuel i named lt frame m' mounted done,
        )
  ]

-- The loop of ramfs_mount, over the headers of `n` files whose names end within their 64 bytes, with
-- the nodes beside the RAM disk: it ends, each header's offset has become an address, each node has
-- the file's name and the address of ramfs_read, and the memory around is as it was. The inode of a
-- node is not written, so ramfs_read takes the number that the memory held there.
pub mount_files_all :
    (fuel rounds : ℕ) (m : Ram) (fs : Ramfs) (n start ramfs_read : ℕ) (names : ℕ → List ℕ)
    → IsBytes m
    → Apart fs n
    → ramfs_read < 0x1_0000_0000
    → load32 m fs.header ≡ n
    → Named fs n names m fuel 0
    → n < rounds
    → (m' : Ram) × (mount_files fuel rounds m fs start ramfs_read 0 ≡ some m')
      × ((i : ℕ) → i < n → Mounted m m' fs start ramfs_read i (names i))
      × ((x : ℕ) → ((i : ℕ) → i < n → Untouched fs i (length (names i)) x) → m' x ≡ m x)
mount_files_all fuel rounds m fs n start ramfs_read names bytes apart word count named enough =
    let (m', run, (mounted, frame)) =
      mount_files_lem fs n start ramfs_read names apart word fuel rounds m 0 bytes count named
        (omega arith) (omega arith) in
    (m', run, λ i lt. mounted i (omega arith) lt, λ x out. frame x (λ j lo hi. out j hi))
