-- ===== src/Ram/Frame.antt =====
-- What a load sees after a store.
use balloon.Base.{ℕ, ◌+◌, ◌/◌, ◌%◌, ◌≤◌, ◌<◌, ◌≡◌, ◌⊎◌, arith}
use balloon.Ram.Access.{Ram, store8, load32, store32}

-- Every cell holds a byte.
abbrev pub IsBytes : Ram → Type 0
IsBytes m = (a : ℕ) → m a < 0x100

pub store8-IsBytes : (m : Ram) (a v : ℕ) → IsBytes m → IsBytes (store8 m a v)
unfolding store8
store8-IsBytes m a v h x = ground (arith, h x)

pub store32_bytes :
    (m : Ram) (a v : ℕ)
    → (store32 m a v a ≡ v % 0x100)
      × (store32 m a v (a + 1) ≡ v / 0x100 % 0x100)
      × (store32 m a v (a + 2) ≡ v / 0x1_0000 % 0x100)
      × (store32 m a v (a + 3) ≡ v / 0x100_0000 % 0x100)
unfolding store32
store32_bytes m a v = (ground arith, ground arith, ground arith, ground arith)

pub store32_outside : (m : Ram) (a v x : ℕ) → (x < a) ⊎ (a + 4 ≤ x) → store32 m a v x ≡ m x
unfolding store32
store32_outside m a v x h = ground arith

pub store32-IsBytes : (m : Ram) (a v : ℕ) → IsBytes m → IsBytes (store32 m a v)
unfolding store32
store32-IsBytes m a v h x = ground (arith, h x)

pub load32-store32_self : (m : Ram) (a v : ℕ) → v < 0x1_0000_0000 → load32 (store32 m a v) a ≡ v
unfolding load32
load32-store32_self m a v h = omega (arith, store32_bytes m a v)

pub load32-store32_apart :
    (m : Ram) (a v b : ℕ) → (b + 4 ≤ a) ⊎ (a + 4 ≤ b) → load32 (store32 m a v) b ≡ load32 m b
unfolding load32
load32-store32_apart m a v b h = ground (
  arith,
  store32_outside m a v b,
  store32_outside m a v (b + 1),
  store32_outside m a v (b + 2),
  store32_outside m a v (b + 3),
)

pub load32-lt : (m : Ram) (a : ℕ) → IsBytes m → load32 m a < 0x1_0000_0000
unfolding load32
load32-lt m a h = omega (arith, h a, h (a + 1), h (a + 2), h (a + 3))

-- A load depends on its four bytes alone.
pub load32_ext :
    (m n : Ram) (a : ℕ) → ((x : ℕ) → a ≤ x → x < a + 4 → m x ≡ n x) → load32 m a ≡ load32 n a
unfolding load32
load32_ext m n a h = omega (
  arith,
  h a (omega arith) (omega arith),
  h (a + 1) (omega arith) (omega arith),
  h (a + 2) (omega arith) (omega arith),
  h (a + 3) (omega arith) (omega arith),
)
