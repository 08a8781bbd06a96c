-- ===== src/Ram/Access.antt =====
-- Loads and stores of bytes and of 32-bit words.
use balloon.Base.{ℕ, ◌+◌, ◌*◌, ◌/◌, ◌==◌, if◌then◌else◌, u8}

abbrev pub Ram : Type 0
Ram = ℕ → ℕ

unfoldable pub store8 : Ram → ℕ → ℕ → Ram
store8 m a v x = if x == a then u8 v else m x

unfoldable pub load32 : Ram → ℕ → ℕ
load32 m a = m a + 0x100 * m (a + 1) + 0x1_0000 * m (a + 2) + 0x100_0000 * m (a + 3)

unfoldable pub store32 : Ram → ℕ → ℕ → Ram
unfolding store8
store32 m a v =
    store8 (store8 (store8 (store8 m a v) (a + 1) (v / 0x100)) (a + 2) (v / 0x1_0000)) (a + 3)
      (v / 0x100_0000)
