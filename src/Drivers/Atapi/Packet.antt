-- ===== src/Drivers/Atapi/Packet.antt =====
-- The packet of a read, as the drive receives it.
use balloon.Base.{ℕ, ◌+◌, ◌*◌, ◌/◌, ◌%◌, ◌<◌, ◌≡◌, refl, List, [], ◌∷◌, bit_and, arith, u8, ◌>>◌}
use balloon.Base.Bits.{bit_and_low}
use balloon.Drivers.Atapi.Sectors.{read_packet, packet_words}

-- The bytes of words, the low one first.
abbrev pub bytes_of : List ℕ → List ℕ
bytes_of [] = []
bytes_of (w ∷ ws) = w % 0x100 ∷ w / 0x100 % 0x100 ∷ bytes_of ws

two_bytes :
    (low high : ℕ) (words : List ℕ)
    → low < 0x100
    → high < 0x100
    → bytes_of ((low + 0x100 * high) ∷ words) ≡ low ∷ high ∷ bytes_of words
two_bytes low high words h h' =
    let first : (low + 0x100 * high) % 0x100 ≡ low = omega arith in
    let second : (low + 0x100 * high) / 0x100 % 0x100 ≡ high = omega arith in
    rw (first, second) refl

byte_mask : (a : ℕ) → u8 (bit_and a 0xff) ≡ a % 0x100
byte_mask a = omega (arith, bit_and_low 8 a)

-- The drive receives the opcode 0xA8, the number of the first sector with its high byte first, and
-- the number of sectors.
pub read_packet_lem :
    (lba numsects : ℕ)
    → lba < 0x1_0000_0000
    → numsects < 0x100
    → (b₃ b₂ b₁ b₀ : ℕ) × (bytes_of (packet_words (read_packet lba numsects))
        ≡ 0xa8 ∷ 0 ∷ b₃ ∷ b₂ ∷ b₁ ∷ b₀ ∷ 0 ∷ 0 ∷ 0 ∷ numsects ∷ 0 ∷ 0 ∷ [])
      × (((b₃ * 0x100 + b₂) * 0x100 + b₁) * 0x100 + b₀ ≡ lba)
unfolding read_packet packet_words
read_packet_lem lba numsects h h' =
    let b₃ = u8 (bit_and (lba >> 24) 0xff) in
    let b₂ = u8 (bit_and (lba >> 16) 0xff) in
    let b₁ = u8 (bit_and (lba >> 8) 0xff) in
    let b₀ = u8 (bit_and (lba >> 0) 0xff) in
    (
      b₃,
      b₂,
      b₁,
      b₀,
      rw
          (
            two_bytes b₃ b₂ ((b₁ + 0x100 * b₀) ∷ 0 ∷ (0 + 0x100 * numsects) ∷ 0 ∷ []) (omega arith)
                (omega arith),
            two_bytes b₁ b₀ (0 ∷ (0 + 0x100 * numsects) ∷ 0 ∷ []) (omega arith) (omega arith),
            two_bytes 0 numsects (0 ∷ []) (omega arith) h',
          )
          refl,
      omega (
        arith,
        byte_mask (lba >> 24),
        byte_mask (lba >> 16),
        byte_mask (lba >> 8),
        byte_mask (lba >> 0),
      ),
    )
