-- ===== src/Console/Put.antt =====
-- The cursor under console_putchar.
use mathlib.Core.List.{append_assoc}
use balloon.Base.{
  ℕ, suc, ◌+◌, ◌-◌, ◌*◌, ◌/◌, ◌≤◌, ◌<◌, ◌≡◌, refl, ◌&&◌, arith, ltb, leb, ◌==◌, if◌then◌else◌,
  bit_and, ◌||◌, min, length, List, [], ◌∷◌, ◌++◌, u8, u16, add32,
}
use balloon.Base.Bits.{bit_and_low, bit_and_high}
use balloon.Console.{
  Console, console_scroll, console_move_cursor, put_glyph, console_putchar, console_puts, outb,
}

-- The row stays on the screen.
pub console_putchar-row : (s : Console) (c : ℕ) → s.y_pos < 25 → (console_putchar s c).y_pos < 25
unfolding console_putchar console_move_cursor console_scroll put_glyph outb
console_putchar-row s c h = ground arith

-- The row moves at a newline only, and stops at the last one.
console_putchar_row :
    (s : Console) (c : ℕ)
    → s.y_pos < 25
    → (console_putchar s c).y_pos ≡ (if c == 10 then min (s.y_pos + 1) 24 else s.y_pos)
unfolding console_putchar console_move_cursor console_scroll put_glyph outb
console_putchar_row s c h = ground arith

abbrev pub newlines : List ℕ → ℕ
newlines [] = 0
newlines (c ∷ txt) = if c == 10 then suc (newlines txt) else newlines txt

-- From a y_pos below 25 a printed text moves y_pos on by its newlines, and 24 at most. Nothing is
-- said of x_pos, which has no such bound.
pub console_puts-row :
    (s : Console) (txt : List ℕ)
    → s.y_pos < 25
    → (console_puts s txt).y_pos ≡ min (s.y_pos + newlines txt) 24
unfolding console_puts
console_puts-row s [] h = omega arith
console_puts-row s (c ∷ txt) h =
    let row = console_putchar_row s c h in
    let rest = console_puts-row (console_putchar s c) txt (console_putchar-row s c h) in
    ground (arith, row, rest)

-- A tab moves to the next multiple of 8.
tab_lem : (x : ℕ) → x + 8 < 0x1_0000_0000 → bit_and (add32 x 8) 0xffff_fff8 ≡ x / 8 * 8 + 8
tab_lem x h = omega (arith, bit_and_high 3 (add32 x 8) 0x1fff_ffff, bit_and_low 29 (add32 x 8 / 8))

-- Where the cursor goes from a row of the screen: back a cell, to the next multiple of 8, to the
-- start of the row, to the start of the next row or of the last one, or on by a cell; another
-- control character, and a byte from 128 on, leave it.
pub console_putchar_cursor :
    (s : Console) (c : ℕ)
    → s.y_pos < 25
    → s.x_pos + 8 < 0x1_0000_0000
    → ((console_putchar s c).x_pos ≡ (
        if c == 8 && ltb 0 s.x_pos
        then s.x_pos - 1
        else if c == 9
        then s.x_pos / 8 * 8 + 8
        else if c == 13 || c == 10
        then 0
        else if leb 32 c && ltb c 128
        then s.x_pos + 1
        else s.x_pos))
      × ((console_putchar s c).y_pos ≡ (if c == 10 then min (s.y_pos + 1) 24 else s.y_pos))
unfolding console_putchar console_move_cursor console_scroll put_glyph outb
console_putchar_cursor s c row small = ground (arith, tab_lem s.x_pos small)

-- Characters that are printed.
abbrev pub Printable : List ℕ → Type 0
Printable [] = Unit {0}
Printable (c ∷ txt) = ((32 ≤ c) × (c < 128)) × Printable txt

console_putchar_printable :
    (s : Console) (c : ℕ)
    → 32 ≤ c
    → c < 128
    → s.y_pos < 25
    → s.x_pos + 8 < 0x1_0000_0000
    → ((console_putchar s c).x_pos ≡ s.x_pos + 1) × ((console_putchar s c).y_pos ≡ s.y_pos)
console_putchar_printable s c lo hi row small = ground (arith, console_putchar_cursor s c row small)

-- A printed text moves the cursor on by its length within its row, however long it is: there is
-- no break at the 80th cell, so a long text runs into the rows below and, from the last row, into
-- the memory behind the screen.
pub console_puts_no_wrap :
    (s : Console) (txt : List ℕ)
    → Printable txt
    → s.y_pos < 25
    → s.x_pos + length txt + 8 < 0x1_0000_0000
    → ((console_puts s txt).x_pos ≡ s.x_pos + length txt) × ((console_puts s txt).y_pos ≡ s.y_pos)
unfolding console_puts
console_puts_no_wrap s [] p row small = (omega arith, refl)
console_puts_no_wrap s (c ∷ txt) p row small =
    let (x, y) = console_putchar_printable s c p.0.0 p.0.1 row (omega arith) in
    let rest =
      console_puts_no_wrap (console_putchar s c) txt p.1 (omega (arith, y)) (omega (arith, x)) in
    (omega (arith, rest, x), omega (arith, rest, y))

-- The cursor that the hardware is told of is the cell at which the next character goes, while it
-- is below 65536.
pub console_move_cursor_lem :
    (s : Console)
    → s.y_pos * 80 + s.x_pos < 0x1_0000
    → (hi : ℕ) × (lo : ℕ) × ((console_move_cursor s).ports
        ≡ s.ports ++ (0x3d4, 0x0e) ∷ (0x3d5, hi) ∷ (0x3d4, 0x0f) ∷ (0x3d5, lo) ∷ [])
      × (hi * 0x100 + lo ≡ s.y_pos * 80 + s.x_pos)
      × (lo < 0x100)
unfolding console_move_cursor outb
console_move_cursor_lem s small =
    let position = u16 (s.y_pos * 80 + s.x_pos) in
    (
      u8 (bit_and (position / 0x100) 0xff),
      u8 (bit_and position 0xff),
      simp append_assoc,
      omega (arith, bit_and_low 8 (position / 0x100), bit_and_low 8 position),
      omega arith,
    )
