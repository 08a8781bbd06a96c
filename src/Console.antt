-- ===== src/Console.antt =====
-- source/kernel/console.c: the text screen of 25 rows of 80 cells, and its cursor.
pub mod Put
pub mod Scroll
use balloon.Base.{
  ℕ, zero, suc, ◌+◌, ◌-◌, ◌*◌, ◌/◌, ◌%◌, ◌&&◌, bit_and, bit_or, List, [], ◌∷◌, ◌++◌, ltb, leb, ◌==◌,
  if◌then◌else◌, add32, u8, u16, ◌<<◌, ◌>>◌,
}

-- `video` holds the 16-bit cells from 0xB8000 on, by index, those behind the screen too; `ports`
-- lists the bytes sent to I/O ports so far, each with its port, the first one first.
pub record Console : Type 0 where
  pub video : ℕ → ℕ
  pub x_pos : ℕ
  pub y_pos : ℕ
  pub back_colour : ℕ
  pub fore_colour : ℕ
  pub ports : List (ℕ × ℕ)

abbrev pub attribute_byte : (back fore : ℕ) → ℕ
attribute_byte back fore = u8 (bit_or (back << 4) (bit_and fore 0xf))

abbrev pub blank : ℕ
blank = bit_or 0x20 (attribute_byte 0 15 << 8)

abbrev pub write_cell : (ℕ → ℕ) → (i v : ℕ) → ℕ → ℕ
write_cell video i v j = if j == i then v else video j

-- for (; i < i + n; i++) videomem[i] = videomem[i + 80];
unfoldable pub move_up : (ℕ → ℕ) → (i n : ℕ) → ℕ → ℕ
move_up video i zero = video
move_up video i (suc n) = move_up (write_cell video i (video (i + 80))) (i + 1) n

-- for (; i < i + n; i++) videomem[i] = blank;
unfoldable pub fill_blank : (ℕ → ℕ) → (i n : ℕ) → ℕ → ℕ
fill_blank video i zero = video
fill_blank video i (suc n) = fill_blank (write_cell video i blank) (i + 1) n

unfoldable pub console_scroll : Console → Console
console_scroll c =
    if leb 25 c.y_pos
    then record c {
      video = fill_blank (move_up c.video 0 (24 * 80)) (24 * 80) (25 * 80 - 24 * 80);
      y_pos = 24;
    }
    else c

unfoldable pub outb : Console → (port data_byte : ℕ) → Console
outb c port data_byte = record c { ports = c.ports ++ (port, data_byte) ∷ [] }

unfoldable pub console_move_cursor : Console → Console
console_move_cursor c =
    let position = u16 (c.y_pos * 80 + c.x_pos) in
    outb (outb (outb (outb c 0x3d4 0x0e) 0x3d5 (u8 (bit_and (position >> 8) 0xff))) 0x3d4 0x0f)
      0x3d5 (u8 (bit_and position 0xff))

unfoldable pub console_clear : Console → Console
console_clear c =
    console_move_cursor (record c { video = fill_blank c.video 0 (80 * 25); x_pos = 0; y_pos = 0 })

-- The character before the scroll: `c` is a byte, and a `char` is signed, so the printable
-- characters are those from the space to 127.
unfoldable pub put_glyph : Console → (c : ℕ) → Console
put_glyph s c =
    let attribute = u16 (attribute_byte s.back_colour s.fore_colour << 8) in
    if c == 0x08 && ltb 0 s.x_pos
    then record s { x_pos = s.x_pos - 1 }
    else if c == 0x09
    then record s { x_pos = bit_and (add32 s.x_pos 8) 0xffff_fff8 }
    else if c == b'\r'
    then record s { x_pos = 0 }
    else if c == b'\n'
    then record s { y_pos = add32 s.y_pos 1; x_pos = 0 }
    else if leb b' ' c && ltb c 128
    then record s {
      video = write_cell s.video (s.y_pos * 80 + s.x_pos) (bit_or c attribute);
      x_pos = add32 s.x_pos 1;
    }
    else s

unfoldable pub console_putchar : Console → (c : ℕ) → Console
console_putchar s c = console_move_cursor (console_scroll (put_glyph s c))

-- The text up to its NUL.
unfoldable pub console_puts : Console → List ℕ → Console
console_puts s [] = s
console_puts s (c ∷ txt) = console_puts (console_putchar s c) txt

unfoldable pub init_console : Console → Console
init_console c = console_clear c
