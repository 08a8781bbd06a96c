-- ===== src/Tests/Screen.antt =====
-- The console on a screen full of the cell 7.
use balloon.Base.{ℕ, ◌+◌, ◌≡◌, min, List, [], ◌∷◌, arith}
use balloon.Console.{Console, console_puts}
use balloon.Console.Put.{newlines, console_puts-row}

abbrev screen : Console
screen = record {
  video = λ _. 7;
  x_pos = 78;
  y_pos = 23;
  back_colour = 0;
  fore_colour = 15;
  ports = [];
}

abbrev hello : List ℕ
hello = b'h' ∷ b'e' ∷ b'l' ∷ b'l' ∷ b'o' ∷ b'\n' ∷ []

console_puts-row_example :
    (console_puts screen hello).y_pos ≡ min (screen.y_pos + newlines hello) 24
console_puts-row_example = console_puts-row screen hello (omega arith)
