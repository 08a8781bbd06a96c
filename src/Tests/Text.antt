-- ===== src/Tests/Text.antt =====
-- Numbers as text, and formats.
use balloon.Base.{ℕ, true, ◌≡◌, ◌≢◌, refl, some, List, [], ◌∷◌, arith}
use balloon.Ram.Access.{Ram, store32, store8}
use balloon.Libc.Strings.Text.{IsText}
use balloon.Libc.Decimal.{itoa}
use balloon.Libc.Decimal.Text.{itoa_lem}
use balloon.Console.{Console, console_puts}
use balloon.Printf.Number.{Flags, no_flags, number}
use balloon.Printf.Format.{done, out_of_fuel, vsprintf}
use balloon.Printf.Format.Laws.{vsprintf_star}
use balloon.Printf.Format.Ends.{vsprintf_ends}
use balloon.Printf.Kprintf.{kprintf}
use balloon.Printf.Kprintf.Shown.{kprintf-console_puts}
use balloon.Tests.States.{zeros, zeros-IsBytes}

-- "%#x"
abbrev hexadecimal : Flags
hexadecimal = record no_flags { special = true; small = true }

-- -7 at 0x100
itoa_lem_example :
    (m' : Ram) × (text : List ℕ) × (itoa zeros 0xffff_fff9 0x100 ≡ some m')
    × IsText m' 0x100 text
    × (number 0xffff_fff9 10 0 0 (record no_flags { sign = true }) ≡ some text)
itoa_lem_example =
    itoa_lem zeros 0xffff_fff9 0x100 zeros-IsBytes (omega arith) (λ e. omega (arith, e))

-- "a" at 0x100
abbrev letter : Ram
letter = store32 zeros 0x100 b'a'

-- "%*d" with the arguments 5 and 5
vsprintf_star_example :
    vsprintf 4 zeros (b'%' ∷ b'*' ∷ b'd' ∷ []) (λ _. 5)
    ≡ done (record { text = b'%' ∷ b'*' ∷ b'd' ∷ []; arg = 1; ram = zeros })
vsprintf_star_example = vsprintf_star 4 zeros (λ _. 5) [] (b'd' ∷ []) (record {}) (ground arith)

-- "%5d%"
vsprintf_ends_example : vsprintf 4 zeros (b'%' ∷ b'5' ∷ b'd' ∷ b'%' ∷ []) (λ _. 5) ≢ out_of_fuel
vsprintf_ends_example = vsprintf_ends 4 zeros (b'%' ∷ b'5' ∷ b'd' ∷ b'%' ∷ []) (λ _. 5)

abbrev empty_screen : Console
empty_screen = record {
  video = λ _. 0;
  x_pos = 0;
  y_pos = 0;
  back_colour = 0;
  fore_colour = 15;
  ports = [];
}

-- "<%s>" with "a"
kprintf-console_puts_example :
    kprintf 4 empty_screen letter (b'<' ∷ b'%' ∷ b's' ∷ b'>' ∷ []) (λ _. 0x100)
    ≡ some (console_puts empty_screen (b'<' ∷ b'a' ∷ b'>' ∷ []), letter)
unfolding IsText store32 store8
kprintf-console_puts_example =
    kprintf-console_puts 4 empty_screen letter (λ _. 0x100) (b'<' ∷ []) (b'a' ∷ []) (b'>' ∷ [])
      (ground arith) (ground arith) (ground arith) (ground arith)
      (refl, (λ e. omega (arith, e)), refl) (omega arith) (omega arith)
