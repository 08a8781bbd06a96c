-- ===== src/Printf/Kprintf.antt =====
-- kprintf() of source/kernel/libc/printf.c: vsprintf into its buffer, and the buffer on the console.
-- Behind it the messages of source/kernel/libc/logging.c.
pub mod Shown
use balloon.Base.{
  ℕ, zero, suc, ◌+◌, Option, none, some, List, [], ◌∷◌, ◌==◌, if◌then◌else◌, add32, length, ltb,
}
use balloon.Ram.Access.{Ram, load32}
use balloon.Heap.Skip.{◌>>=◌}
use balloon.Elf.{Elf, elf_lookup_symbol}
use balloon.Console.{Console, console_puts}
use balloon.Printf.Format.{Outcome, done, unterminated, out_of_fuel, vsprintf}

-- The characters of the buffer that console_puts sees.
unfoldable pub until_nul : List ℕ → List ℕ
until_nul [] = []
until_nul (c ∷ cs) = let rest = c ∷ until_nul cs in if c == 0 then [] else rest

-- the size of the static buffer
abbrev pub buffer_size : ℕ
buffer_size = 1024

-- `none`: an argument of `%s` has no NUL within `limit`, or the text and its NUL do not fit in the
-- buffer. vsprintf has no bound, so the source then writes past it.
unfoldable pub kprintf :
    (limit : ℕ) → Console → Ram → (msg : List ℕ) → (args : ℕ → ℕ) → Option (Console × Ram)
kprintf limit s m msg args = elim (vsprintf limit m msg args) [
  | done w ↦
      if ltb (length w.text) buffer_size
      then some (console_puts s (until_nul w.text), w.ram)
      else none
  | unterminated ↦ none
  | out_of_fuel ↦ none
]

-- "   [0x%x] %s\n"
abbrev pub frame_message : List ℕ
frame_message =
    b' ' ∷ b' ' ∷ b' ' ∷ b'[' ∷ b'0' ∷ b'x' ∷ b'%' ∷ b'x' ∷ b']' ∷ b' ' ∷ b'%' ∷ b's' ∷ b'\n' ∷ []

abbrev pub two_args : (a b : ℕ) → ℕ → ℕ
two_args a b i = if i == 0 then a else b

-- The loop over the frames, from the one at `ebp` on. It takes fuel, since the chain of frames may
-- be a cycle; `none` is also a name that elf_lookup_symbol does not return.
unfoldable pub kprint_stacktrace :
    (fuel limit : ℕ) → Console → Ram → Elf → (ebp : ℕ) → Option (Console × Ram)
kprint_stacktrace zero limit s m elf ebp = none
kprint_stacktrace (suc fuel) limit s m elf ebp =
    let eip : ℕ = load32 m (add32 ebp 4) in
    let more = elf_lookup_symbol m eip elf >>= λ name.
    (kprintf limit s m frame_message (two_args eip name) >>= λ (s', m').
    kprint_stacktrace fuel limit s' m' elf (load32 m' ebp)) in
    if ebp == 0 then some (s, m) else more

-- "PANIC: %s\n" and "*****\n\n"
abbrev pub panic_message : List ℕ
panic_message = b'P' ∷ b'A' ∷ b'N' ∷ b'I' ∷ b'C' ∷ b':' ∷ b' ' ∷ b'%' ∷ b's' ∷ b'\n' ∷ []

abbrev pub panic_end : List ℕ
panic_end = b'*' ∷ b'*' ∷ b'*' ∷ b'*' ∷ b'*' ∷ b'\n' ∷ b'\n' ∷ []

-- What the console shows when panic enters its endless loop.
unfoldable pub panic :
    (fuel limit : ℕ) → Console → Ram → Elf → (msg ebp : ℕ) → Option (Console × Ram)
panic fuel limit s m elf msg ebp = kprintf limit s m panic_message (λ _. msg) >>= λ (s₁, m₁).
    (kprint_stacktrace fuel limit s₁ m₁ elf ebp >>= λ (s₂, m₂).
    kprintf limit s₂ m₂ panic_end (λ _. 0))
