-- ===== src/Printf/Kprintf/Shown.antt =====
-- What kprintf and panic put on the console.
use balloon.Base.{
  ℕ, zero, suc, ◌+◌, ◌<◌, ◌≡◌, ◌≢◌, refl, ap, List, [], ◌∷◌, ◌++◌, some, length, length-append, ltb,
  arith, ◌==◌, true, false,
}
use balloon.Ram.Access.{Ram}
use balloon.Libc.Strings.Text.{IsText}
use balloon.Elf.{Elf}
use balloon.Console.{Console, console_puts}
use balloon.Console.Put.{console_puts-row}
use balloon.Printf.Format.Laws.{IsPlain, vsprintf_string, vsprintf_plain}
use balloon.Printf.Kprintf.{until_nul, kprintf, kprint_stacktrace, panic, panic_end}

-- No character is a NUL.
abbrev pub HasNoNul : List ℕ → Type 0
HasNoNul [] = Unit {0}
HasNoNul (c ∷ cs) = (c ≢ 0) × HasNoNul cs

nonzero : (c : ℕ) → c ≢ 0 → (c == 0) ≡ false
nonzero c h = ground arith

until_nul-HasNoNul : (cs : List ℕ) → HasNoNul cs → until_nul cs ≡ cs
unfolding until_nul
until_nul-HasNoNul [] h = refl
until_nul-HasNoNul (c ∷ cs) h = rw (nonzero c h.0, until_nul-HasNoNul cs h.1) refl

append-HasNoNul : (cs ds : List ℕ) → HasNoNul cs → HasNoNul ds → HasNoNul (cs ++ ds)
append-HasNoNul [] ds h h' = h'
append-HasNoNul (c ∷ cs) ds h h' = (h.0, append-HasNoNul cs ds h.1 h')

IsText-HasNoNul : (m : Ram) (p : ℕ) (cs : List ℕ) → IsText m p cs → HasNoNul cs
unfolding IsText
IsText-HasNoNul m p [] text = tt
IsText-HasNoNul m p (c ∷ cs) text = (text.1, IsText-HasNoNul m (p + 1) cs text.2)

-- kprintf with one `%s` between two texts that have no `%` and no NUL puts the string between these
-- texts on the console, if strlen has fuel for its length and the whole has fewer than 1024
-- characters, so that it fits in the buffer with its NUL.
pub kprintf-console_puts :
    (limit : ℕ) (s : Console) (m : Ram) (args : ℕ → ℕ) (pre cs post : List ℕ)
    → IsPlain pre
    → IsPlain post
    → HasNoNul pre
    → HasNoNul post
    → IsText m (args 0) cs
    → length cs < limit
    → length (pre ++ (cs ++ post)) < 1024
    → kprintf limit s m (pre ++ (b'%' ∷ b's' ∷ post)) args
      ≡ some (console_puts s (pre ++ (cs ++ post)), m)
unfolding kprintf
kprintf-console_puts limit s m args pre cs post plain plain' nul nul' text enough short =
    let fits : ltb (length (pre ++ (cs ++ post))) 1024 ≡ true = ground (arith, short) in
    rw (vsprintf_string limit m args pre cs post plain plain' text enough, kprintf, fits)
      (ap (λ t. some (console_puts s t, m))
        (until_nul-HasNoNul (pre ++ (cs ++ post)) (
          append-HasNoNul pre (cs ++ post) nul
            (append-HasNoNul cs post (IsText-HasNoNul m (args 0) cs text) nul'))))

kprintf_plain :
    (limit : ℕ) (s : Console) (m : Ram) (args : ℕ → ℕ) (fmt : List ℕ)
    → IsPlain fmt
    → HasNoNul fmt
    → length fmt < 1024
    → kprintf limit s m fmt args ≡ some (console_puts s fmt, m)
unfolding kprintf
kprintf_plain limit s m args fmt plain nul short =
    let fits : ltb (length fmt) 1024 ≡ true = ground (arith, short) in
    rw (vsprintf_plain limit m fmt args plain, kprintf, fits)
      (ap (λ t. some (console_puts s t, m)) (until_nul-HasNoNul fmt nul))

stacktrace_end :
    (fuel limit : ℕ) (s : Console) (m : Ram) (elf : Elf)
    → 0 < fuel
    → kprint_stacktrace fuel limit s m elf 0 ≡ some (s, m)
unfolding kprint_stacktrace
stacktrace_end zero limit s m elf h = elim h [ ]
stacktrace_end (suc fuel) limit s m elf h = refl

panic_pre : List ℕ
panic_pre = b'P' ∷ b'A' ∷ b'N' ∷ b'I' ∷ b'C' ∷ b':' ∷ b' ' ∷ []

panic_pre_lem : IsPlain panic_pre × HasNoNul panic_pre
unfolding panic_pre
panic_pre_lem = ground arith

panic_end_lem : IsPlain panic_end × HasNoNul panic_end
panic_end_lem = ground arith

newline_lem : IsPlain (b'\n' ∷ []) × HasNoNul (b'\n' ∷ [])
newline_lem = ground arith

-- panic with no frame to trace shows its message of fewer than 1000 characters between "PANIC: "
-- and the row of stars, and nothing else; y_pos stays below 25.
pub panic_lem :
    (fuel limit : ℕ) (s : Console) (m : Ram) (elf : Elf) (msg : ℕ) (cs : List ℕ)
    → IsText m msg cs
    → length cs < limit
    → length cs < 1000
    → 0 < fuel
    → s.y_pos < 25
    → (s' : Console) × (panic fuel limit s m elf msg 0 ≡ some (s', m))
      × (s'
          ≡ console_puts
              (console_puts s (b'P' ∷ b'A' ∷ b'N' ∷ b'I' ∷ b'C' ∷ b':' ∷ b' ' ∷ (cs ++ b'\n' ∷ [])))
              panic_end)
      × (s'.y_pos < 25)
unfolding panic panic_pre
panic_lem fuel limit s m elf msg cs text enough short some_fuel row =
    let first : List ℕ = panic_pre ++ (cs ++ b'\n' ∷ []) in
    let s₁ : Console = console_puts s first in
    let shown =
      kprintf-console_puts limit s m (λ _. msg) panic_pre cs (b'\n' ∷ []) panic_pre_lem.0
        newline_lem.0 panic_pre_lem.1 newline_lem.1 text enough
        (omega (arith, length-append cs (b'\n' ∷ []))) in
    (
      console_puts s₁ panic_end,
      rw (shown, stacktrace_end fuel limit s₁ m elf some_fuel)
          (kprintf_plain limit s₁ m (λ _. 0) panic_end panic_end_lem.0 panic_end_lem.1
            (omega arith)),
      refl,
      omega (arith, console_puts-row s₁ panic_end (omega (arith, console_puts-row s first row))),
    )
