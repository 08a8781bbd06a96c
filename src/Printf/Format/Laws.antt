-- ===== src/Printf/Format/Laws.antt =====
-- What vsprintf writes for texts, strings and numbers.
use mathlib.Core.List.{append_assoc, append-nil}
use mathlib.Core.Path.{subst}
use balloon.Base.{
  ℕ, zero, suc, ◌+◌, ◌-◌, ◌<◌, ◌≡◌, ◌≢◌, refl, sym, ap, ◌∙◌, List, [], ◌∷◌, ◌++◌, Option, none,
  some, length, length-append, arith, ◌==◌, true, false, leb, Bool-cases, inl, inr,
}
use balloon.Ram.Access.{Ram}
use balloon.Libc.Strings.Text.{IsText, strlen_lem}
use balloon.Printf.Number.{Flags, no_flags, number}
use balloon.Printf.Format.{
  Writer, done, emit, next_arg, read_flags, read_width, read_precision, skip_qualifier, convert,
  convert_next, directive, format, vsprintf, or_zero, write_number, write_string, read_text,
}

-- No character of the text starts a directive.
abbrev pub IsPlain : List ℕ → Type 0
IsPlain [] = Unit {0}
IsPlain (c ∷ cs) = (c ≢ b'%') × IsPlain cs

-- `ground` reads a negated equation as a test.
plain_char : (c : ℕ) → c ≢ b'%' → (c == b'%') ≡ false
plain_char c h = ground arith

pub format-plain :
    (n fuel limit : ℕ) (args : ℕ → ℕ) (w : Writer) (pre rest : List ℕ)
    → n ≡ length pre + fuel
    → IsPlain pre
    → format n limit args w (pre ++ rest) ≡ format fuel limit args (emit pre w) rest
unfolding format
format-plain n fuel limit args w [] rest e plain =
    let same : n ≡ fuel = omega arith in
    rw same
      (ap (λ t. format fuel limit args (record w { text = t }) rest) (sym (append-nil w.text)))
format-plain zero fuel limit args w (c ∷ pre) rest e plain = absurd (omega arith)
format-plain (suc n) fuel limit args w (c ∷ pre) rest e plain = rw (plain_char c plain.0) (
    format-plain n fuel limit args (emit (c ∷ []) w) pre rest (omega arith) plain.1
    ∙ ap (λ t. format fuel limit args (record w { text = t }) rest)
        (append_assoc w.text (c ∷ []) pre))

read_text-IsText : (m : Ram) (s : ℕ) (cs : List ℕ) → IsText m s cs → read_text m s (length cs) ≡ cs
unfolding read_text IsText
read_text-IsText m s [] text = refl
read_text-IsText m s (c ∷ cs) text = rw (text.0, read_text-IsText m (s + 1) cs text.2) refl

string_directive :
    (limit : ℕ) (args : ℕ → ℕ) (w : Writer) (cs post : List ℕ)
    → IsText w.ram (args w.arg) cs
    → length cs < limit
    → directive limit args w (b's' ∷ post) ≡ some (emit cs (next_arg w), post)
unfolding directive read_flags read_width read_precision skip_qualifier convert_next convert
    write_string
string_directive limit args w cs post text enough =
    let nothing : 0 - length cs ≡ 0 = omega arith in
    rw
      (
        strlen_lem limit w.ram (args w.arg) cs text enough,
        nothing,
        read_text-IsText w.ram (args w.arg) cs text,
      )
      refl

write_number_lem :
    (args : ℕ → ℕ) (base : ℕ) (f : Flags) (width precision : Option ℕ) (w : Writer) (text : List ℕ)
    → number (args w.arg) base (or_zero width) (or_zero precision) f ≡ some text
    → write_number args base f width precision w ≡ emit text (next_arg w)
unfolding write_number
write_number_lem args base f width precision w text e = rw (e, write_number) refl

number-directive :
    (limit : ℕ) (args : ℕ → ℕ) (w : Writer) (text post : List ℕ)
    → number (args w.arg) 10 0 0 (record no_flags { sign = true }) ≡ some text
    → directive limit args w (b'd' ∷ post) ≡ some (emit text (next_arg w), post)
unfolding directive read_flags read_width read_precision skip_qualifier convert_next convert
number-directive limit args w text post e =
    ap (λ (v : Writer). some (v, post))
      (write_number_lem args 10 (record no_flags { sign = true }) none none w text e)

-- One directive with no flags between two plain texts.
one_directive :
    (limit : ℕ) (m : Ram) (args : ℕ → ℕ) (c : ℕ) (pre text post : List ℕ)
    → IsPlain pre
    → IsPlain post
    → ((w : Writer)
        → w.ram ≡ m
        → w.arg ≡ 0
        → directive limit args w (c ∷ post) ≡ some (emit text (next_arg w), post))
    → vsprintf limit m (pre ++ (b'%' ∷ c ∷ post)) args
      ≡ done (record { text = pre ++ (text ++ post); arg = 1; ram = m })
unfolding vsprintf format
one_directive limit m args c pre text post plain plain' step =
    let w : Writer = record { text = pre; arg = 0; ram = m } in
    let w' : Writer = emit text (next_arg w) in
    format-plain (length (pre ++ (b'%' ∷ c ∷ post)) + 1) (suc (suc (suc (length post)))) limit args
      (record { text = []; arg = 0; ram = m }) pre (b'%' ∷ c ∷ post)
      (omega (arith, length-append {0} pre (b'%' ∷ c ∷ post))) plain
    ∙ rw (step w refl refl) (
        ap (format (suc (suc (length post))) limit args w') (sym (append-nil post))
        ∙ format-plain (suc (suc (length post))) 2 limit args w' post [] (omega arith) plain'
        ∙ ap (λ t. done (record { text = t; arg = 1; ram = m })) (append_assoc pre text post))

-- A text with no `%` is written as it is.
pub vsprintf_plain :
    (limit : ℕ) (m : Ram) (fmt : List ℕ) (args : ℕ → ℕ)
    → IsPlain fmt
    → vsprintf limit m fmt args ≡ done (record { text = fmt; arg = 0; ram = m })
unfolding vsprintf format
vsprintf_plain limit m fmt args plain =
    ap (format (length fmt + 1) limit args (record { text = []; arg = 0; ram = m }))
      (sym (append-nil fmt))
    ∙ format-plain (length fmt + 1) 1 limit args (record { text = []; arg = 0; ram = m }) fmt []
        (omega arith) plain

-- `%s` writes the characters of its string as they are, those that look like a directive too.
pub vsprintf_string :
    (limit : ℕ) (m : Ram) (args : ℕ → ℕ) (pre cs post : List ℕ)
    → IsPlain pre
    → IsPlain post
    → IsText m (args 0) cs
    → length cs < limit
    → vsprintf limit m (pre ++ (b'%' ∷ b's' ∷ post)) args
      ≡ done (record { text = pre ++ (cs ++ post); arg = 1; ram = m })
vsprintf_string limit m args pre cs post plain plain' text enough =
    one_directive limit m args b's' pre cs post plain plain' λ w here first.
      string_directive limit args w cs post
        (subst (λ (r : Ram). IsText r (args w.arg) cs) (sym here)
          (subst (λ i. IsText m (args i) cs) (sym first) text))
        enough

-- `%d` writes what number() makes of its argument as a signed number in base 10.
pub vsprintf-number :
    (limit : ℕ) (m : Ram) (args : ℕ → ℕ) (pre text post : List ℕ)
    → IsPlain pre
    → IsPlain post
    → number (args 0) 10 0 0 (record no_flags { sign = true }) ≡ some text
    → vsprintf limit m (pre ++ (b'%' ∷ b'd' ∷ post)) args
      ≡ done (record { text = pre ++ (text ++ post); arg = 1; ram = m })
vsprintf-number limit m args pre text post plain plain' e =
    one_directive limit m args b'd' pre text post plain plain' λ w here first.
      number-directive limit args w text post (
        subst (λ i. number (args i) 10 0 0 (record no_flags { sign = true }) ≡ some text)
          (sym first) e)

star_directive :
    (limit : ℕ) (args : ℕ → ℕ) (w : Writer) (post : List ℕ)
    → directive limit args w (b'*' ∷ post) ≡ some (emit (b'%' ∷ b'*' ∷ []) (next_arg w), post)
unfolding directive read_flags read_width read_precision skip_qualifier convert_next convert
star_directive limit args w post = elim (Bool-cases (leb 0x8000_0000 (args w.arg))) [
  | inl minus ↦ rw minus refl
  | inr plus ↦ rw plus refl
]

-- A width that is given as `*`, between two texts that have no `%`, is taken from the arguments, but
-- the directive is written as it stands, since the format goes on at the `*`.
pub vsprintf_star :
    (limit : ℕ) (m : Ram) (args : ℕ → ℕ) (pre post : List ℕ)
    → IsPlain pre
    → IsPlain post
    → vsprintf limit m (pre ++ (b'%' ∷ b'*' ∷ post)) args
      ≡ done (record { text = pre ++ (b'%' ∷ b'*' ∷ post); arg = 1; ram = m })
vsprintf_star limit m args pre post plain plain' =
    one_directive limit m args b'*' pre (b'%' ∷ b'*' ∷ []) post plain plain'
      λ w here first. star_directive limit args w post
