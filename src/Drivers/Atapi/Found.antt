-- ===== src/Drivers/Atapi/Found.antt =====
-- What ide_initialize finds out of a drive from its answers, and how it lists the drives.
pub mod Rounds
pub mod Steps
pub mod Table
use balloon.Base.{
  ℕ, zero, suc, ◌+◌, ◌*◌, ◌/◌, ◌%◌, ◌<◌, ◌≤◌, ◌≡◌, ◌≢◌, ◌⊎◌, refl, sym, ◌∙◌, ap, List, [], ◌∷◌,
  ◌++◌, arith, length, u8, u16,
}
use balloon.Drivers.Atapi.{Device, IdeDevice, Event, in_byte, out_byte, checking, sleep, shown}
use balloon.Drivers.Atapi.Detect.{model_name}
use balloon.Drivers.Atapi.Status.{repeated}

-- Twice as many.
abbrev double : ℕ → ℕ
double zero = zero
double (suc n) = suc (suc (double n))

-- The characters of `name` from `k` on, and a 0.
abbrev pub text : (n : ℕ) → (name : ℕ → ℕ) → (k : ℕ) → List ℕ
text zero name k = 0 ∷ []
text (suc n) name k = name k ∷ text n name (k + 1)

model_name_from :
    (pairs i k : ℕ) (buf name : ℕ → ℕ)
    → k ≡ 2 * i
    → ((j : ℕ)
        → i ≤ j
        → j < i + pairs
        → (buf (54 + 2 * j) ≡ name (2 * j + 1)) × (buf (54 + 2 * j + 1) ≡ name (2 * j)))
    → model_name pairs buf k ≡ text (double pairs) name k
unfolding model_name
model_name_from zero i k buf name here h = refl
model_name_from (suc pairs) i k buf name here h =
    let (second, first) = h i (omega arith) (omega arith) in
    let rest =
      model_name_from pairs (i + 1) (k + 2) buf name (omega arith)
        (λ j le lt. h j (omega arith) (omega arith)) in
    let next : k + 1 + 1 ≡ k + 2 = omega arith in rw (next, rest, here, first, second) refl

-- A name that the drive sends with the two bytes of each word exchanged is stored in order.
pub model_name_lem :
    (buf name : ℕ → ℕ)
    → ((j : ℕ)
        → j < 20
        → (buf (54 + 2 * j) ≡ name (2 * j + 1)) × (buf (54 + 2 * j + 1) ≡ name (2 * j)))
    → model_name 20 buf 0 ≡ text 40 name 0
model_name_lem buf name h =
    model_name_from 20 0 0 buf name (omega arith) (λ j le lt. h j (omega arith))

-- The history once a drive was selected and asked to identify itself.
abbrev pub asked : (base i j : ℕ) → List Event → List Event
asked base i j t =
    sleep 1
    ∷ out_byte (u16 (base + 7)) 0xec
    ∷ sleep 1
    ∷ out_byte (u16 (base + 6)) (0xa0 + 0x10 * j)
    ∷ shown (checking i j)
    ∷ t

abbrev pub in_status : (base : ℕ) → Event
in_status base = in_byte (u16 (base + 7))

-- The status after `n` reads of it.
abbrev pub answer : Device → (base : ℕ) → List Event → (n : ℕ) → ℕ
answer dev base t n = u8 (dev.byte (repeated n (in_status base) t) (u16 (base + 7)))

-- Bit 0 of a status is ERR, bit 3 is DRQ and bit 7 is BSY.
abbrev pub IsError : (state : ℕ) → Type 0
IsError state = state % 2 ≡ 1

abbrev pub IsReady : (state : ℕ) → Type 0
IsReady state = (state % 2 ≡ 0) × (state / 128 % 2 ≡ 0) × (state / 8 % 2 ≡ 1)

abbrev pub IsBusy : (state : ℕ) → Type 0
IsBusy state = (state % 2 ≡ 0) × ((state / 128 % 2 ≡ 1) ⊎ (state / 8 % 2 ≡ 0))

-- The two bytes in the registers 4 and 5 that a packet drive leaves there.
abbrev pub IsPacket : (low high : ℕ) → Type 0
IsPacket low high = ((low ≡ 0x14) × (high ≡ 0xeb)) ⊎ ((low ≡ 0x69) × (high ≡ 0x96))

pub data Place : Type 0 where
  nothing : Place
  disk : Place
  packet : Place
  unknown : Place

-- After the history `t`, `k` answers of the status are busy and `Last` holds of the next one.
abbrev pub Settles : (Last : ℕ → Type 0) → Device → (base : ℕ) → List Event → (k : ℕ) → Type 0
Settles Last dev base t k =
    ((j : ℕ) → j < k → IsBusy (answer dev base t j)) × Last (answer dev base t k)

abbrev pub low_byte : Device → (base : ℕ) → List Event → ℕ
low_byte dev base t = u8 (dev.byte t (u16 (base + 4)))

abbrev pub high_byte : Device → (base : ℕ) → List Event → ℕ
high_byte dev base t = u8 (dev.byte (in_byte (u16 (base + 4)) ∷ t) (u16 (base + 5)))

-- The signature after `k + 1` reads of the status.
abbrev pub Signature :
    (Has : (low high : ℕ) → Type 0) → Device → (base : ℕ) → List Event → (k : ℕ) → Type 0
Signature Has dev base t k =
    Has (low_byte dev base (repeated (suc k) (in_status base) t))
      (high_byte dev base (repeated (suc k) (in_status base) t))

-- What is in a place, by its answers once it was asked in the history `t`. Nothing is there if the
-- status is 0. Otherwise, after fewer than `fuel` further reads, a disk has data ready; a packet drive
-- and an unknown drive report an error, and differ in the signature.
unfoldable pub Answers : (fuel : ℕ) → Device → (base : ℕ) → List Event → Place → Type 0
Answers fuel dev base t nothing = answer dev base t 0 ≡ 0
Answers fuel dev base t disk =
    (answer dev base t 0 ≢ 0)
    × (k : ℕ) × (k < fuel)
    × Settles IsReady dev base (in_status base ∷ t) k
Answers fuel dev base t packet =
    (answer dev base t 0 ≢ 0)
    × (k : ℕ) × (k < fuel)
    × Settles IsError dev base (in_status base ∷ t) k
    × Signature IsPacket dev base (in_status base ∷ t) k
Answers fuel dev base t unknown =
    (answer dev base t 0 ≢ 0)
    × (k : ℕ) × (k < fuel)
    × Settles IsError dev base (in_status base ∷ t) k
    × Signature (λ low high. ¬ IsPacket low high) dev base (in_status base ∷ t) k

-- The channel, the number on the channel and the type of a drive that is to be listed.
unfoldable pub entry : Place → (i j : ℕ) → List (ℕ × ℕ × ℕ)
entry nothing i j = []
entry disk i j = (i, j, 0) ∷ []
entry packet i j = (i, j, 1) ∷ []
entry unknown i j = []

-- From entry `n` on the table lists these drives, and the rest of its four entries are empty.
unfoldable pub Lists : (ℕ → IdeDevice) → (n : ℕ) → List (ℕ × ℕ × ℕ) → Type 0
Lists d n [] = (m : ℕ) → n ≤ m → m < 4 → (d m).reserved ≡ 0
Lists d n ((i, j, type) ∷ es) =
    ((d n).reserved ≡ 1)
    × ((d n).channel ≡ i)
    × ((d n).drive ≡ j)
    × ((d n).type ≡ type)
    × Lists d (n + 1) es

pub Lists-rest :
    (d : ℕ → IdeDevice) (n at : ℕ) (es : List (ℕ × ℕ × ℕ))
    → n + length es ≡ at
    → Lists d n es
    → (m : ℕ) → at ≤ m
    → m < 4
    → (d m).reserved ≡ 0
unfolding Lists
Lists-rest d n at [] here listed m le lt = listed m (omega arith) lt
Lists-rest d n at ((i, j, type) ∷ es) here (r, c, p, k, listed) m le lt =
    Lists-rest d (n + 1) at es (omega arith) listed m le lt

-- More drives behind those that are listed.
pub Lists-append :
    (d d' : ℕ → IdeDevice) (n at : ℕ) (es new : List (ℕ × ℕ × ℕ))
    → n + length es ≡ at
    → ((m : ℕ) → m < at → d' m ≡ d m)
    → Lists d n es
    → Lists d' at new
    → Lists d' n (es ++ new)
unfolding Lists
Lists-append d d' n at [] new here same listed more =
    let e : at ≡ n = omega arith in rw (sym e) more
Lists-append d d' n at ((i, j, type) ∷ es) new here same (r, c, p, k, listed) more =
    let e = same n (omega arith) in
    rw e (r, c, p, k, Lists-append d d' (n + 1) at es new (omega arith) same listed more)
