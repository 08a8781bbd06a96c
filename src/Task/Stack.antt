-- ===== src/Task/Stack.antt =====
-- The stack that fork leaves to the new process.
use balloon.Base.{ℕ, ◌+◌, ◌-◌, ◌≤◌, ◌<◌, ◌≡◌, ◌⊎◌, arith, sub32}
use balloon.Ram.Access.{store32}
use balloon.Ram.Frame.{IsBytes, store32-IsBytes, store32_outside, load32-lt}
use balloon.Machine.{Kernel, get}
use balloon.Libc.Memory.{memcpy}
use balloon.Libc.Memory.Copy.{memcpy_lem}
use balloon.Task.{stack_size, move_esp, move_ebp, fork_stack}

-- esp and ebp keep their distance from the top of the stack, whichever of the stacks is higher.
pub move_lem :
    (old new register : ℕ)
    → old < 0x1_0000_0000
    → new < 0x1_0000_0000
    → register ≤ old
    → old - register ≤ new
    → (move_esp old new register ≡ new - (old - register))
      × (move_ebp old new register ≡ new - (old - register))
unfolding move_esp move_ebp
move_lem old new register h h' below room = (ground arith, ground arith)

-- After fork the stack of the new process holds the bytes of the parent's: the byte at a distance
-- `d`, within the stack, below the top of the one is at the same distance below the top of the
-- other. Neither stack overlaps the other or the record of the new process.
pub fork_stack_lem :
    (k : Kernel) (current new_proc esp ebp eip old new d : ℕ)
    → IsBytes k.ram
    → get k (current + 168) ≡ old
    → get k (new_proc + 168) ≡ new
    → stack_size ≤ old
    → stack_size ≤ new
    → (new ≤ old - stack_size) ⊎ (old ≤ new - stack_size)
    → (new_proc + 176 ≤ old - stack_size) ⊎ (old ≤ new_proc)
    → (new_proc + 176 ≤ new - stack_size) ⊎ (new ≤ new_proc)
    → 1 ≤ d
    → d ≤ stack_size
    → (fork_stack k current new_proc esp ebp eip).ram (new - d) ≡ k.ram (old - d)
unfolding fork_stack
fork_stack_lem k current new_proc esp ebp eip old new d b is_old is_new h h' apart apart_old
      apart_new d1 d2 =
    let m₁ = store32 k.ram (new_proc + 8) (move_esp old new esp) in
    let m₂ = store32 m₁ (new_proc + 12) (move_ebp old new ebp) in
    let b₂ =
      store32-IsBytes m₁ (new_proc + 12) (move_ebp old new ebp)
        (store32-IsBytes k.ram (new_proc + 8) (move_esp old new esp) b) in
    rw (is_old, is_new)
      (ground (
        arith,
        load32-lt k.ram (current + 168) b,
        load32-lt k.ram (new_proc + 168) b,
        store32_outside (memcpy m₂ (sub32 new stack_size) (sub32 old stack_size) stack_size)
            (new_proc + 16) eip (new - d),
        memcpy_lem m₂ (sub32 new stack_size) (sub32 old stack_size) stack_size (new - d) b₂,
        store32_outside m₁ (new_proc + 12) (move_ebp old new ebp) (old - d),
        store32_outside k.ram (new_proc + 8) (move_esp old new esp) (old - d),
      ))
