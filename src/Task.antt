-- ===== src/Task.antt =====
-- source/kernel/process.c and the parts of source/kernel/task.c that are not assembly. A process_t
-- has 176 bytes: pid at 0, name at 4, thread at 8 (esp 8, ebp 12, eip 16, page_directory 160),
-- next at 164, stack at 168, user_stack at 172.
pub mod Clone
pub mod Stack
use balloon.Base.{ℕ, ◌+◌, ◌-◌, Option, none, some, ltb, ◌==◌, if◌then◌else◌, add32, sub32}
use balloon.Machine.{Kernel, get, put}
use balloon.Libc.Memory.{memcpy}
use balloon.Heap.Skip.{◌>>=◌}
use balloon.Heap.Place.{kmalloc}

-- The kernel with the globals root_proc and current_process.
pub record Tasks : Type 0 where
  pub kernel : Kernel
  pub root_proc : ℕ
  pub current_process : ℕ

abbrev pub stack_size : ℕ
stack_size = 0x8000

-- `name` is the address of "kernel", and `initial_esp` is set by boot.s. `next` is left as it was.
unfoldable pub init_kernel_process :
    (fuel : ℕ) → Tasks → (name initial_esp : ℕ) → Option (ℕ × Tasks)
init_kernel_process fuel t name initial_esp = kmalloc fuel t.kernel 176 >>= λ (init, _, k).
    let k₁ = put (put k init 0) (init + 4) name in
    let k₂ = put (put k₁ (init + 168) (add32 initial_esp 1)) (init + 172) 0 in
    some (init, record t { kernel = k₂; root_proc = init })

unfoldable pub set_process_environment : Kernel → (proc directory : ℕ) → Kernel
set_process_environment k proc directory = put k (proc + 160) directory

unfoldable pub schedule : Tasks → ℕ
schedule t =
    if get t.kernel (t.current_process + 164) == 0
    then t.root_proc
    else get t.kernel (t.current_process + 164)

-- `name` is the address of "forked".
unfoldable pub spawn_process : (fuel : ℕ) → Tasks → (name parent : ℕ) → Option (ℕ × Tasks)
spawn_process fuel t name parent = kmalloc fuel t.kernel 176 >>= λ (proc, _, k).
    let k₁ = put (put k proc 1) (proc + 4) name in
    let k₂ = put (put (put k₁ (proc + 8) 0) (proc + 12) 0) (proc + 16) 0 in
    let k₃ = put (put k₂ (t.root_proc + 164) proc) (proc + 164) 0 in
    (kmalloc fuel k₃ stack_size >>= λ (stack, _, k₄).
    let k₅ = put k₄ (proc + 168) (add32 stack stack_size) in
    let k₆ = put k₅ (proc + 172) (get k₅ (parent + 172)) in some (proc, record t { kernel = k₆ }))

-- A pointer into the old stack, moved to the new one: the two branches of fork for esp.
unfoldable pub move_esp : (old new esp : ℕ) → ℕ
move_esp old new esp = if ltb new old then sub32 esp (sub32 old new) else add32 esp (sub32 new old)

-- The same for ebp, which is not written in the same way.
unfoldable pub move_ebp : (old new ebp : ℕ) → ℕ
move_ebp old new ebp = if ltb new old then sub32 ebp (sub32 old new) else sub32 ebp (sub32 old new)

-- What fork does for the parent with the registers it read: the thread of the new process, and the
-- copy of the stack.
unfoldable pub fork_stack : Kernel → (current new_proc esp ebp eip : ℕ) → Kernel
fork_stack k current new_proc esp ebp eip =
    let old : ℕ = get k (current + 168) in
    let new : ℕ = get k (new_proc + 168) in
    let k₁ = put k (new_proc + 8) (move_esp old new esp) in
    let k₂ = put k₁ (new_proc + 12) (move_ebp old new ebp) in
    let k₃ = record k₂ {
      ram = memcpy k₂.ram (sub32 new stack_size) (sub32 old stack_size) stack_size;
    } in
    put k₃ (new_proc + 16) eip
