-- ===== src/Tests/States.antt =====
-- The states that the examples share.
use balloon.Base.{◌==◌, if◌then◌else◌, arith}
use balloon.Ram.Access.{Ram, store32}
use balloon.Ram.Frame.{IsBytes, store32-IsBytes}
use balloon.Machine.{Kernel}

abbrev pub zeros : Ram
zeros = λ _. 0

pub zeros-IsBytes : IsBytes zeros
zeros-IsBytes a = omega arith

-- A heap with no block yet, and a bitmap of 64 frames that are all free.
abbrev pub empty_heap : Kernel
empty_heap = record {
  ram = zeros;
  placement_pointer = 0x10_8010;
  heap_end = 0x20_0000;
  bin_head = λ _. 0;
  big_head = 0x5000;
  level = 0;
  newest_big = 0;
  rng = record { x = 1; y = 2; z = 3; w = 4 };
  frames = 0x10_0000;
  nframes = 64;
  kernel_directory = 0x10_2000;
  current_directory = 0x10_2000;
}

-- The kernel before init_heap.
abbrev pub early_kernel : Kernel
early_kernel = record empty_heap { heap_end = 0 }

-- A bin of cells of 16 bytes in the page 0x1000, whose free cells are 0x1010 and 0x1020.
abbrev pub slab_ram : Ram
slab_ram =
    store32 (store32 (store32 (store32 zeros 0x1008 2) 0x100c 0xdefad00d) 0x1004 0x1010) 0x1010
      0x1020

pub slab_ram-IsBytes : IsBytes slab_ram
slab_ram-IsBytes = store32-IsBytes _ 0x1010 0x1020 (
    store32-IsBytes _ 0x1004 0x1010
      (store32-IsBytes _ 0x100c 0xdefad00d (store32-IsBytes _ 0x1008 2 zeros-IsBytes)))

abbrev pub slab_kernel : Kernel
slab_kernel = record empty_heap { ram = slab_ram; bin_head = λ b. if b == 2 then 0x1000 else 0 }

-- The memory in which the frame 1 is taken and the entry at 0x3000 maps it.
abbrev pub mapped_ram : Ram
mapped_ram = store32 (store32 zeros 0x10_0000 2) 0x3000 0x1003

pub mapped_ram-IsBytes : IsBytes mapped_ram
mapped_ram-IsBytes = store32-IsBytes _ 0x3000 0x1003 (store32-IsBytes _ 0x10_0000 2 zeros-IsBytes)

abbrev pub mapped_kernel : Kernel
mapped_kernel = record empty_heap { ram = mapped_ram }
