-- ===== src/Tests/Heaps.antt =====
-- The heaps of the kernel and of a process at concrete states.
use sirius_education.Common.{
  ℕ, ◌+◌, ◌-◌, ◌≡◌, refl, true, false, List, [], ◌∷◌, some, none, ◌==◌, if◌then◌else◌, arith,
}
use sirius_education.Mm.Frames.{done}
use sirius_education.Mm.Blocks.{Block, header_size, align16}
use sirius_education.Mm.Blocks.Chain.{IsCoalesced}
use sirius_education.Mm.Blocks.Used.{used_at}
use sirius_education.Mm.Heap.{
  Heap, heap_base, initial_size, init, cold, kmalloc, kfree, expansion_size,
}
use sirius_education.Mm.Heap.Valid.{IsValid, init-IsValid, kfree_lem}
use sirius_education.Mm.Heap.Alloc.{Served, kmalloc-Served}
use sirius_education.Mm.Brk.{Process}
use sirius_education.User.Heap.{
  Break, UHeap, Memory, Result, umalloc, ufree, urealloc, ucalloc, initial_expansion,
}
use sirius_education.User.Heap
use sirius_education.User.Heap.Alloc.{umalloc-Served}
use sirius_education.User.Heap.Grow
use sirius_education.User.Heap.Free.{kernel_break}
use sirius_education.User.Heap.Resize.{Grown, urealloc-Grown}
use sirius_education.Tests.Memory.{counting, shell}

kmalloc-Served_example :
    (r : ℕ × Heap × ℕ) × (kmalloc counting 2 5000000 (init cold) 0 ≡ done r)
    × Served 5000000 (init cold) r
unfolding init align16 expansion_size
kmalloc-Served_example =
    kmalloc-Served counting 0 5000000 (init cold) 0 init-IsValid.0 (omega arith) (omega arith)
      (omega arith)

abbrev whole : Block
whole = record { addr = heap_base; size = initial_size - header_size; is_free = true }

-- Two blocks in use at the start of the heap, and a free one behind them.
abbrev two_used : List Block
two_used =
    record { addr = heap_base; size = 64; is_free = false }
    ∷ (record { addr = heap_base + 96; size = 32; is_free = false }
        ∷ (record { addr = heap_base + 160; size = initial_size - 192; is_free = true } ∷ []))

abbrev busy_heap : Heap
busy_heap = record { blocks = two_used; current_end = heap_base + initial_size }

busy_heap-IsValid : IsValid busy_heap
busy_heap-IsValid = record {
  tiled = (refl, refl, (refl, refl, (refl, refl, refl)));
  bounded = omega arith;
  started = omega arith;
}

second_used : used_at two_used (heap_base + 96) ≡ some 32
unfolding used_at
second_used = refl

kfree_lem_example :
    (h' : Heap) × (kfree (heap_base + 96 + header_size) busy_heap ≡ done h')
    × IsValid h'
    × IsCoalesced h'.blocks
    × ((x : ℕ) → used_at h'.blocks x ≡ (if (heap_base + 96) == x then none else used_at two_used x))
kfree_lem_example = kfree_lem busy_heap (heap_base + 96) 32 busy_heap-IsValid second_used

first_used : used_at two_used heap_base ≡ some 64
unfolding used_at
first_used = refl

-- A process that starts, over the kernel's own `brk`.
abbrev kernel : Break
kernel = kernel_break counting

cold-IsValid : Heap.Grow.IsValid kernel 0x8000000 Heap.cold (shell, 0)
cold-IsValid = record { aligned = refl; tiled = refl; bounded = omega arith }

umalloc-Served_example :
    Heap.Grow.Served kernel 100 0x8000000 Heap.cold (umalloc kernel 100 Heap.cold (shell, 0))
unfolding align16 initial_expansion Heap.expansion_size
umalloc-Served_example =
    umalloc-Served kernel 100 0x8000000 Heap.cold (shell, 0) cold-IsValid (omega arith)
      (omega arith) (omega arith)

-- The process later, with one block in use.
abbrev later : UHeap
later = record {
  blocks =
      record { addr = 0x8000000; size = 16; is_free = false }
      ∷ (record { addr = 0x8000030; size = 16304; is_free = true } ∷ []);
  current_end = 0x8004000;
}

abbrev grown_shell : Process
grown_shell = record shell { heap_end = 0x8004000 }

later-IsValid : Heap.Grow.IsValid kernel 0x8000000 later (grown_shell, 4)
later-IsValid = record {
  aligned = refl;
  tiled = (refl, refl, (refl, refl, refl));
  bounded = omega arith;
}

block_used : used_at later.blocks 0x8000000 ≡ some 16
unfolding used_at
block_used = refl

urealloc-Grown_example :
    (r : Result kernel) × (urealloc kernel
        (0x8000000 + header_size)
        40000
        (λ a. 7)
        later
        (grown_shell, 4)
      ≡ done r)
    × Grown kernel 0x8000000 0x8000000 16 40000 (λ a. 7) later r
unfolding align16 initial_expansion Heap.expansion_size
urealloc-Grown_example =
    urealloc-Grown kernel 0x8000000 0x8000000 16 40000 (λ a. 7) later (grown_shell, 4) later-IsValid
      block_used (omega arith) (omega arith) (omega arith)
