-- ===== src/Mm/Heap.antt =====
-- The kernel heap of kernel/kernel/mm/heap.c. The lock is held for the whole of each call, so a call
-- is one step.
pub mod Valid
pub mod Alloc
use sirius_education.Common.{
  ℕ, zero, suc, ◌+◌, ◌-◌, ◌*◌, ◌/◌, ◌%◌, ◌^◌, Bool, true, false, Option, none, some, List, [], ◌∷◌,
  ltb, ◌==◌, if◌then◌else◌,
}
use sirius_education.Common.Word.{add64, sub64, page_size}
use sirius_education.Mm.Blocks.{
  Block, header_size, align16, best_fit, carve, append_space, release, coalesce,
}
use sirius_education.Mm.Frames.{Frames, pml4_address, Outcome, done, fault, out_of_fuel}

-- `g_heap_start` (the list) and `g_heap_current_end`.
pub record Heap : Type 0 where
  pub blocks : List Block
  pub current_end : ℕ

-- `KERNEL_HEAP_VIRTUAL_BASE` and `KERNEL_HEAP_INITIAL_SIZE`
abbrev pub heap_base : ℕ
heap_base = 0xFFFF800040000000

abbrev pub initial_size : ℕ
initial_size = 4 * 1024 * 1024

-- The static state before `kheap_init`.
abbrev pub cold : Heap
cold = record { blocks = []; current_end = heap_base + initial_size }

-- `kheap_init`
unfoldable pub init : Heap → Heap
init h = record h {
  blocks = record { addr = heap_base; size = initial_size - header_size; is_free = true } ∷ [];
}

-- `expansion_size`
unfoldable pub expansion_size : ℕ → ℕ
expansion_size size =
    let standard : ℕ = 1024 * 1024 in
    if ltb standard (add64 size header_size)
    then add64 (add64 size header_size) (page_size - 1) / page_size * page_size
    else standard

module _ (frames : Frames) where
  open frames use {State, alloc_page, map_page}

  -- The loop over `offset`; false when the physical memory is exhausted.
  unfoldable pub map_pages : ℕ → ℕ → ℕ → State → Bool × State
  map_pages stop offset zero st = (true, st)
  map_pages stop offset (suc rounds) st =
      let (phys, st') = alloc_page st in
      let rest =
        map_pages stop (offset + page_size) rounds
          (map_page st' pml4_address (add64 stop offset) phys 0x2) in
      if phys == 0 then (false, st') else rest

  -- `kmalloc`, step 2: the heap grows; with no block at all the walk to the last one faults.
  unfoldable pub expand : ℕ → Heap → State → Outcome (Bool × Heap × State)
  unfolding map_pages
  expand size h st =
      let grown = expansion_size size in
      let (ok, st') = map_pages h.current_end 0 ((grown + (page_size - 1)) / page_size) st in
      let new : Block = record {
        addr = h.current_end;
        size = sub64 grown header_size;
        is_free = true;
      } in
      if ok
      then elim h.blocks [
        | [] ↦ fault
        | b ∷ bs ↦ done (
          true,
          record { blocks = append_space b bs new; current_end = add64 h.current_end grown },
          st',
        )
      ]
      else done (false, h, st')

  -- `kmalloc` from the label `retry_search` on, entered at most `fuel` times.
  unfoldable pub retry_search : ℕ → ℕ → Heap → State → Outcome (ℕ × Heap × State)
  retry_search zero size h st = out_of_fuel
  retry_search (suc fuel) size h st = elim (best_fit size h.blocks 0xFFFFFFFFFFFFFFFF none) [
    | some a ↦ done (add64 a header_size, record h { blocks = carve a size h.blocks }, st)
    | none ↦ elim (expand size h st) [
      | done (true, h', st') ↦ retry_search fuel size h' st'
      | done (false, h', st') ↦ done (0, h', st')
      | fault ↦ fault
      | out_of_fuel ↦ out_of_fuel
    ]
  ]

  -- `kmalloc`: the pointer, 0 for null.
  unfoldable pub kmalloc : ℕ → ℕ → Heap → State → Outcome (ℕ × Heap × State)
  kmalloc fuel size h st =
      if size == 0 then done (0, h, st) else retry_search fuel (align16 size) h st

-- `kfree`; a pointer behind no header of the list would write elsewhere, and is a fault here.
unfoldable pub kfree : ℕ → Heap → Outcome Heap
kfree ptr h = if ptr == 0 then done h else elim (release (sub64 ptr header_size) h.blocks) [
  | none ↦ fault
  | some bs ↦ done (record h { blocks = coalesce bs })
]
