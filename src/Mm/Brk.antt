-- ===== src/Mm/Brk.antt =====
-- `brk` of kernel/kernel/mm/brk.c: the heap limit of the current process.
use sirius_education.Common.{
  ℕ, zero, suc, ◌+◌, ◌-◌, ◌*◌, ◌/◌, ◌≤◌, ◌<◌, ◌≡◌, Bool, true, false, ◌||◌, Option, none, some, ltb,
  leb, ◌==◌, if◌then◌else◌, arith, ◌⊎◌,
}
use sirius_education.Common.Word.{add64, page_size}
use sirius_education.Mm.Frames.{Frames}

-- The fields of the PCB that `brk` reads.
pub record Process : Type 0 where
  pub heap_end : ℕ
  pub stack_limit : ℕ
  pub cr3 : ℕ

-- `USER_HEAP_VIRTUAL_BASE` and `PAGE_USER_FLAGS`
abbrev pub user_heap_base : ℕ
user_heap_base = 0x8000000

abbrev pub page_user_flags : ℕ
page_user_flags = 7

-- `(x + PAGE_SIZE - 1) & ~0xFFFUL`
unfoldable pub page_ceil : ℕ → ℕ
page_ceil x = add64 x (page_size - 1) / page_size * page_size

module _ (frames : Frames) where
  open frames use {State, alloc_page, map_page}

  -- The loop of case B, `rounds` pages from `v_addr` on; false when the physical memory is exhausted.
  unfoldable pub grow : ℕ → ℕ → ℕ → State → Bool × State
  grow root v_addr zero st = (true, st)
  grow root v_addr (suc rounds) st =
      let (phys, st') = alloc_page st in
      let rest =
        grow root (v_addr + page_size) rounds (map_page st' root v_addr phys page_user_flags) in
      if phys == 0 then (false, st') else rest

  -- What case B returns, by whether all pages were found.
  unfoldable pub finish :
      ℕ × Option Process → ℕ × Option Process → Bool × State → ℕ × Option Process × State
  finish (r, p) (r', p') (true, st) = (r', p', st)
  finish (r, p) (r', p') (false, st) = (r, p, st)

  -- `brk`; `none` for a thread with no process.
  unfoldable pub brk : ℕ → Option Process → State → ℕ × Option Process × State
  brk new_break none st = (0, none, st)
  brk new_break (some proc) st =
      let old_break = proc.heap_end in
      let moved = some (record proc { heap_end = new_break }) in
      if (new_break == 0) || (new_break == old_break)
      then (old_break, some proc, st)
      else if ltb new_break user_heap_base || leb proc.stack_limit new_break
      then (old_break, some proc, st)
      else if ltb old_break new_break
      then finish (old_break, some proc) (new_break, moved)
          (grow proc.cr3 (page_ceil old_break)
            ((page_ceil new_break - page_ceil old_break) / page_size) st)
      else (new_break, moved, st)

  -- The answers of `brk` to a process: the old limit with nothing moved, or the new one, which then
  -- lies between the heap base and the stack.
  abbrev pub Answers : ℕ → Process → ℕ × Option Process × State → Type 0
  Answers new_break proc (r, p, st) =
      ((r ≡ proc.heap_end) × (p ≡ some proc))
      ⊎ ((r ≡ new_break)
          × (p ≡ some (record proc { heap_end = new_break }))
          × (user_heap_base ≤ new_break)
          × (new_break < proc.stack_limit))

  -- Whatever is asked, `brk` returns the limit that the process then has, and moves it only to an
  -- address between the heap base and the stack.
  pub brk-Answers :
      (new_break : ℕ) (proc : Process) (st : State)
      → Answers new_break proc (brk new_break (some proc) st)
  unfolding brk finish
  brk-Answers new_break proc st = ground arith

  -- A smaller limit in the heap is always granted, and takes no frame.
  pub brk_shrinks :
      (new_break : ℕ) (proc : Process) (st : State)
      → user_heap_base ≤ new_break
      → new_break < proc.stack_limit
      → new_break < proc.heap_end
      → brk new_break (some proc) st ≡ (new_break, some (record proc { heap_end = new_break }), st)
  unfolding brk
  brk_shrinks new_break proc st low high smaller = ground arith
