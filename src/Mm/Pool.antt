-- ===== src/Mm/Pool.antt =====
-- The pool of kernel/kernel/mm/pool.c: a window of virtual pages, one bit for each, handed out in
-- runs that are backed by contiguous frames. The lock is held for the whole of each call.
pub mod Alloc
use sirius_education.Common.{
  ℕ, zero, suc, ◌+◌, ◌-◌, ◌*◌, ◌/◌, ◌%◌, ◌^◌, Bool, ◌||◌, Option, none, some, List, replicate, ltb,
  leb, ◌==◌, if◌then◌else◌,
}
use sirius_education.Common.Word.{add64, mul64, page_size}
use sirius_education.Mm.Bitmap.{is_set, set_bits, clear_bits, find_free_region}
use sirius_education.Mm.Frames.{Frames, pml4_address}

-- `KERNEL_POOL_VIRTUAL_BASE` and `KERNEL_POOL_MAX_PAGES`
abbrev pub pool_base : ℕ
pool_base = 0xFFFF800010000000

abbrev pub max_pages : ℕ
max_pages = 131072

-- `PAGE_PRESENT | PAGE_WRITABLE`
abbrev pub page_flags : ℕ
page_flags = 3

-- `pool_init`: the bitmap that it leaves.
unfoldable pub init : List ℕ
init = replicate (max_pages / 32) 0

-- `pool_find_free_region`, `none` for -1
unfoldable pub free_region : List ℕ → ℕ → Option ℕ
free_region bm num_pages = find_free_region (is_set 32 bm) max_pages num_pages

-- `pool_set_bits`
unfoldable pub mark : List ℕ → ℕ → ℕ → List ℕ
mark bm start num_pages = set_bits 32 bm start num_pages

-- `pool_clear_bits`
unfoldable pub unmark : List ℕ → ℕ → ℕ → List ℕ
unmark bm start num_pages = clear_bits 32 bm start num_pages

-- `num_pages`
unfoldable pub pages : ℕ → ℕ
pages size = add64 size (page_size - 1) / page_size

module _ (frames : Frames) where
  open frames use {State, alloc_pages, map_page, unmap_page, physical_address}

  -- The mapping loop, `rounds` pages from `va` and `pa` on.
  unfoldable pub map_range : State → ℕ → ℕ → ℕ → State
  map_range st va pa zero = st
  map_range st va pa (suc rounds) =
      map_range (map_page st pml4_address va pa page_flags) (add64 va page_size)
        (add64 pa page_size) rounds

  unfoldable pub unmap_range : State → ℕ → ℕ → State
  unmap_range st va zero = st
  unmap_range st va (suc rounds) =
      unmap_range (unmap_page st pml4_address va) (add64 va page_size) rounds

  -- Steps 2 and 3 of `pool_alloc`, once it has a region.
  unfoldable pub alloc_at : ℕ → ℕ → List ℕ → State → ℕ × List ℕ × State
  unfolding map_range
  alloc_at start num_pages bm st =
      let base_va = pool_base + start * page_size in
      let (phys, st') = alloc_pages st num_pages in
      if phys == 0
      then (0, bm, st')
      else (base_va, mark bm start num_pages, map_range st' base_va phys num_pages)

  -- `pool_alloc`: the address, 0 for null, the bitmap and the frames.
  unfoldable pub alloc : ℕ → List ℕ → State → ℕ × List ℕ × State
  alloc size bm st =
      let num_pages = pages size in
      if size == 0
      then (0, bm, st)
      else if (num_pages == 0) || ltb max_pages num_pages
      then (0, bm, st)
      else elim (free_region bm num_pages) [
        | none ↦ (0, bm, st)
        | some start ↦ alloc_at start num_pages bm st
      ]

  -- `pool_free`
  unfoldable pub free : ℕ → ℕ → List ℕ → State → List ℕ × State
  free ptr size bm st =
      let num_pages = pages size in
      let start = (ptr - pool_base) / page_size in
      if size == 0
      then (bm, st)
      else if ltb ptr pool_base || (num_pages == 0)
      then (bm, st)
      else if ltb max_pages (add64 start num_pages)
      then (bm, st)
      else (unmark bm start num_pages, unmap_range st ptr num_pages)

  -- `pool_virtual_to_physical`
  unfoldable pub virtual_to_physical : State → ℕ → ℕ
  virtual_to_physical st va =
      let pa = physical_address st pml4_address (va / page_size * page_size) in
      if ltb va pool_base || leb (pool_base + max_pages * page_size) va
      then 0
      else if pa == 0
      then 0
      else add64 pa (va % page_size)
