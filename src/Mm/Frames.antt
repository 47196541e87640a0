-- ===== src/Mm/Frames.antt =====
-- What the memory managers ask of the frame allocator and of the paging code: `pmm_alloc_page` and
-- `pmm_alloc_pages` of kernel/kernel/mm/pmm.c (modelled in Mm/Pmm.antt), and `vmm_map_page`,
-- `vmm_unmap_page` and `vmm_get_physical_address` of kernel/arch/x86_64/mm/vmm.c (modelled in Mm/Paging.antt).
use sirius_education.Common.{ℕ}

pub record Frames : Type 1 where
  pub State : Type 0
  pub alloc_page : State → ℕ × State
  pub alloc_pages : State → ℕ → ℕ × State
  -- The page table root, the virtual and the physical address, and the flags.
  pub map_page : State → ℕ → ℕ → ℕ → ℕ → State
  pub unmap_page : State → ℕ → ℕ → State
  pub physical_address : State → ℕ → ℕ → ℕ

-- `PML4_ADDRESS`, the root of the address space in use.
abbrev pub pml4_address : ℕ
pml4_address = 0xFFFFFFFF80100000

-- How an operation that may dereference a pointer to no header ends.
pub data Outcome (A : Type 0) : Type 0 where
  done : A → Outcome A
  fault : Outcome A
  out_of_fuel : Outcome A
