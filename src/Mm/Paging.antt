-- ===== src/Mm/Paging.antt =====
-- The page tables of kernel/arch/x86_64/mm/vmm.c: mapping, unmapping and lookup in a tree of four levels.
--
-- A table is named by the number of its frame. The code reaches it through a temporary window
-- (`vmm_scratch_map_internal`), which shows the frame that it is given; the lock is held for the whole of
-- each call, and the flush of the translation cache is left out.
pub mod Tree
pub mod Walk
pub mod Ensured
pub mod Written
pub mod Mapped
pub mod Unmapped
use Prim.Native.Nat.{bit_and, bit_or}
use sirius_education.Common.{
  ℕ, zero, suc, ◌+◌, ◌-◌, ◌*◌, ◌/◌, ◌%◌, ◌^◌, Bool, true, false, not, ◌&&◌, Option, none, some, leb,
  ◌==◌, if◌then◌else◌,
}
use sirius_education.Common.Word.{add64, page_size}
use sirius_education.Mm.Pmm.{Pmm, alloc_page, free_page}

-- The fields of an entry that the code reads or writes; bit 7 is `large`, whatever the level.
pub record Entry : Type 0 where
  pub present : Bool
  pub writable : Bool
  pub user : Bool
  pub large : Bool
  pub no_execute : Bool
  pub frame : ℕ

pub record Vmm : Type 0 where
  pub tables : ℕ → ℕ → Entry
  pub pmm : Pmm

abbrev pub empty : Entry
empty = record {
  present = false;
  writable = false;
  user = false;
  large = false;
  no_execute = false;
  frame = 0;
}

-- `GET_PML4_INDEX` and the others: the index of an address at a level.
abbrev pub pml4_index : ℕ → ℕ
pml4_index virt = virt / 2 ^ 39 % 512

abbrev pub pdpt_index : ℕ → ℕ
pdpt_index virt = virt / 2 ^ 30 % 512

abbrev pub pd_index : ℕ → ℕ
pd_index virt = virt / 2 ^ 21 % 512

abbrev pub pt_index : ℕ → ℕ
pt_index virt = virt / 2 ^ 12 % 512

-- `flags & (1ULL << b)`
abbrev pub flag : ℕ → ℕ → Bool
flag flags b = not (bit_and flags (2 ^ b) == 0)

abbrev pub set_entry : ℕ → ℕ → Entry → Vmm → Vmm
set_entry t i e st = record st { tables = λ s j. if (s == t) && (j == i) then e else st.tables s j }

-- The loop that sets the 512 entries of a table to 0.
abbrev pub clear_table : ℕ → Vmm → Vmm
clear_table t st = record st { tables = λ s j. if s == t then empty else st.tables s j }

-- A new table of the level below, for entry `i` of the table `t`; `is_pd` where `t` is a page directory.
unfoldable pub new_table : Bool → ℕ → ℕ → ℕ → Vmm → ℕ × Vmm
new_table is_pd t i flags st =
    let phys = (alloc_page st.pmm).0 in
    let cleared = clear_table (phys / page_size) (record st { pmm = (alloc_page st.pmm).1 }) in
    let e = cleared.tables t i in
    (
      phys,
      set_entry t i
          (record e {
            present = true;
            writable = flag flags 1;
            user = flag flags 2;
            large = if is_pd then false else e.large;
            frame = phys / page_size % 2 ^ 40;
          })
          cleared,
    )

-- Steps 1 to 3 of `vmm_map_page`: the address of the table of the level below. One of the three masks an
-- existing address, with `limit - 1`.
unfoldable pub ensure : Bool → ℕ → ℕ → ℕ → ℕ → Vmm → ℕ × Vmm
ensure is_pd limit t i flags st =
    if (st.tables t i).present
    then ((st.tables t i).frame * page_size % limit, st)
    else new_table is_pd t i flags st

-- Step 4: the entry of the page.
unfoldable pub set_page : ℕ → ℕ → ℕ → ℕ → Vmm → Vmm
set_page t i phys flags st =
    set_entry t i
      (record (st.tables t i) {
        present = true;
        writable = flag flags 1;
        user = flag flags 2;
        frame = phys / page_size % 2 ^ 40;
        no_execute = flag flags 63;
      })
      st

-- `vmm_map_page`
unfoldable pub map_page : ℕ → ℕ → ℕ → ℕ → Vmm → Vmm
map_page root virt phys flags st =
    let pdpt = ensure false (2 ^ 64) root (pml4_index virt) flags st in
    let pd = ensure false (2 ^ 36) (pdpt.0 / page_size) (pdpt_index virt) flags pdpt.1 in
    let pt = ensure true (2 ^ 64) (pd.0 / page_size) (pd_index virt) flags pd.1 in
    set_page (pt.0 / page_size) (pt_index virt) phys flags pt.1

-- `vmm_unmap_page`
unfoldable pub unmap_page : ℕ → ℕ → Vmm → Vmm
unmap_page root virt st =
    let e4 = st.tables root (pml4_index virt) in
    let e3 = st.tables e4.frame (pdpt_index virt) in
    let e2 = st.tables e3.frame (pd_index virt) in
    let e1 = st.tables e2.frame (pt_index virt) in
    if not e4.present
    then st
    else if not e3.present
    then st
    else if not e2.present
    then st
    else if not e1.present
    then st
    else set_entry e2.frame (pt_index virt) (record e1 { present = false; frame = 0 })
        (record st { pmm = free_page st.pmm (e1.frame * page_size) })

-- `vmm_get_physical_address`, with 0 for an address that is not mapped
unfoldable pub get_physical_address : ℕ → ℕ → Vmm → ℕ
get_physical_address root virt st =
    let e4 = st.tables root (pml4_index virt) in
    let e3 = st.tables e4.frame (pdpt_index virt) in
    let e2 = st.tables e3.frame (pd_index virt) in
    let e1 = st.tables e2.frame (pt_index virt) in
    if not e4.present
    then 0
    else if not e3.present
    then 0
    else if not e2.present
    then 0
    else if e2.large
    then e2.frame * page_size
    else if not e1.present
    then 0
    else e1.frame * page_size

-- `vmm_get_physical`, which knows pages of 1 GB too; a field of 40 bits and an offset are joined bit by bit.
unfoldable pub get_physical : ℕ → ℕ → Vmm → ℕ
get_physical root virt st =
    let e4 = st.tables root (pml4_index virt) in
    let e3 = st.tables e4.frame (pdpt_index virt) in
    let e2 = st.tables e3.frame (pd_index virt) in
    let e1 = st.tables e2.frame (pt_index virt) in
    if not e4.present
    then 0
    else if not e3.present
    then 0
    else if e3.large
    then bit_or (e3.frame * page_size) (virt % 2 ^ 30)
    else if not e2.present
    then 0
    else if e2.large
    then bit_or (e2.frame * page_size) (virt % 2 ^ 21)
    else if not e1.present
    then 0
    else bit_or (e1.frame * page_size) (virt % 2 ^ 12)

-- `KERNEL_MMIO_VIRTUAL_BASE` and `KERNEL_MMIO_VIRTUAL_END`
abbrev pub mmio_base : ℕ
mmio_base = 0xFFFFFF0000000000

abbrev pub mmio_end : ℕ
mmio_end = 0xFFFFFF8000000000

-- The loop of `vmm_map_device` over `rounds` pages, with the next free virtual address; `none` is the panic.
unfoldable pub map_devices : ℕ → ℕ → ℕ → ℕ → Vmm → Option (ℕ × Vmm)
map_devices zero root next phys st = some (next, st)
map_devices (suc rounds) root next phys st =
    let mapped = map_page root next phys 0x1B st in
    let rest = map_devices rounds root (add64 next page_size) (add64 phys page_size) mapped in
    if leb mmio_end (add64 next page_size) then none else rest

-- `vmm_map_device`: the address, 0 for NULL, and the next free one, `next_available_virtual`.
unfoldable pub map_device : ℕ → ℕ → ℕ → ℕ → Vmm → Option (ℕ × ℕ × Vmm)
map_device root phys_addr size next st =
    if size == 0
    then some (0, next, st)
    else elim (map_devices (add64 size (phys_addr % page_size + (page_size - 1)) / page_size) root
        next (phys_addr / page_size * page_size) st) [
          | none ↦ none
          | some (after, st') ↦ some (add64 next (phys_addr % page_size), after, st')
        ]
