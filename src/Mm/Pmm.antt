-- ===== src/Mm/Pmm.antt =====
-- The physical memory manager of kernel/kernel/mm/pmm.c: one bit for each 4 KB frame, set when the
-- frame is taken. A write past the bitmap, which corrupts memory in C, changes nothing here.
pub mod Alloc
pub mod Runs
pub mod Release
pub mod Bounds
pub mod Init
pub mod Booted
use Prim.Native.Nat.{bit_and}
use sirius_education.Common.{
  ℕ, zero, suc, ◌+◌, ◌-◌, ◌*◌, ◌/◌, ◌%◌, ◌^◌, Bool, true, false, not, ◌&&◌, ◌||◌, Option, none,
  some, List, [], ◌∷◌, map, length, get_or, replicate, ltb, leb, ◌==◌, if◌then◌else◌,
}
use sirius_education.Common.Word.{add64, mul64, page_size}
use sirius_education.Mm.Bitmap.{is_set, set_bit, clear_bit, set_bits, clear_bits, find_free_region}

-- `pmm_bitmap`, `pmm_total_pages` and `pmm_bitmap_size`.
pub record Pmm : Type 0 where
  pub bitmap : List ℕ
  pub total_pages : ℕ
  pub bitmap_size : ℕ

-- The first clear bit of a byte, `rounds` positions from `b` on.
unfoldable pub find_clear_bit : ℕ → ℕ → ℕ → Option ℕ
find_clear_bit byte b zero = none
find_clear_bit byte b (suc rounds) =
    let rest = find_clear_bit byte (b + 1) rounds in
    if bit_and byte (2 ^ b) == 0 then some b else rest

-- The body of the search, once it has the index of a page whose bit is clear.
unfoldable pub take_page : Pmm → ℕ → ℕ × Pmm
take_page p page =
    if leb p.total_pages page
    then (0, p)
    else (mul64 page page_size, record p { bitmap = set_bit 8 p.bitmap page })

-- The loop over the bytes of the bitmap, `rounds` of them from `i` on.
unfoldable pub alloc_from : Pmm → ℕ → ℕ → ℕ × Pmm
alloc_from p i zero = (0, p)
alloc_from p i (suc rounds) =
    let byte = get_or p.bitmap i 0 in
    let rest = alloc_from p (i + 1) rounds in
    if byte == 0xff
    then rest
    else elim (find_clear_bit byte 0 8) [ none ↦ rest | some b ↦ take_page p (i * 8 + b) ]

-- `pmm_alloc_page`: the physical address, 0 for none.
unfoldable pub alloc_page : Pmm → ℕ × Pmm
alloc_page p = alloc_from p 0 p.bitmap_size

-- `pmm_free_page`
unfoldable pub free_page : Pmm → ℕ → Pmm
free_page p phys =
    if not (phys % page_size == 0) || (phys == 0)
    then p
    else if leb p.total_pages (phys / page_size)
    then p
    else record p { bitmap = clear_bit 8 p.bitmap (phys / page_size) }

-- `pmm_alloc_pages`
unfoldable pub alloc_pages : Pmm → ℕ → ℕ × Pmm
alloc_pages p count =
    if count == 0
    then (0, p)
    else if count == 1
    then alloc_page p
    else elim (find_free_region (is_set 8 p.bitmap) p.total_pages count) [
      | none ↦ (0, p)
      | some start ↦ (mul64 start page_size, record p { bitmap = set_bits 8 p.bitmap start count })
    ]

-- `pmm_free_pages`
unfoldable pub free_pages : Pmm → ℕ → ℕ → Pmm
free_pages p phys count =
    if count == 0
    then p
    else if count == 1
    then free_page p phys
    else if not (phys % page_size == 0) || (phys == 0)
    then p
    else if ltb p.total_pages (add64 (phys / page_size) count)
    then p
    else record p { bitmap = clear_bits 8 p.bitmap (phys / page_size) count }

-- `MEMORY_TYPE` of kernel/boot_info.h.
pub data MemoryType : Type 0 where
  free reserved runtime acpi nvs mmio unusable loader_data : MemoryType

pub record MemoryRegion : Type 0 where
  pub start : ℕ
  pub size : ℕ
  pub kind : MemoryType

-- The fields of `BOOT_INFO` that `pmm_init` reads; the list is the first `MemoryRegionCount` regions.
pub record BootInfo : Type 0 where
  pub regions : List MemoryRegion
  pub kernel_address : ℕ
  pub kernel_memory_size : ℕ

unfoldable pub is_free : MemoryType → Bool
is_free free = true
is_free _ = false

unfoldable pub reclaim : MemoryRegion → MemoryRegion
reclaim r = record r { kind = elim r.kind [ loader_data ↦ free | k ↦ k ] }

unfoldable pub highest_address : ℕ → List MemoryRegion → ℕ
highest_address highest [] = highest
highest_address highest (r ∷ rs) =
    let region_end = add64 r.start r.size in
    highest_address (if ltb highest region_end then region_end else highest) rs

-- The address for the bitmap, 0 when no region has room.
unfoldable pub place_bitmap : ℕ → ℕ → ℕ → List MemoryRegion → ℕ
unfolding is_free
place_bitmap kernel_start kernel_end size [] = 0
place_bitmap kernel_start kernel_end size (r ∷ rs) =
    let region_end = add64 r.start r.size in
    let rest = place_bitmap kernel_start kernel_end size rs in
    if is_free r.kind && leb size r.size
    then if not (ltb r.start kernel_end && ltb kernel_start region_end)
      then r.start
      else if leb (add64 kernel_end size) region_end
      then kernel_end
      else if leb (add64 r.start size) kernel_start && ltb kernel_start region_end
      then r.start
      else rest
    else rest

-- Step 4 of `pmm_init`: the pages of the free regions.
unfoldable pub release_regions : List ℕ → List MemoryRegion → List ℕ
unfolding is_free
release_regions bm [] = bm
release_regions bm (r ∷ rs) =
    release_regions
      (if is_free r.kind then clear_bits 8 bm (r.start / page_size) (r.size / page_size) else bm) rs

-- The number of bitmap bytes for `total` pages.
unfoldable pub bytes_for : ℕ → ℕ
bytes_for total = if total % 8 == 0 then total / 8 else total / 8 + 1

-- Pages that `size` bytes take, rounded up.
unfoldable pub pages_for : ℕ → ℕ
pages_for size = add64 size (page_size - 1) / page_size

-- `pmm_init`: the memory map that it leaves and the manager; `none` where it stops in `for(;;)`.
unfoldable pub init : BootInfo → Option (BootInfo × Pmm)
init boot =
    if ltb (length boot.regions) 1
    then none
    else let regions = map reclaim boot.regions in
      let total = highest_address 0 regions / page_size in
      let size = bytes_for total in
      let kernel_end = add64 boot.kernel_address boot.kernel_memory_size in
      let place = place_bitmap boot.kernel_address kernel_end size regions in
      if place == 0
      then none
      else let released = release_regions (replicate size 0xff) regions in
        let kernel_kept =
          set_bits 8 released (boot.kernel_address / page_size)
            (pages_for boot.kernel_memory_size) in
        let kept = set_bits 8 kernel_kept (place / page_size) (pages_for size) in
        some (
          record boot { regions = regions },
          record { bitmap = kept; total_pages = total; bitmap_size = size },
        )
