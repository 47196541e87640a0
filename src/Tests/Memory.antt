-- ===== src/Tests/Memory.antt =====
-- The physical memory manager, the pool and `brk` at concrete states.
use sirius_education.Common.{ℕ, ◌+◌, ◌*◌, ◌≡◌, refl, [], ◌∷◌, some, arith}
use sirius_education.Common.Word.{page_size}
use sirius_education.Mm.Frames.{Frames}
use sirius_education.Mm.Pmm.{
  reclaim, highest_address, place_bitmap, release_regions, bytes_for, Pmm, alloc_page, alloc_pages,
  free_pages, MemoryRegion, free, BootInfo, pages_for,
}
use sirius_education.Mm.Bitmap.{
  is_set, set_bit, set_bits, clear_bit, clear_bits, find_run, find_free_region,
}
use sirius_education.Mm.Pmm
use sirius_education.Mm.Pmm.Alloc.{IsValid, busy, TakesLowest, alloc_page-TakesLowest}
use sirius_education.Mm.Pmm.Runs.{TakesRun, alloc_pages-TakesRun}
use sirius_education.Mm.Pmm.Release.{free_pages-alloc_pages}
use sirius_education.Common.{map}
use sirius_education.Common.Word.{add64}
use sirius_education.Mm.Pmm.Booted.{Booted, init-Booted}
use sirius_education.Mm.Pool.{pool_base}
use sirius_education.Mm.Pool
use sirius_education.Mm.Pool.Alloc.{taken, Allocated, alloc-Allocated, taken-free, free-alloc}
use sirius_education.Mm.Pool.Alloc
use sirius_education.Mm.Brk.{Process}

-- Frames that are handed out in order.
abbrev pub counting : Frames
counting = record {
  State = ℕ;
  alloc_page = λ n. (n * 0x1000 + 0x100000, n + 1);
  alloc_pages = λ n k. (n * 0x1000 + 0x100000, n + k);
  map_page = λ n root va pa flags. n;
  unmap_page = λ n root va. n;
  physical_address = λ n root va. 0;
}

-- Sixteen frames, of which the first two and the fourth are taken.
abbrev sixteen : Pmm
sixteen = record { bitmap = 0x0B ∷ 0 ∷ []; total_pages = 16; bitmap_size = 2 }

sixteen-IsValid : IsValid sixteen
sixteen-IsValid = record { sized = refl; covered = omega arith; addressable = omega arith }

alloc_page-TakesLowest_example : TakesLowest sixteen (alloc_page sixteen)
alloc_page-TakesLowest_example = alloc_page-TakesLowest sixteen sixteen-IsValid

alloc_pages-TakesRun_example : TakesRun sixteen 3 (alloc_pages sixteen 3)
alloc_pages-TakesRun_example = alloc_pages-TakesRun sixteen 3 sixteen-IsValid (omega arith)

three_given : (alloc_pages sixteen 3).0 ≡ 4 * page_size
unfolding alloc_pages find_free_region is_set
three_given = refl

free_pages-alloc_pages_example :
    busy (free_pages (alloc_pages sixteen 3).1 (alloc_pages sixteen 3).0 3) 5 ≡ busy sixteen 5
free_pages-alloc_pages_example =
    free_pages-alloc_pages sixteen 3 sixteen-IsValid (omega arith)
      (λ e. omega (arith, e, three_given)) 5

-- All frames are free.
abbrev all_free : Pmm
all_free = record { bitmap = 0 ∷ []; total_pages = 8; bitmap_size = 1 }

-- A machine with 64 KB, all free, and a kernel of two pages at 32 KB.
abbrev low : MemoryRegion
low = record { start = 0x1000; size = 0xF000; kind = free }

abbrev boot : BootInfo
boot = record { regions = low ∷ []; kernel_address = 0x8000; kernel_memory_size = 0x2000 }

abbrev booted : Pmm
booted = record { bitmap = 0x01 ∷ 0x07 ∷ []; total_pages = 16; bitmap_size = 2 }

boots : Pmm.init boot ≡ some (boot, booted)
unfolding Pmm.init reclaim highest_address place_bitmap release_regions bytes_for pages_for set_bits
    set_bit clear_bits clear_bit
boots = refl

placed_after_kernel : place_bitmap 0x8000 0xA000 2 (low ∷ []) ≡ 0xA000
unfolding place_bitmap
placed_after_kernel = refl

init-Booted_example : Booted 0xA000 boot booted 9
init-Booted_example =
    init-Booted boot boot booted 0xA000 9 (omega arith, tt) (refl, tt) boots placed refl refl
      (omega arith) (omega arith) (omega arith) (omega arith)
  where
    placed :
        place_bitmap boot.kernel_address
          (add64 boot.kernel_address boot.kernel_memory_size)
          booted.bitmap_size
          (map reclaim boot.regions)
        ≡ 0xA000
    placed = unfold reclaim in placed_after_kernel

-- A memory map that begins with a free region at address 0.
abbrev from_zero : MemoryRegion
from_zero = record { start = 0; size = 0x4000; kind = free }

alloc-Allocated_example : Allocated 5000 Pool.init (Pool.alloc counting 5000 Pool.init 0)
alloc-Allocated_example =
    alloc-Allocated counting 5000 Pool.init 0 Pool.Alloc.init-IsValid (omega arith)

given : (Pool.alloc counting 5000 Pool.init 0).0 ≡ pool_base
unfolding Pool.alloc Pool.free_region Pool.pages Pool.alloc_at Pool.init find_free_region find_run
    is_set
given = refl

abbrev pub shell : Process
shell = record { heap_end = 0x8000000; stack_limit = 0x70000000; cr3 = 0x5000 }
