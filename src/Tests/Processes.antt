-- ===== src/Tests/Processes.antt =====
-- Strings, kernel modules, shared memory and signals at concrete states.
use sirius_education.Common.{
  ℕ, ◌≡◌, ◌≢◌, refl, ap, true, false, List, [], ◌∷◌, ◌++◌, length, some, arith,
}
use sirius_education.CString.{strcmp}
use sirius_education.CString.Compare.{is_text, cstring, Compared, strcmp-Compared}
use sirius_education.Kmod.{Symbol, Module}
use sirius_education.Ipc.{Segment, Shm, Process, shm_at, detach_segment, ipc_cleanup, find, empty}
use sirius_education.Ipc.Count.{
  IsValid, Attached, Freed, uses, copies, refs, shm_at-Attached, detach_segment-Freed,
  ipc_cleanup-IsValid,
}
use sirius_education.Mm.Pmm.{Pmm}
use sirius_education.Mm.Paging.{Entry}

-- `kfree` and `kmalloc`
abbrev kfree_text : List ℕ
kfree_text = 107 ∷ 102 ∷ 114 ∷ 101 ∷ 101 ∷ []

abbrev kmalloc_text : List ℕ
kmalloc_text = 107 ∷ 109 ∷ 97 ∷ 108 ∷ 108 ∷ 111 ∷ 99 ∷ []

kfree-is_text : is_text kfree_text ≡ true
unfolding is_text
kfree-is_text = refl

kmalloc-is_text : is_text kmalloc_text ≡ true
unfolding is_text
kmalloc-is_text = refl

strcmp-Compared_example :
    Compared kfree_text kmalloc_text
      (strcmp (cstring kfree_text []) (cstring kmalloc_text (5 ∷ [])))
strcmp-Compared_example =
    strcmp-Compared kfree_text kmalloc_text [] (5 ∷ []) kfree-is_text kmalloc-is_text (omega arith)

kfree≢kmalloc : kfree_text ≢ kmalloc_text
kfree≢kmalloc e = omega (arith, ap length e)

abbrev before : List Symbol
before = record { name = cstring kfree_text []; address = 0x1000 } ∷ []

abbrev first_module : Module
first_module = record {
  addr = 0x100;
  name = cstring kfree_text [];
  has_exit = false;
  section_allocs = 0;
  sections = [];
}

abbrev second_module : Module
second_module = record {
  addr = 0x200;
  name = cstring kmalloc_text [];
  has_exit = true;
  section_allocs = 0x300;
  sections = 0x400 ∷ 0 ∷ 0x500 ∷ [];
}

-- A segment that two processes hold.
abbrev frames : Pmm
frames = record { bitmap = 0x0F ∷ 0 ∷ []; total_pages = 16; bitmap_size = 2 }

abbrev none_mapped : Entry
none_mapped = record {
  present = false;
  writable = false;
  user = false;
  large = false;
  no_execute = false;
  frame = 0;
}

abbrev shared : Shm
shared = record {
  table = record { id = 1; phys_frame = 0x3000; ref_count = 2; is_active = true } ∷ (empty ∷ []);
  next_id = 2;
  vmm = record { tables = λ t i. none_mapped; pmm = frames };
}

shared-IsValid : IsValid shared (1 ∷ 1 ∷ [])
unfolding copies refs uses
shared-IsValid = record {
  once = λ q. ground arith;
  counted = λ q nz. ground arith;
  fresh = λ q le. ground (arith, le);
  started = omega arith;
}

detach_segment-Freed_example :
    IsValid (detach_segment 1 shared) (1 ∷ [])
    × ((s : Segment) × (find 1 shared.table ≡ some s)
        × Freed 1 (1 ∷ []) s shared (detach_segment 1 shared))
detach_segment-Freed_example =
    detach_segment-Freed 1 shared (1 ∷ []) (λ e. omega (arith, e)) shared-IsValid

abbrev holder : Process
holder = record {
  shm_ids = 1 ∷ 0 ∷ [];
  shm_virtual_addresses = 0x8000000 ∷ 0 ∷ [];
  pending_signals = 0;
  cr3 = 0x1000;
}

shm_at-Attached_example : Attached 1 holder shared (1 ∷ 1 ∷ []) (shm_at 1 holder shared)
shm_at-Attached_example = shm_at-Attached 1 holder shared (1 ∷ 1 ∷ []) shared-IsValid

held-IsValid : IsValid shared (holder.shm_ids ++ (1 ∷ []))
unfolding copies refs uses
held-IsValid = record {
  once = λ q. ground arith;
  counted = λ q nz. ground (arith, nz);
  fresh = λ q le. ground (arith, le);
  started = omega arith;
}

ipc_cleanup-IsValid_example :
    IsValid (ipc_cleanup holder shared).1 (1 ∷ [])
    × ((q : ℕ) → q ≢ 0 → uses q (ipc_cleanup holder shared).0.shm_ids ≡ 0)
ipc_cleanup-IsValid_example = ipc_cleanup-IsValid holder shared (1 ∷ []) held-IsValid

abbrev sigterm : ℕ
sigterm = 15
