-- ===== src/Tests/Paging.antt =====
-- Page tables at concrete states.
use sirius_education.Common.{ℕ, ◌≡◌, refl, true, false, [], ◌∷◌, ◌==◌, ◌&&◌, arith, if◌then◌else◌}
use sirius_education.Mm.Pmm.{Pmm, find_clear_bit, take_page, alloc_from, alloc_page}
use sirius_education.Mm.Bitmap.{is_set, set_bit}
use sirius_education.Mm.Paging.{
  Vmm, Entry, unmap_page, empty, new_table, ensure, set_page, map_page, get_physical_address,
}
use sirius_education.Mm.Paging.Tree.{IsTree}
use sirius_education.Mm.Paging.Ensured.{plenty}
use sirius_education.Mm.Paging.Mapped.{pd_entry, Mapped, map_page-Mapped}
use sirius_education.Mm.Paging.Unmapped.{Unmapped, unmap_page-Unmapped}

-- The first eight frames are taken; the frame 1 is an empty PML4.
abbrev pmm : Pmm
pmm = record { bitmap = 255 ∷ 0 ∷ []; total_pages = 16; bitmap_size = 2 }

abbrev bare : Vmm
bare = record { tables = λ t i. empty; pmm = pmm }

abbrev levels : ℕ → ℕ
levels t = if t == 1 then 4 else 0

abbrev nothing : ℕ → ℕ
nothing t = 0

bare-IsTree : IsTree levels nothing nothing bare
unfolding is_set
bare-IsTree = record {
  frames = record { sized = refl; covered = omega arith; addressable = omega arith };
  memory = omega arith;
  taken = λ t n. ground (arith, n);
  small = λ t n. ground (arith, n);
  child = λ t i l p g. ground (arith, p);
}

enough : plenty 3 bare.pmm ≡ true
unfolding plenty alloc_page alloc_from find_clear_bit take_page set_bit
enough = refl

no_large_page : (pd_entry 1 0xFFFF800010003000 3 bare).large ≡ false
unfolding ensure new_table alloc_page alloc_from find_clear_bit take_page set_bit
no_large_page = refl

map_page-Mapped_example :
    Mapped 1 0xFFFF800010003000 0x5000 bare (map_page 1 0xFFFF800010003000 0x5000 3 bare)
map_page-Mapped_example =
    map_page-Mapped bare-IsTree 1 0xFFFF800010003000 0x5000 3 refl enough (λ p. no_large_page)

-- The mapped page answers, its neighbour does not.
mapped_test :
    (get_physical_address 1 0xFFFF800010003000 (map_page 1 0xFFFF800010003000 0x5000 3 bare)
      ≡ 0x5000)
    × (get_physical_address 1 0xFFFF800010004000 (map_page 1 0xFFFF800010003000 0x5000 3 bare) ≡ 0)
unfolding get_physical_address map_page ensure new_table set_page alloc_page alloc_from
    find_clear_bit take_page set_bit
mapped_test = (refl, refl)

-- The frames 1 to 4 are the tables on the way to an address whose page is the frame 9.
abbrev linked : ℕ → Entry
linked f = record empty { present = true; writable = true; frame = f }

abbrev mapped : Vmm
mapped = record {
  tables = λ t i.
      if (t == 1) && (i == 256)
      then linked 2
      else if (t == 2) && (i == 0)
      then linked 3
      else if (t == 3) && (i == 128)
      then linked 4
      else if (t == 4) && (i == 3)
      then linked 9
      else empty;
  pmm = record { bitmap = 255 ∷ 2 ∷ []; total_pages = 16; bitmap_size = 2 };
}

abbrev mapped_levels : ℕ → ℕ
mapped_levels t =
    if t == 1 then 4 else if t == 2 then 3 else if t == 3 then 2 else if t == 4 then 1 else 0

abbrev parents : ℕ → ℕ
parents t = if t == 2 then 1 else if t == 3 then 2 else if t == 4 then 3 else 0

abbrev slots : ℕ → ℕ
slots t = if t == 2 then 256 else if t == 4 then 128 else 0

mapped-IsTree : IsTree mapped_levels parents slots mapped
unfolding is_set
mapped-IsTree = record {
  frames = record { sized = refl; covered = omega arith; addressable = omega arith };
  memory = omega arith;
  taken = λ t n. ground (arith, n);
  small = λ t n. ground (arith, n);
  child = λ t i l p g. ground (arith, l, p);
}

unmap_page-Unmapped_example :
    Unmapped mapped_levels parents slots 1 0xFFFF800010003000 9 mapped
      (unmap_page 1 0xFFFF800010003000 mapped)
unmap_page-Unmapped_example =
    unmap_page-Unmapped mapped-IsTree 1 0xFFFF800010003000 refl (refl, refl, refl, refl, refl) refl
      (omega arith) (omega arith)
