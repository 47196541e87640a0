-- ===== src/Mm/Pmm/Release.antt =====
-- The releases of pmm.c against its allocations.
use native.Mathlib.Decide.{ℕ_discrete}
use sirius_education.Common.{
  ℕ, zero, suc, ◌+◌, ◌*◌, ◌/◌, ◌≤◌, ◌<◌, ◌≡◌, ◌≢◌, ap, true, false, not, ◌&&◌, Option, inl, inr,
  ◌⊎◌, ◌==◌, arith, Bool-cases, Option-cases,
}
use sirius_education.Common.Word.{page_size}
use sirius_education.Mm.Bitmap.{is_set, find_free_region}
use sirius_education.Mm.Bitmap.Laws.{
  is_set-clear_bit, is_set-clear_bits, length-clear_bit, length-set_bits, length-clear_bits,
}
use sirius_education.Mm.Pmm.{Pmm, alloc_page, free_page, alloc_pages, free_pages}
use sirius_education.Mm.Pmm.Alloc.{
  IsValid, busy, TakesLowest, alloc_page-TakesLowest, alloc_page-IsValid,
}
use sirius_education.Mm.Pmm.Runs.{IsValid-Covers, in_range, TakesRun, alloc_pages-TakesRun}

pub alloc_pages-IsValid : (p : Pmm) (count : ℕ) → IsValid p → IsValid (alloc_pages p count).1
unfolding alloc_pages
alloc_pages-IsValid p count v =
    let o : Option ℕ = find_free_region (is_set 8 p.bitmap) p.total_pages count in
    elim (Option-cases o) [
      | inl e ↦ ground (arith, alloc_page-IsValid p v)
      | inr (s, e) ↦
          ground (arith, alloc_page-IsValid p v, length-set_bits 8 (omega arith) p.bitmap s count)
    ]

pub free_page-IsValid : (p : Pmm) (phys : ℕ) → IsValid p → IsValid (free_page p phys)
unfolding free_page
free_page-IsValid p phys v =
    ground (arith, length-clear_bit 8 (omega arith) p.bitmap (phys / page_size))

pub free_pages-IsValid : (p : Pmm) (phys count : ℕ) → IsValid p → IsValid (free_pages p phys count)
unfolding free_pages
free_pages-IsValid p phys count v = ground (
  arith,
  free_page-IsValid p phys v,
  length-clear_bits 8 (omega arith) p.bitmap (phys / page_size) count,
)

pub busy-free_page :
    (p : Pmm) (s j : ℕ)
    → IsValid p
    → 0 < s
    → s < p.total_pages
    → busy (free_page p (s * page_size)) j ≡ (not (s == j) && busy p j)
unfolding free_page
busy-free_page p s j v pos lt =
    ground (arith, back, is_set-clear_bit 8 (omega arith) p.bitmap s j (omega arith))
  where
    back : s * page_size / page_size ≡ s
    back = omega arith

-- A release at the address of page `s` clears the bits of its range, and no others.
pub busy-free_pages :
    (p : Pmm) (s count j : ℕ)
    → IsValid p
    → 0 < s
    → 0 < count
    → s + count ≤ p.total_pages
    → busy (free_pages p (s * page_size) count) j ≡ (not (in_range s count j) && busy p j)
unfolding free_pages
busy-free_pages p s count j v pos some_page fits = elim (ℕ_discrete count 1) [
  | yes e ↦ ground (arith, busy-free_page p s j v pos (omega arith))
  | no ne ↦ ground (
    arith,
    back,
    is_set-clear_bits 8 (omega arith) p.bitmap s count p.total_pages j (IsValid-Covers p v) fits,
  )
]
  where
    back : s * page_size / page_size ≡ s
    back = omega arith

undone :
    (p : Pmm) (count : ℕ) (r : ℕ × Pmm)
    → IsValid r.1
    → r.1.total_pages ≡ p.total_pages
    → 0 < count
    → TakesRun p count r
    → r.0 ≢ 0
    → (j : ℕ) → busy (free_pages r.1 r.0 count) j ≡ busy p j
undone p count (phys, q) v same pos (inl (all, z, _)) ne j = absurd (ne z)
undone p count (phys, q) v same pos (inr (s, fits, run, first, at, bits)) ne j = rw at (
    ground (
      arith,
      busy-free_pages q s count j v (nonzero s at) pos (omega arith),
      bits j,
      clear (Bool-cases (in_range s count j)),
    ))
  where
    nonzero : (s : ℕ) → phys ≡ s * page_size → 0 < s
    nonzero zero e = absurd (ne (omega arith))
    nonzero (suc s) e = omega arith

    clear :
        (in_range s count j ≡ true) ⊎ (in_range s count j ≡ false)
        → (in_range s count j ≡ true)
        → busy p j ≡ false
    clear _ h = run j (ground arith) (ground arith)

pub total_pages-alloc_pages :
    (p : Pmm) (count : ℕ) → IsValid p → (alloc_pages p count).1.total_pages ≡ p.total_pages
unfolding alloc_pages
total_pages-alloc_pages p count v =
    let o : Option ℕ = find_free_region (is_set 8 p.bitmap) p.total_pages count in
    elim (Option-cases o) [
      | inl e ↦ ground (arith, one (alloc_page p) (alloc_page-TakesLowest p v))
      | inr (s, e) ↦ ground (arith, one (alloc_page p) (alloc_page-TakesLowest p v))
    ]
  where
    one : (r : ℕ × Pmm) → TakesLowest p r → r.1.total_pages ≡ p.total_pages
    one (phys, q) (inl (all, z, same)) = ap (λ (m : Pmm). m.total_pages) same
    one (phys, q) (inr (i, lt, free, below, at, now)) = ap (λ (m : Pmm). m.total_pages) now

-- A run of frames that `pmm_alloc_pages` gave out and `pmm_free_pages` takes back leaves the state
-- of every frame as it was before.
pub free_pages-alloc_pages :
    (p : Pmm) (count : ℕ)
    → IsValid p
    → 0 < count
    → (alloc_pages p count).0 ≢ 0
    → (j : ℕ) → busy (free_pages (alloc_pages p count).1 (alloc_pages p count).0 count) j ≡ busy p j
free_pages-alloc_pages p count v pos ne =
    undone p count (alloc_pages p count) (alloc_pages-IsValid p count v)
      (total_pages-alloc_pages p count v) pos (alloc_pages-TakesRun p count v pos) ne
