-- ===== src/Mm/Pmm/Runs.antt =====
-- `pmm_alloc_pages` and the releases of pmm.c: which frames each of them takes and gives back.
use sirius_education.Common.{
  ℕ, ◌+◌, ◌*◌, ◌≤◌, ◌<◌, ◌≡◌, refl, ap, Bool, false, ◌&&◌, ◌||◌, Option, none, some, inl, inr, ◌⊎◌,
  ltb, leb, ◌==◌, arith, Bool-cases, ==_iff,
}
use sirius_education.Common.Word.{mul64, page_size}
use sirius_education.Mm.Bitmap.{set_bits, find_free_region}
use sirius_education.Mm.Bitmap.Laws.{Covers, is_set-set_bit, is_set-set_bits}
use sirius_education.Mm.Bitmap.FirstFit.{FreeRun, FirstFit, find_free_region-FirstFit}
use sirius_education.Mm.Pmm.{Pmm, alloc_page, alloc_pages}
use sirius_education.Mm.Pmm.Alloc.{IsValid, busy, TakesLowest, alloc_page-TakesLowest}

pub IsValid-Covers : (p : Pmm) → IsValid p → Covers 8 p.total_pages p.bitmap
IsValid-Covers p v i h = omega (arith)

-- `in_range s n j`: page `j` is one of the `n` pages from `s` on.
abbrev pub in_range : ℕ → ℕ → ℕ → Bool
in_range s n j = leb s j && ltb j (s + n)

-- What a valid manager may answer to a request for `count` frames: the lowest run that is long
-- enough, exactly whose bits are then set, or nothing when there is no such run.
abbrev pub TakesRun : Pmm → ℕ → ℕ × Pmm → Type 0
TakesRun p count (phys, q) =
    (((s : ℕ) → s + count ≤ p.total_pages → ¬ FreeRun (busy p) s count) × (phys ≡ 0) × (q ≡ p))
    ⊎ ((s : ℕ) × (s + count ≤ p.total_pages)
        × FreeRun (busy p) s count
        × ((t : ℕ) → t < s → ¬ FreeRun (busy p) t count)
        × (phys ≡ s * page_size)
        × ((j : ℕ) → busy q j ≡ (in_range s count j || busy p j)))

-- One page is a run of length one.
TakesLowest-TakesRun : (p : Pmm) (r : ℕ × Pmm) → IsValid p → TakesLowest p r → TakesRun p 1 r
TakesLowest-TakesRun p (phys, q) v (inl (all, z, same)) =
    inl (λ s h run. ground (arith, all s (omega arith), run s (omega arith) (omega arith)), z, same)
TakesLowest-TakesRun p (phys, q) v (inr (i, lt, clear, below, at, now)) = inr (
  i,
  omega arith,
  λ k lo hi. only k (omega arith),
  λ t tl run. ground (arith, below t tl, run t (omega arith) (omega arith)),
  at,
  λ j. ground (
    arith,
    ap (λ (m : Pmm). busy m j) now,
    is_set-set_bit 8 (omega arith) p.bitmap i j (IsValid-Covers p v i lt),
  ),
)
  where
    only : (k : ℕ) → k ≡ i → busy p k ≡ false
    only k e = rw e clear

found_run-TakesRun :
    (p : Pmm) (count : ℕ) (o : Option ℕ)
    → IsValid p
    → 0 < count
    → FirstFit (busy p) p.total_pages count o
    → TakesRun p count (elim o [
      | none ↦ (0, p)
      | some start ↦ (mul64 start page_size, record p { bitmap = set_bits 8 p.bitmap start count })
    ])
found_run-TakesRun p count none v pos f = inl (f, refl, refl)
found_run-TakesRun p count (some s) v pos f = inr (
  s,
  f.0,
  f.1,
  f.2,
  omega (arith, f.0),
  λ j. is_set-set_bits 8 (omega arith) p.bitmap s count p.total_pages j (IsValid-Covers p v) f.0,
)

-- `pmm_alloc_pages` is a first fit: it takes the lowest run of `count` free frames and no other
-- frame, and fails only when there is none.
pub alloc_pages-TakesRun :
    (p : Pmm) (count : ℕ) → IsValid p → 0 < count → TakesRun p count (alloc_pages p count)
unfolding alloc_pages
alloc_pages-TakesRun p count v h = elim (Bool-cases (count == 1)) [
  | inl one ↦
      rw (positive, one)
        (rw ((==_iff count 1).0 one)
          (TakesLowest-TakesRun p (alloc_page p) v (alloc_page-TakesLowest p v)))
  | inr more ↦
      rw (positive, more)
        (found_run-TakesRun p count (find_free_region (busy p) p.total_pages count) v h
          (find_free_region-FirstFit (busy p) p.total_pages count h))
]
  where
    positive : (count == 0) ≡ false
    positive = ground arith
