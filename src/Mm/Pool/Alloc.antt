-- ===== src/Mm/Pool/Alloc.antt =====
-- What `pool_alloc` hands out and `pool_free` takes back.
use sirius_education.Common.{
  ℕ, ◌+◌, ◌-◌, ◌*◌, ◌/◌, ◌^◌, ◌≤◌, ◌<◌, ◌≡◌, ◌≢◌, refl, ◌∙◌, Bool, true, false, not, ◌&&◌, ◌||◌,
  ◌⊎◌, inl, inr, Option, none, some, List, length, length-replicate, ltb, leb, ◌==◌, arith,
  Bool-cases,
}
use sirius_education.Common.Word.{page_size}
use sirius_education.Mm.Bitmap.{is_set, find_free_region}
use sirius_education.Mm.Bitmap.Laws.{Covers, is_set-set_bits, is_set-clear_bits, length-set_bits}
use sirius_education.Mm.Bitmap.FirstFit.{FreeRun, FirstFit, find_free_region-FirstFit}
use sirius_education.Mm.Frames.{Frames}
use sirius_education.Mm.Pool.{
  pool_base, max_pages, free_region, mark, unmark, pages, init, alloc_at, alloc, free,
}

-- One bit for each page of the window.
abbrev pub IsValid : List ℕ → Type 0
IsValid bm = length bm ≡ max_pages / 32

IsValid-Covers : (bm : List ℕ) → IsValid bm → Covers 32 max_pages bm
IsValid-Covers bm v i lt = omega (arith, v)

pub init-IsValid : IsValid init
unfolding init
init-IsValid = length-replicate {A = ℕ} (max_pages / 32) 0

abbrev pub taken : List ℕ → ℕ → Bool
taken bm i = is_set 32 bm i

abbrev pub in_range : ℕ → ℕ → ℕ → Bool
in_range s n j = leb s j && ltb j (s + n)

-- The answers of `pool_alloc` on a valid bitmap: null, and the bitmap as it was; or the address of
-- the lowest run of `pages size` free pages, exactly whose bits are then set.
module _ {S : Type 0} where
  abbrev pub Allocated : ℕ → List ℕ → ℕ × List ℕ × S → Type 0
  Allocated size bm (ptr, bm', st) =
      IsValid bm'
      × (((ptr ≡ 0) × (bm' ≡ bm))
          ⊎ ((s : ℕ) × (ptr ≡ pool_base + s * page_size)
              × (s + pages size ≤ max_pages)
              × (0 < pages size)
              × (size ≤ pages size * page_size)
              × FreeRun (taken bm) s (pages size)
              × ((t : ℕ) → t < s → ¬ FreeRun (taken bm) t (pages size))
              × ((j : ℕ) → taken bm' j ≡ (in_range s (pages size) j || taken bm j))))

pages_hold : (size : ℕ) → size < 2 ^ 64 → pages size ≢ 0 → size ≤ pages size * page_size
unfolding pages
pages_hold size lt ne = omega arith

module _ (frames : Frames) where
  open frames use {State, alloc_pages}

  searched :
      (size : ℕ) (bm : List ℕ) (st : State) (o : Option ℕ)
      → IsValid bm
      → size < 2 ^ 64
      → pages size ≢ 0
      → FirstFit (taken bm) max_pages (pages size) o
      → Allocated {S = State} size bm
          (elim o [ none ↦ (0, bm, st) | some start ↦ alloc_at frames start (pages size) bm st ])
  unfolding alloc_at mark
  searched size bm st none v lt ne f = (v, inl (refl, refl))
  searched size bm st (some s) v lt ne f =
      elim (Bool-cases ((alloc_pages st (pages size)).0 == 0)) [
        | inl no_frames ↦ rw no_frames (v, inl (refl, refl))
        | inr backed ↦ rw backed (
          length-set_bits 32 (omega arith) bm s (pages size) ∙ v,
          inr (
            s,
            refl,
            f.0,
            omega arith,
            pages_hold size lt ne,
            f.1,
            f.2,
            λ j.
                is_set-set_bits 32 (omega arith) bm s (pages size) max_pages j (IsValid-Covers bm v)
                  f.0,
          ),
        )
      ]

  -- `pool_alloc` on a valid bitmap either returns null and leaves the bitmap as it was, or hands out
  -- the lowest run of free pages that holds `size` bytes, sets exactly their bits, and leaves the
  -- bitmap valid.
  pub alloc-Allocated :
      (size : ℕ) (bm : List ℕ) (st : State)
      → IsValid bm
      → size < 2 ^ 64
      → Allocated size bm (alloc frames size bm st)
  unfolding alloc free_region
  alloc-Allocated size bm st v lt = elim (Bool-cases (size == 0)) [
    | inl none_asked ↦ rw none_asked (v, inl (refl, refl))
    | inr asked ↦ elim (Bool-cases ((pages size == 0) || ltb max_pages (pages size))) [
      | inl bad ↦ rw (asked, bad) (v, inl (refl, refl))
      | inr good ↦
          rw (asked, good)
            (searched size bm st (find_free_region (taken bm) max_pages (pages size)) v lt
              (ground arith)
              (find_free_region-FirstFit (taken bm) max_pages (pages size) (ground arith)))
    ]
  ]

  -- `pool_free` of a run of pages in the window clears exactly their bits.
  pub taken-free :
      (s size : ℕ) (bm : List ℕ) (st : State) (j : ℕ)
      → IsValid bm
      → 0 < size
      → 0 < pages size
      → s + pages size ≤ max_pages
      → taken (free frames (pool_base + s * page_size) size bm st).0 j
        ≡ (not (in_range s (pages size) j) && taken bm j)
  unfolding free unmark
  taken-free s size bm st j v some_byte some_page fits = ground (
    arith,
    back,
    is_set-clear_bits 32 (omega arith) bm s (pages size) max_pages j (IsValid-Covers bm v) fits,
  )
    where
      back : (pool_base + s * page_size - pool_base) / page_size ≡ s
      back = omega arith

  undone :
      (size : ℕ) (bm : List ℕ) (r : ℕ × List ℕ × State)
      → 0 < size
      → Allocated size bm r
      → r.0 ≢ 0
      → (j : ℕ) → taken (free frames r.0 size r.1 r.2).0 j ≡ taken bm j
  undone size bm (ptr, bm', st) pos (v, inl (z, e)) ne j = absurd (ne z)
  undone size bm (ptr, bm', st) pos (v, inr (s, at, fits, some_page, holds, run, first, bits)) ne
        j =
      rw at (ground (arith, taken-free s size bm' st j v pos some_page fits, bits j, clear))
    where
      clear : in_range s (pages size) j ≡ true → taken bm j ≡ false
      clear h = run j (ground arith) (ground arith)

  -- What `pool_alloc` handed out, `pool_free` takes back: each page is as it was before.
  pub free-alloc :
      (size : ℕ) (bm : List ℕ) (st : State)
      → IsValid bm
      → 0 < size
      → size < 2 ^ 64
      → (alloc frames size bm st).0 ≢ 0
      → (j : ℕ)
      → let (ptr, bm', st') = alloc frames size bm st in
        taken (free frames ptr size bm' st').0 j ≡ taken bm j
  free-alloc size bm st v pos lt ne j =
      undone size bm (alloc frames size bm st) pos (alloc-Allocated size bm st v lt) ne j
