-- ===== src/Mm/Pmm/Booted.antt =====
-- The frames after `pmm_init`, in terms of the bytes of the kernel, the bitmap and the memory map.
use sirius_education.Common.{
  ℕ, ◌+◌, ◌*◌, ◌/◌, ◌%◌, ◌^◌, ◌≤◌, ◌<◌, ◌≡◌, refl, ◌∙◌, Bool, true, not, ◌||◌, ◌&&◌, some, inl, inr,
  ◌⊎◌, List, [], ◌∷◌, map, arith, Bool-cases,
}
use sirius_education.Common.Word.{add64, page_size}
use sirius_education.Mm.Pmm.{
  Pmm, MemoryRegion, MemoryType, BootInfo, is_free, reclaim, place_bitmap, bytes_for, pages_for,
  init,
}
use sirius_education.Mm.Pmm.Alloc.{IsValid, busy}
use sirius_education.Mm.Pmm.Runs.{in_range}
use sirius_education.Mm.Pmm.Init.{
  usable, NoWrap, reserved, managed, init_parts, highest_address-lt, init_facts,
}

-- One of the `size` bytes at `addr` lies in frame `j`.
abbrev pub Touches : ℕ → ℕ → ℕ → Type 0
Touches addr size j = (b : ℕ) × (addr ≤ b) × (b < addr + size) × (b / page_size ≡ j)

-- The memory that the loader has used counts as free.
abbrev pub IsFree : MemoryType → Type 0
IsFree k = (k ≡ MemoryType.free) ⊎ (k ≡ MemoryType.loader_data)

-- Frame `j` lies in a free region of the memory map, with all its bytes.
abbrev pub Free : List MemoryRegion → ℕ → Type 0
Free [] j = ⊥
Free (r ∷ rs) j =
    (IsFree r.kind × (r.start ≤ j * page_size) × ((j + 1) * page_size ≤ r.start + r.size))
    ⊎ Free rs j

-- The regions start at frames.
abbrev pub Aligned : List MemoryRegion → Type 0
Aligned [] = Unit {0}
Aligned (r ∷ rs) = (r.start % page_size ≡ 0) × Aligned rs

pub record Booted (place : ℕ) (boot : BootInfo) (p : Pmm) (j : ℕ) : Type 0 where
  pub valid : IsValid p
  pub bitmap_taken : Touches place p.bitmap_size j → busy p j ≡ true
  pub kernel_taken : Touches boot.kernel_address boot.kernel_memory_size j → busy p j ≡ true
  pub others_taken : ¬ Free boot.regions j → busy p j ≡ true
  pub only :
      busy p j ≡ true
      → Touches place p.bitmap_size j
        ⊎ Touches boot.kernel_address boot.kernel_memory_size j
        ⊎ (¬ Free boot.regions j)

reserved-Touches :
    (addr size j : ℕ)
    → addr % page_size ≡ 0
    → size < 2 ^ 63
    → (reserved addr size j ≡ true → Touches addr size j)
      × (Touches addr size j → reserved addr size j ≡ true)
unfolding pages_for
reserved-Touches addr size j at small = (
  λ h. (j * page_size, ground (arith, h, at), ground (arith, h, at, small), omega arith),
  λ (b, lo, hi, e). ground (arith, at, small, lo, hi, e),
)

kind-IsFree :
    (k : MemoryType)
    → (let k' = (reclaim (record { start = 0; size = 0; kind = k })).kind in
        (is_free k' ≡ true → IsFree k) × (IsFree k → is_free k' ≡ true))
unfolding reclaim is_free
kind-IsFree MemoryType.free = (λ h. inl refl, λ h. refl)
kind-IsFree MemoryType.loader_data = (λ h. inr refl, λ h. refl)
kind-IsFree MemoryType.reserved = (λ h. ground (arith, h), λ h. ground (arith, h))
kind-IsFree MemoryType.runtime = (λ h. ground (arith, h), λ h. ground (arith, h))
kind-IsFree MemoryType.acpi = (λ h. ground (arith, h), λ h. ground (arith, h))
kind-IsFree MemoryType.nvs = (λ h. ground (arith, h), λ h. ground (arith, h))
kind-IsFree MemoryType.mmio = (λ h. ground (arith, h), λ h. ground (arith, h))
kind-IsFree MemoryType.unusable = (λ h. ground (arith, h), λ h. ground (arith, h))

inside :
    (start size j : ℕ)
    → start % page_size ≡ 0
    → (in_range (start / page_size) (size / page_size) j ≡ true
        → (start ≤ j * page_size) × ((j + 1) * page_size ≤ start + size))
      × ((start ≤ j * page_size) × ((j + 1) * page_size ≤ start + size)
          → in_range (start / page_size) (size / page_size) j ≡ true)
inside start size j at =
    (λ h. (ground (arith, h, at), ground (arith, h, at)), λ (lo, hi). ground (arith, at, lo, hi))

usable-cons :
    (r : MemoryRegion) (rs : List MemoryRegion) (j : ℕ)
    → r.start % page_size ≡ 0
    → (usable (map reclaim rs) j ≡ true → Free rs j)
      × (Free rs j → usable (map reclaim rs) j ≡ true)
    → (usable (map reclaim (r ∷ rs)) j ≡ true → Free (r ∷ rs) j)
      × (Free (r ∷ rs) j → usable (map reclaim (r ∷ rs)) j ≡ true)
usable-cons r rs j at rest = (there, back)
  where
    lies : Bool
    lies = in_range (r.start / page_size) (r.size / page_size) j

    kind : Bool
    kind = is_free (reclaim (record { start = 0; size = 0; kind = r.kind })).kind

    eq : usable (map reclaim (r ∷ rs)) j ≡ (kind && lies || usable (map reclaim rs) j)
    eq = unfold reclaim in refl

    within :
        is_free (reclaim (record { start = 0; size = 0; kind = r.kind })).kind ≡ true
        → (r.start ≤ j * page_size) × ((j + 1) * page_size ≤ r.start + r.size)
        → IsFree r.kind × (r.start ≤ j * page_size) × ((j + 1) * page_size ≤ r.start + r.size)
    within k (lo, hi) = ((kind-IsFree r.kind).0 k, lo, hi)

    there : usable (map reclaim (r ∷ rs)) j ≡ true → Free (r ∷ rs) j
    there h = elim (Bool-cases kind) [
      | inl k ↦ elim (Bool-cases lies) [
        | inl i ↦ inl (within k ((inside r.start r.size j at).0 i))
        | inr o ↦ inr (rest.0 (ground (arith, k, o, eq, h)))
      ]
      | inr n ↦ inr (rest.0 (ground (arith, n, eq, h)))
    ]

    back : Free (r ∷ rs) j → usable (map reclaim (r ∷ rs)) j ≡ true
    back (inl (k, lo, hi)) =
        eq ∙ rw ((kind-IsFree r.kind).1 k, (inside r.start r.size j at).1 (lo, hi)) refl
    back (inr f) = eq ∙ rw (rest.1 f) (ground arith)

usable-Free :
    (rs : List MemoryRegion) (j : ℕ)
    → Aligned rs
    → (usable (map reclaim rs) j ≡ true → Free rs j)
      × (Free rs j → usable (map reclaim rs) j ≡ true)
usable-Free [] j at = (λ h. ground (arith, h), λ h. absurd h)
usable-Free (r ∷ rs) j at = usable-cons r rs j at.0 (usable-Free rs j at.1)

bitmap_size-small : (boot : BootInfo) → (managed boot).bitmap_size < 2 ^ 63
unfolding bytes_for
bitmap_size-small boot =
    ground (arith, highest_address-lt 0 (map reclaim boot.regions) (omega arith))

-- The test for a frame that is taken, by its three reasons.
by_reasons :
    (place j : ℕ) (boot : BootInfo) (p : Pmm) (r k u : Bool)
    → IsValid p
    → (r ≡ true → Touches place p.bitmap_size j) × (Touches place p.bitmap_size j → r ≡ true)
    → (k ≡ true → Touches boot.kernel_address boot.kernel_memory_size j)
      × (Touches boot.kernel_address boot.kernel_memory_size j → k ≡ true)
    → (u ≡ true → Free boot.regions j) × (Free boot.regions j → u ≡ true)
    → busy p j ≡ (r || k || not u)
    → Booted place boot p j
by_reasons place j boot p r k u v on_bitmap on_kernel on_map e = record {
  valid = v;
  bitmap_taken = λ t. e ∙ rw (on_bitmap.1 t) refl;
  kernel_taken = λ t. e ∙ (rw (on_kernel.1 t) (ground arith));
  others_taken = λ n. elim (Bool-cases u) [
    | inl yes_free ↦ absurd (n (on_map.0 yes_free))
    | inr none_free ↦ e ∙ (rw none_free (ground arith))
  ];
  only = λ h. elim (Bool-cases r) [
    | inl a ↦ inl (on_bitmap.0 a)
    | inr na ↦ elim (Bool-cases k) [
      | inl b ↦ inr (inl (on_kernel.0 b))
      | inr nb ↦ inr (inr (λ f. absurd (ground (arith, na, nb, on_map.1 f, e, h))))
    ]
  ];
}

pages_fit :
    (addr size total : ℕ)
    → addr % page_size ≡ 0
    → size < 2 ^ 63
    → addr + size ≤ total * page_size
    → addr / page_size + pages_for size ≤ total
unfolding pages_for
pages_fit addr size total at small fits = omega (arith, at, small, fits)

-- Where no region wraps round the address space, the regions, the kernel and the address that is chosen for
-- the bitmap are aligned to frames and the kernel, of less than 2^63 bytes, and the bitmap end by the last frame, then after
-- `pmm_init` the manager is valid, and a frame is taken exactly if a byte of the bitmap or of the kernel lies
-- in it or it does not lie in one region that is free or was used by the loader.
pub init-Booted :
    (boot b : BootInfo) (p : Pmm) (place j : ℕ)
    → NoWrap boot.regions
    → Aligned boot.regions
    → init boot ≡ some (b, p)
    → place_bitmap boot.kernel_address
        (add64 boot.kernel_address boot.kernel_memory_size)
        p.bitmap_size
        (map reclaim boot.regions)
      ≡ place
    → place % page_size ≡ 0
    → boot.kernel_address % page_size ≡ 0
    → boot.kernel_address + boot.kernel_memory_size ≤ p.total_pages * page_size
    → boot.kernel_memory_size < 2 ^ 63
    → place + p.bitmap_size ≤ p.total_pages * page_size
    → j < p.total_pages
    → Booted place boot p j
init-Booted boot b p place j n al e at pa ka kf ks pf lt =
    by_reasons place j boot p (reserved place p.bitmap_size j)
      (reserved boot.kernel_address boot.kernel_memory_size j) (usable (map reclaim boot.regions) j)
      facts.0 (reserved-Touches place p.bitmap_size j pa size_small)
      (reserved-Touches boot.kernel_address boot.kernel_memory_size j ka ks)
      (usable-Free boot.regions j al) facts.1
  where
    parts : (b ≡ record boot { regions = map reclaim boot.regions }) × (p ≡ managed boot)
    parts = init_parts boot b p e

    size_small : p.bitmap_size < 2 ^ 63
    size_small = rw parts.1 (bitmap_size-small boot)

    facts :
        IsValid p
        × (busy p j ≡ (
            reserved place p.bitmap_size j
            || reserved boot.kernel_address boot.kernel_memory_size j
            || not (usable (map reclaim boot.regions) j)))
    facts =
        init_facts boot (record boot { regions = map reclaim boot.regions }) p place n refl parts.1
          at j (pages_fit boot.kernel_address boot.kernel_memory_size p.total_pages ka ks kf)
          (pages_fit place p.bitmap_size p.total_pages pa size_small pf) lt
