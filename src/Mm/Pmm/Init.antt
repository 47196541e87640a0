-- ===== src/Mm/Pmm/Init.antt =====
-- `pmm_init`: which frames are free once the manager is up.
use sirius_education.Common.{
  ℕ, zero, suc, ◌+◌, ◌*◌, ◌/◌, ◌%◌, ◌^◌, ◌≤◌, ◌<◌, ◌≡◌, refl, ◌∙◌, Bool, true, false, not, ◌&&◌,
  ◌||◌, none, some, inl, inr, List, [], ◌∷◌, map, length, length-replicate, get_or, replicate, ltb,
  if◌then◌else◌, arith, Bool-cases,
}
use sirius_education.Common.Word.{add64, page_size}
use sirius_education.Common.Bits.{full_byte}
use sirius_education.Mm.Bitmap.{is_set, set_bits, clear_bits}
use sirius_education.Mm.Bitmap.Laws.{
  Covers, is_set-bit, is_set-set_bits, is_set-clear_bits, length-set_bits, length-clear_bits,
}
use sirius_education.Mm.Pmm.{
  Pmm, MemoryRegion, BootInfo, is_free, reclaim, highest_address, place_bitmap, release_regions,
  bytes_for, pages_for, init,
}
use sirius_education.Mm.Pmm.Alloc.{IsValid, busy}
use sirius_education.Mm.Pmm.Runs.{in_range}

-- Page `j` lies in one of the regions that the memory map calls free.
abbrev pub usable : List MemoryRegion → ℕ → Bool
usable [] j = false
usable (r ∷ rs) j =
    is_free r.kind && in_range (r.start / page_size) (r.size / page_size) j || usable rs j

-- No region runs past the address space.
abbrev pub NoWrap : List MemoryRegion → Type 0
NoWrap [] = Unit {0}
NoWrap (r ∷ rs) = (r.start + r.size < 2 ^ 64) × NoWrap rs

abbrev Below : ℕ → List MemoryRegion → Type 0
Below total [] = Unit {0}
Below total (r ∷ rs) = (r.start / page_size + r.size / page_size ≤ total) × Below total rs

le-highest_address : (h : ℕ) (rs : List MemoryRegion) → h ≤ highest_address h rs
unfolding highest_address
le-highest_address h [] = omega arith
le-highest_address h (r ∷ rs) = ground (
  arith,
  le-highest_address (if ltb h (add64 r.start r.size) then add64 r.start r.size else h) rs,
)

highest_address-Below :
    (h : ℕ) (rs : List MemoryRegion) → NoWrap rs → Below (highest_address h rs / page_size) rs
unfolding highest_address
highest_address-Below h [] n = tt
highest_address-Below h (r ∷ rs) n =
    let next : ℕ = if ltb h (add64 r.start r.size) then add64 r.start r.size else h in
    (ground (arith, le-highest_address next rs), highest_address-Below next rs n.1)

pub highest_address-lt :
    (h : ℕ) (rs : List MemoryRegion) → h < 2 ^ 64 → highest_address h rs < 2 ^ 64
unfolding highest_address
highest_address-lt h [] lt = lt
highest_address-lt h (r ∷ rs) lt =
    highest_address-lt (if ltb h (add64 r.start r.size) then add64 r.start r.size else h) rs
      (ground arith)

length-release_regions :
    (bm : List ℕ) (rs : List MemoryRegion) → length (release_regions bm rs) ≡ length bm
unfolding release_regions
length-release_regions bm [] = refl
length-release_regions bm (r ∷ rs) =
    let s : ℕ = r.start / page_size in
    let n : ℕ = r.size / page_size in
    ground (
      arith,
      length-release_regions (if is_free r.kind then clear_bits 8 bm s n else bm) rs,
      length-clear_bits 8 (omega arith) bm s n,
    )

is_set-release_regions :
    (bm : List ℕ) (rs : List MemoryRegion) (total j : ℕ)
    → Covers 8 total bm
    → Below total rs
    → is_set 8 (release_regions bm rs) j ≡ (not (usable rs j) && is_set 8 bm j)
unfolding release_regions
is_set-release_regions bm [] total j c b = refl
is_set-release_regions bm (r ∷ rs) total j c b = elim (Bool-cases (is_free r.kind)) [
  | inl yes_free ↦ ground (
    arith,
    is_set-release_regions (clear_bits 8 bm s n) rs total j
        (λ i lt. rw (length-clear_bits 8 (omega arith) bm s n) (c i lt)) b.1,
    is_set-clear_bits 8 (omega arith) bm s n total j c b.0,
  )
  | inr kept ↦ ground (arith, is_set-release_regions bm rs total j c b.1)
]
  where
    s : ℕ
    s = r.start / page_size

    n : ℕ
    n = r.size / page_size

-- `memset(pmm_bitmap, 0xFF, size)` marks every page.
is_set-replicate : (size j : ℕ) → j / 8 < size → is_set 8 (replicate size 255) j ≡ true
is_set-replicate size j h = rw (is_set-bit 8 (omega arith) (replicate size 255) j) (
    rw (
      full_byte (get_or (replicate size 255) (j / 8) 0) (j % 8) (byte size (j / 8) h)
        (omega arith)))
  where
    byte : (n i : ℕ) → i < n → get_or {A = ℕ} (replicate n 255) i 0 ≡ 255
    byte zero i lt = absurd (omega arith)
    byte (suc n) zero lt = refl
    byte (suc n) (suc i) lt = byte n i (omega arith)

reclaim-NoWrap : (rs : List MemoryRegion) → NoWrap rs → NoWrap (map reclaim rs)
unfolding reclaim
reclaim-NoWrap [] n = tt
reclaim-NoWrap (r ∷ rs) n = (n.0, reclaim-NoWrap rs n.1)

bytes_for-covers : (total : ℕ) → total ≤ bytes_for total * 8
unfolding bytes_for
bytes_for-covers total = ground arith

abbrev pub managed : BootInfo → Pmm
managed boot =
    let regions = map reclaim boot.regions in
    let total = highest_address 0 regions / page_size in
    let size = bytes_for total in
    let kernel_end = add64 boot.kernel_address boot.kernel_memory_size in
    let place = place_bitmap boot.kernel_address kernel_end size regions in
    let released = release_regions (replicate size 0xff) regions in
    let kernel_kept =
      set_bits 8 released (boot.kernel_address / page_size) (pages_for boot.kernel_memory_size) in
    let kept = set_bits 8 kernel_kept (place / page_size) (pages_for size) in
    record { bitmap = kept; total_pages = total; bitmap_size = size }

pub init_parts :
    (boot b : BootInfo) (p : Pmm)
    → init boot ≡ some (b, p)
    → (b ≡ record boot { regions = map reclaim boot.regions }) × (p ≡ managed boot)
unfolding init
init_parts boot b p e = ground arith

-- The frames that `size` bytes at `addr` are reserved as.
abbrev pub reserved : ℕ → ℕ → ℕ → Bool
reserved addr size j = in_range (addr / page_size) (pages_for size) j

managed-IsValid : (boot : BootInfo) → NoWrap boot.regions → IsValid (managed boot)
managed-IsValid boot n =
    let regions = map reclaim boot.regions in
    let total : ℕ = highest_address 0 regions / page_size in
    let size : ℕ = bytes_for total in
    let released = release_regions (replicate size 0xff) regions in
    let kernel_kept =
      set_bits 8 released (boot.kernel_address / page_size) (pages_for boot.kernel_memory_size) in
    record {
      sized =
          length-set_bits 8 (omega arith) kernel_kept _ _
          ∙ length-set_bits 8 (omega arith) released _ _
          ∙ length-release_regions (replicate size 0xff) regions
          ∙ length-replicate size 0xff;
      covered = bytes_for-covers total;
      addressable = omega (arith, highest_address-lt 0 regions (omega arith));
    }

module _ (boot : BootInfo) (n : NoWrap boot.regions) where
  abbrev map_of : List MemoryRegion
  map_of = map reclaim boot.regions

  abbrev total_of : ℕ
  total_of = highest_address 0 map_of / page_size

  abbrev released_of : List ℕ
  released_of = release_regions (replicate (bytes_for total_of) 0xff) map_of

  released-Covers : Covers 8 total_of released_of
  released-Covers i lt = omega (
    arith,
    length-release_regions (replicate (bytes_for total_of) 0xff) map_of,
    length-replicate {A = ℕ} (bytes_for total_of) 0xff,
    bytes_for-covers total_of,
  )

  released-busy : (j : ℕ) → j < total_of → is_set 8 released_of j ≡ not (usable map_of j)
  released-busy j lt = ground (
    arith,
    is_set-release_regions (replicate (bytes_for total_of) 0xff) map_of total_of j
        (λ i il.
          omega
            (arith, length-replicate {A = ℕ} (bytes_for total_of) 0xff, bytes_for-covers total_of))
        (highest_address-Below 0 map_of (reclaim-NoWrap boot.regions n)),
    is_set-replicate (bytes_for total_of) j (omega (arith, bytes_for-covers total_of)),
  )

  kept-busy :
      (place j : ℕ)
      → boot.kernel_address / page_size + pages_for boot.kernel_memory_size ≤ total_of
      → place / page_size + pages_for (bytes_for total_of) ≤ total_of
      → j < total_of
      → is_set 8
          (set_bits 8
            (set_bits 8 released_of
              (boot.kernel_address / page_size)
              (pages_for boot.kernel_memory_size))
            (place / page_size)
            (pages_for (bytes_for total_of)))
          j
        ≡ (reserved place (bytes_for total_of) j
            || reserved boot.kernel_address boot.kernel_memory_size j
            || not (usable map_of j))
  kept-busy place j kf pf lt =
      let ks : ℕ = boot.kernel_address / page_size in
      let kn : ℕ = pages_for boot.kernel_memory_size in
      ground (
        arith,
        is_set-set_bits 8 (omega arith) (set_bits 8 released_of ks kn) (place / page_size)
            (pages_for (bytes_for total_of)) total_of j
            (λ i il. rw (length-set_bits 8 (omega arith) released_of ks kn) (released-Covers i il))
            pf,
        is_set-set_bits 8 (omega arith) released_of ks kn total_of j released-Covers kf,
        released-busy j lt,
      )

-- The frames by the numbers with which the code computes.
pub init_facts :
    (boot b : BootInfo) (p : Pmm) (place : ℕ)
    → NoWrap boot.regions
    → b ≡ record boot { regions = map reclaim boot.regions }
    → p ≡ managed boot
    → place_bitmap b.kernel_address
        (add64 b.kernel_address b.kernel_memory_size)
        p.bitmap_size
        b.regions
      ≡ place
    → (j : ℕ) → b.kernel_address / page_size + pages_for b.kernel_memory_size ≤ p.total_pages
    → place / page_size + pages_for p.bitmap_size ≤ p.total_pages
    → j < p.total_pages
    → IsValid p
      × (busy p j ≡ (
          reserved place p.bitmap_size j
          || reserved b.kernel_address b.kernel_memory_size j
          || not (usable b.regions j)))
init_facts boot b p place n eb ep =
    rw (eb, ep)
      (λ at j kf pf lt. (managed-IsValid boot n, rw at (kept-busy boot n place j kf pf lt)))

-- The bug at the first region: if the memory map begins with a free region at address 0 that has room
-- for the bitmap and ends below the kernel, `pmm_init` chooses address 0 and takes it for a failure.
pub init-stops_at_zero :
    (r : MemoryRegion) (rs : List MemoryRegion) (kernel_address kernel_memory_size : ℕ)
    → is_free (reclaim r).kind ≡ true
    → r.start ≡ 0
    → bytes_for (highest_address 0 (map reclaim (r ∷ rs)) / page_size) ≤ r.size
    → add64 r.start r.size ≤ kernel_address
    → init (record {
      regions = r ∷ rs;
      kernel_address = kernel_address;
      kernel_memory_size = kernel_memory_size;
    })
      ≡ none
unfolding init place_bitmap reclaim
init-stops_at_zero r rs kernel_address kernel_memory_size fr z room apart = ground arith
