-- ===== src/Mm/Pmm/Alloc.antt =====
-- `pmm_alloc_page` and `pmm_free_page` of pmm.c.
use Prim.Native.Nat.{bit_and}
use native.Mathlib.Decide.{dec_lt, ℕ_discrete}
use sirius_education.Common.{
  ℕ, zero, suc, ◌+◌, ◌-◌, ◌*◌, ◌/◌, ◌%◌, ◌^◌, ◌≤◌, ◌<◌, ◌≡◌, refl, ap, ◌∙◌, Bool, true, false, not,
  Option, none, some, inl, inr, ◌⊎◌, length, get_or, leb, ◌==◌, arith, Bool-cases, leb→gt, ==_iff,
}
use sirius_education.Common.Word.{mul64, page_size}
use sirius_education.Common.Bits.{full_byte}
use sirius_education.Mm.Bitmap.{is_set, set_bit}
use sirius_education.Mm.Bitmap.Laws.{is_set-bit, is_set-set_bit, length-set_bit}
use sirius_education.Mm.Pmm.{Pmm, find_clear_bit, take_page, alloc_from, alloc_page}

-- The bitmap has a bit for each page, and the page numbers fit an address.
pub record IsValid (p : Pmm) : Type 0 where
  pub sized : length p.bitmap ≡ p.bitmap_size
  pub covered : p.total_pages ≤ p.bitmap_size * 8
  pub addressable : p.total_pages ≤ 2 ^ 52

abbrev pub busy : Pmm → ℕ → Bool
busy p i = is_set 8 p.bitmap i

-- What `find_clear_bit` says of a byte.
abbrev LowestClear : ℕ → ℕ → ℕ → Option ℕ → Type 0
LowestClear byte lo hi none = (k : ℕ) → lo ≤ k → k < hi → (bit_and byte (2 ^ k) == 0) ≡ false
LowestClear byte lo hi (some b) =
    (lo ≤ b)
    × (b < hi)
    × ((bit_and byte (2 ^ b) == 0) ≡ true)
    × ((k : ℕ) → lo ≤ k → k < b → (bit_and byte (2 ^ k) == 0) ≡ false)

one_more :
    (byte b hi : ℕ) (o : Option ℕ)
    → (bit_and byte (2 ^ b) == 0) ≡ false
    → LowestClear byte (b + 1) hi o
    → LowestClear byte b hi o
one_more byte b hi none taken h =
    λ k lo lt. elim (ℕ_discrete k b) [ yes e ↦ rw e taken | no ne ↦ h k (omega arith) lt ]
one_more byte b hi (some c) taken h = (
  omega (arith, h.0),
  h.1,
  h.2,
  λ k lo lt. elim (ℕ_discrete k b) [ yes e ↦ rw e taken | no ne ↦ h.3 k (omega arith) lt ],
)

find_clear_bit-LowestClear :
    (byte b rounds : ℕ) → LowestClear byte b (b + rounds) (find_clear_bit byte b rounds)
unfolding find_clear_bit
find_clear_bit-LowestClear byte b zero = λ k lo hi. absurd (omega arith)
find_clear_bit-LowestClear byte b (suc rounds) = elim (Bool-cases (bit_and byte (2 ^ b) == 0)) [
  | inl clear ↦ rw clear (omega arith, omega arith, clear, λ k lo hi. absurd (omega arith))
  | inr taken ↦ rw taken (
      one_more byte b (b + suc rounds) (find_clear_bit byte (b + 1) rounds) taken
        (rw shift (find_clear_bit-LowestClear byte (b + 1) rounds)))
]
  where
    shift : b + suc rounds ≡ b + 1 + rounds
    shift = omega arith

-- The bit of page `i * 8 + b` is bit `b` of byte `i`.
busy-bit :
    (p : Pmm) (i b : ℕ)
    → b < 8
    → busy p (i * 8 + b) ≡ not (bit_and (get_or p.bitmap i 0) (2 ^ b) == 0)
unfolding is_set
busy-bit p i b h = rw (byte, position)
  where
    byte : (i * 8 + b) / 8 ≡ i
    byte = omega arith

    position : (i * 8 + b) % 8 ≡ b
    position = omega arith

busy_full : (p : Pmm) (i b : ℕ) → b < 8 → get_or p.bitmap i 0 ≡ 255 → busy p (i * 8 + b) ≡ true
busy_full p i b h e =
    rw (is_set-bit 8 (omega arith) p.bitmap (i * 8 + b), byte, position)
      (rw (full_byte (get_or p.bitmap i 0) b e h))
  where
    byte : (i * 8 + b) / 8 ≡ i
    byte = omega arith

    position : (i * 8 + b) % 8 ≡ b
    position = omega arith

abbrev AllBusy : Pmm → ℕ → Type 0
AllBusy p n = (j : ℕ) → j < n → busy p j ≡ true

-- Eight more pages are known once each bit of byte `i` is.
next_byte :
    (p : Pmm) (i : ℕ)
    → AllBusy p (i * 8)
    → ((b : ℕ) → b < 8 → busy p (i * 8 + b) ≡ true)
    → AllBusy p ((i + 1) * 8)
next_byte p i below here j h = elim (dec_lt j (i * 8)) [
  | yes lt ↦ below j lt
  | no ge ↦ rw (split ge) (here (j - i * 8) (omega arith))
]
  where
    split : ¬ (j < i * 8) → j ≡ i * 8 + (j - i * 8)
    split ge = omega arith

-- The answers of `pmm_alloc_page`: it takes the lowest page whose bit is clear, or nothing when all
-- bits are set.
abbrev pub TakesLowest : Pmm → ℕ × Pmm → Type 0
TakesLowest p (phys, q) =
    (((i : ℕ) → i < p.total_pages → busy p i ≡ true) × (phys ≡ 0) × (q ≡ p))
    ⊎ ((i : ℕ) × (i < p.total_pages)
        × (busy p i ≡ false)
        × ((j : ℕ) → j < i → busy p j ≡ true)
        × (phys ≡ i * page_size)
        × (q ≡ record p { bitmap = set_bit 8 p.bitmap i }))

take_page-TakesLowest :
    (p : Pmm) (page : ℕ)
    → IsValid p
    → busy p page ≡ false
    → AllBusy p page
    → TakesLowest p (take_page p page)
unfolding take_page
take_page-TakesLowest p page v clear below = elim (Bool-cases (leb p.total_pages page)) [
  | inl past ↦ rw past (inl (λ i lt. below i (ground arith), refl, refl))
  | inr inside ↦ rw inside (inr (page, ground arith, clear, below, exact inside, refl))
]
  where
    exact : leb p.total_pages page ≡ false → mul64 page page_size ≡ page * page_size
    exact h = omega (arith, leb→gt p.total_pages page h)

clear_bit_busy :
    (p : Pmm) (i b : ℕ)
    → b < 8
    → (bit_and (get_or p.bitmap i 0) (2 ^ b) == 0) ≡ true
    → busy p (i * 8 + b) ≡ false
clear_bit_busy p i b h e = rw (busy-bit p i b h) (rw e)

taken_bit_busy :
    (p : Pmm) (i b : ℕ)
    → b < 8
    → (bit_and (get_or p.bitmap i 0) (2 ^ b) == 0) ≡ false
    → busy p (i * 8 + b) ≡ true
taken_bit_busy p i b h e = rw (busy-bit p i b h) (rw e)

all_below :
    (p : Pmm) (i c : ℕ)
    → AllBusy p (i * 8)
    → c < 8
    → ((k : ℕ) → 0 ≤ k → k < c → (bit_and (get_or p.bitmap i 0) (2 ^ k) == 0) ≡ false)
    → AllBusy p (i * 8 + c)
all_below p i c below lt h j jl = elim (dec_lt j (i * 8)) [
  | yes l ↦ below j l
  | no ge ↦
      rw (split ge)
        (taken_bit_busy p i (j - i * 8) (omega arith) (h (j - i * 8) (omega arith) (omega arith)))
]
  where
    split : ¬ (j < i * 8) → j ≡ i * 8 + (j - i * 8)
    split ge = omega arith

-- What the search makes of the first clear bit of byte `i`.
scanned :
    (p : Pmm) (i : ℕ) (rest : ℕ × Pmm) (o : Option ℕ)
    → IsValid p
    → AllBusy p (i * 8)
    → LowestClear (get_or p.bitmap i 0) 0 8 o
    → (((b : ℕ) → b < 8 → busy p (i * 8 + b) ≡ true) → TakesLowest p rest)
    → TakesLowest p (elim o [ none ↦ rest | some b ↦ take_page p (i * 8 + b) ])
scanned p i rest none v below h later =
    later (λ b lt. taken_bit_busy p i b lt (h b (omega arith) lt))
scanned p i rest (some c) v below h later =
    take_page-TakesLowest p (i * 8 + c) v (clear_bit_busy p i c h.1 h.2)
      (all_below p i c below h.1 h.3)

alloc_from-TakesLowest :
    (p : Pmm) (i rounds : ℕ)
    → IsValid p
    → i + rounds ≡ p.bitmap_size
    → AllBusy p (i * 8)
    → TakesLowest p (alloc_from p i rounds)
unfolding alloc_from
alloc_from-TakesLowest p i zero v e below = inl (λ j lt. below j (omega arith), refl, refl)
alloc_from-TakesLowest p i (suc rounds) v e below = elim (Bool-cases (get_or p.bitmap i 0 == 255)) [
  | inl full ↦ rw full (
      alloc_from-TakesLowest p (i + 1) rounds v (omega arith)
        (next_byte p i below (λ b h. busy_full p i b h ((==_iff _ _).0 full))))
  | inr partial ↦ rw partial (
      scanned p i (alloc_from p (i + 1) rounds) (find_clear_bit byte 0 8) v below
        (find_clear_bit-LowestClear byte 0 8)
        (λ b. alloc_from-TakesLowest p (i + 1) rounds v (omega arith) (next_byte p i below b)))
]
  where
    byte : ℕ
    byte = get_or p.bitmap i 0

-- `pmm_alloc_page` is a first fit over the pages: it takes the lowest page whose bit is clear.
pub alloc_page-TakesLowest : (p : Pmm) → IsValid p → TakesLowest p (alloc_page p)
unfolding alloc_page
alloc_page-TakesLowest p v =
    alloc_from-TakesLowest p 0 p.bitmap_size v (omega arith) (λ j lt. absurd (omega arith))

-- The bug at the zero frame: while page 0 is free `pmm_alloc_page` answers 0, which its callers read
-- as "no memory", and marks the page taken all the same.
pub alloc_page_at_zero :
    (p : Pmm)
    → IsValid p
    → 0 < p.total_pages
    → busy p 0 ≡ false
    → ((alloc_page p).0 ≡ 0) × (busy (alloc_page p).1 0 ≡ true)
alloc_page_at_zero p v some_page clear = lowest (alloc_page p) (alloc_page-TakesLowest p v)
  where
    lowest : (r : ℕ × Pmm) → TakesLowest p r → (r.0 ≡ 0) × (busy r.1 0 ≡ true)
    lowest (phys, q) (inl (all, z, same)) = absurd (ground (arith, all 0 some_page))
    lowest (phys, q) (inr (zero, lt, free, below, at, now)) = (
      omega arith,
      ground (
        arith,
        ap (λ (m : Pmm). busy m 0) now,
        is_set-set_bit 8 (omega arith) p.bitmap 0 0 (omega arith),
      ),
    )
    lowest (phys, q) (inr (suc i, lt, free, below, at, now)) =
        absurd (ground (arith, below 0 (omega arith)))

TakesLowest-IsValid : (p : Pmm) (r : ℕ × Pmm) → IsValid p → TakesLowest p r → IsValid r.1
TakesLowest-IsValid p (phys, q) v (inl (all, z, same)) = rw same v
TakesLowest-IsValid p (phys, q) v (inr (i, lt, free, below, at, now)) = rw now (record {
  sized = length-set_bit 8 (omega arith) p.bitmap i ∙ v.sized;
  covered = v.covered;
  addressable = v.addressable;
})

pub alloc_page-IsValid : (p : Pmm) → IsValid p → IsValid (alloc_page p).1
alloc_page-IsValid p v = TakesLowest-IsValid p (alloc_page p) v (alloc_page-TakesLowest p v)
