-- ===== src/Mm/Bitmap.antt =====
-- Bitmaps of words, as kernel/kernel/mm/pmm.c (8-bit words) and pool.c (32-bit words) keep them.
pub mod Laws
pub mod FirstFit
use Prim.Native.Nat.{bit_and, bit_or}
use sirius_education.Common.{
  ℕ, zero, suc, ◌+◌, ◌/◌, ◌%◌, ◌^◌, Bool, true, false, not, Option, none, some, List, get_or, set,
  ◌==◌, if◌then◌else◌,
}
use sirius_education.Common.Bits.{mask_not}

module _ (w : ℕ) where
  -- `bitmap[i / w] & (1U << (i % w))`
  unfoldable pub is_set : List ℕ → ℕ → Bool
  is_set bm i = not (bit_and (get_or bm (i / w) 0) (2 ^ (i % w)) == 0)

  -- `bitmap[i / w] |= 1U << (i % w)`
  unfoldable pub set_bit : List ℕ → ℕ → List ℕ
  set_bit bm i = set bm (i / w) (bit_or (get_or bm (i / w) 0) (2 ^ (i % w)))

  -- `bitmap[i / w] &= ~(1U << (i % w))`
  unfoldable pub clear_bit : List ℕ → ℕ → List ℕ
  clear_bit bm i = set bm (i / w) (bit_and (get_or bm (i / w) 0) (mask_not w (i % w)))

  -- The loops over `n` bits from `start` on.
  unfoldable pub set_bits : List ℕ → ℕ → ℕ → List ℕ
  set_bits bm start zero = bm
  set_bits bm start (suc n) = set_bits (set_bit bm start) (start + 1) n

  unfoldable pub clear_bits : List ℕ → ℕ → ℕ → List ℕ
  clear_bits bm start zero = bm
  clear_bits bm start (suc n) = clear_bits (clear_bit bm start) (start + 1) n

-- The search for `num` clear bits in a row: `rounds` indices from `i` on are left, `found` clear bits
-- have been seen in a row, the first of them at `start`.
unfoldable pub find_run : (ℕ → Bool) → ℕ → ℕ → ℕ → ℕ → ℕ → Option ℕ
find_run busy num zero i found start = none
find_run busy num (suc rounds) i found start = elim (busy i) [
  | true ↦ find_run busy num rounds (i + 1) 0 start
  | false ↦
      let start' = if found == 0 then i else start in
      let rest = find_run busy num rounds (i + 1) (found + 1) start' in
      if (found + 1) == num then some start' else rest
]

unfoldable pub find_free_region : (ℕ → Bool) → ℕ → ℕ → Option ℕ
unfolding find_run
find_free_region busy max num = find_run busy num max 0 0 0
