-- ===== src/Mm/Bitmap/Laws.antt =====
-- What each bitmap operation does to each bit.
use sirius_education.Common.{
  ℕ, zero, suc, ◌+◌, ◌*◌, ◌/◌, ◌%◌, ◌^◌, ◌≤◌, ◌<◌, ◌≡◌, refl, sym, ap, ◌∙◌, not, ◌&&◌, ◌||◌, List,
  length, get_or, set, length-set, get_or-set_self, get_or-set_ne, ◌==◌, ltb, leb, arith, ne→==,
  max,
}
use Prim.Native.Nat.{bit_and, bit_or}
use native.Mathlib.Decide.{ℕ_discrete}
use native.Mathlib.Nat.{div-add-mod, mod-lt}
use sirius_education.Common.Bits.{
  bit, mask_not, bit-le-one, bit-bit_and, bit-bit_or, bit-pow_self, bit-pow_ne, bit-mask_not_self,
  bit-mask_not_ne, bit_and-pow, pow_pos,
}
use sirius_education.Mm.Bitmap.{is_set, set_bit, clear_bit, set_bits, clear_bits}

-- `is_set` reads one bit.
nonzero-bit : (x b : ℕ) → not (bit_and x (2 ^ b) == 0) ≡ (bit x b == 1)
nonzero-bit x b = grind (arith, bit_and-pow x b, bit-le-one x b, pow_pos b)

bit-pow_at : (a b : ℕ) → a ≡ b → bit (2 ^ a) b ≡ 1
bit-pow_at a b e = rw (← e) (bit-pow_self a)

mask_at : (w a b : ℕ) → a ≡ b → a < w → bit (mask_not w a) b ≡ 0
mask_at w a b e h = rw (← e) (bit-mask_not_self w a h)

-- Every index up to `max` has its word.
abbrev pub Covers : ℕ → ℕ → List ℕ → Type 0
Covers w max bm = (i : ℕ) → i < max → i / w < length bm

module _ (w : ℕ) (w_pos : 0 < w) where
  pub is_set-bit : (bm : List ℕ) (i : ℕ) → is_set w bm i ≡ (bit (get_or bm (i / w) 0) (i % w) == 1)
  unfolding is_set
  is_set-bit bm i = nonzero-bit (get_or bm (i / w) 0) (i % w)

  same_index : (i j : ℕ) → i / w ≡ j / w → i % w ≡ j % w → i ≡ j
  same_index i j p q = div-mod i ∙ (rw (p, q) (sym (div-mod j)))
    where
      div-mod : (n : ℕ) → n ≡ w * (n / w) + n % w
      div-mod n = sym (div-add-mod n w)

  written_word :
      (bm : List ℕ) (i j v : ℕ)
      → i / w < length bm
      → i / w ≡ j / w
      → get_or (set bm (i / w) v) (j / w) 0 ≡ v
  written_word bm i j v h q = rw (← q) (get_or-set_self bm (i / w) v 0 h)

  pub is_set-set_bit :
      (bm : List ℕ) (i j : ℕ)
      → i / w < length bm
      → is_set w (set_bit w bm i) j ≡ ((i == j) || is_set w bm j)
  unfolding set_bit
  is_set-set_bit bm i j h =
      let x : ℕ = get_or bm (i / w) 0 in
      let v : ℕ = bit_or x (2 ^ (i % w)) in
      elim (ℕ_discrete (i / w) (j / w)) [
        | yes q ↦ elim (ℕ_discrete (i % w) (j % w)) [
          | yes r ↦ ground (
            arith,
            is_set-bit (set_bit w bm i) j,
            written_word bm i j v h q,
            bit-bit_or x (2 ^ (i % w)) (j % w),
            bit-pow_at (i % w) (j % w) r,
            bit-le-one x (j % w),
            same_index i j q r,
          )
          | no r ↦ ground (
            arith,
            is_set-bit (set_bit w bm i) j,
            is_set-bit bm j,
            written_word bm i j v h q,
            bit-bit_or x (2 ^ (i % w)) (j % w),
            bit-pow_ne (i % w) (j % w) r,
            ne→== i j (λ e. r (ap (λ k. k % w) e)),
          )
        ]
        | no q ↦ ground (
          arith,
          is_set-bit (set_bit w bm i) j,
          is_set-bit bm j,
          get_or-set_ne bm (i / w) (j / w) v 0 q,
          ne→== i j (λ e. q (ap (λ k. k / w) e)),
        )
      ]

  pub is_set-clear_bit :
      (bm : List ℕ) (i j : ℕ)
      → i / w < length bm
      → is_set w (clear_bit w bm i) j ≡ (not (i == j) && is_set w bm j)
  unfolding clear_bit
  is_set-clear_bit bm i j h =
      let x : ℕ = get_or bm (i / w) 0 in
      let v : ℕ = bit_and x (mask_not w (i % w)) in
      elim (ℕ_discrete (i / w) (j / w)) [
        | yes q ↦ elim (ℕ_discrete (i % w) (j % w)) [
          | yes r ↦ ground (
            arith,
            is_set-bit (clear_bit w bm i) j,
            written_word bm i j v h q,
            bit-bit_and x (mask_not w (i % w)) (j % w),
            mask_at w (i % w) (j % w) r (mod-lt i w_pos),
            same_index i j q r,
          )
          | no r ↦ ground (
            arith,
            is_set-bit (clear_bit w bm i) j,
            is_set-bit bm j,
            written_word bm i j v h q,
            bit-bit_and x (mask_not w (i % w)) (j % w),
            bit-mask_not_ne w (i % w) (j % w) (mod-lt i w_pos) (mod-lt j w_pos) r,
            bit-le-one x (j % w),
            ne→== i j (λ e. r (ap (λ k. k % w) e)),
          )
        ]
        | no q ↦ ground (
          arith,
          is_set-bit (clear_bit w bm i) j,
          is_set-bit bm j,
          get_or-set_ne bm (i / w) (j / w) v 0 q,
          ne→== i j (λ e. q (ap (λ k. k / w) e)),
        )
      ]

  pub length-set_bit : (bm : List ℕ) (i : ℕ) → length (set_bit w bm i) ≡ length bm
  unfolding set_bit
  length-set_bit bm i = length-set bm (i / w) _

  pub length-clear_bit : (bm : List ℕ) (i : ℕ) → length (clear_bit w bm i) ≡ length bm
  unfolding clear_bit
  length-clear_bit bm i = length-set bm (i / w) _

  pub length-set_bits : (bm : List ℕ) (s n : ℕ) → length (set_bits w bm s n) ≡ length bm
  unfolding set_bits
  length-set_bits bm s zero = refl
  length-set_bits bm s (suc n) = length-set_bits (set_bit w bm s) (s + 1) n ∙ length-set_bit bm s

  pub length-clear_bits : (bm : List ℕ) (s n : ℕ) → length (clear_bits w bm s n) ≡ length bm
  unfolding clear_bits
  length-clear_bits bm s zero = refl
  length-clear_bits bm s (suc n) =
      length-clear_bits (clear_bit w bm s) (s + 1) n ∙ length-clear_bit bm s

  -- `set_bits` sets the bits of its range and leaves the others.
  pub is_set-set_bits :
      (bm : List ℕ) (s n max j : ℕ)
      → Covers w max bm
      → s + n ≤ max
      → is_set w (set_bits w bm s n) j ≡ (leb s j && ltb j (s + n) || is_set w bm j)
  unfolding set_bits
  is_set-set_bits bm s zero max j c h = ground arith
  is_set-set_bits bm s (suc n) max j c h = ground (
    arith,
    is_set-set_bits (set_bit w bm s) (s + 1) n max j (λ i lt. rw (length-set_bit bm s) (c i lt))
        (omega arith),
    is_set-set_bit bm s j (c s (omega arith)),
  )

  pub is_set-clear_bits :
      (bm : List ℕ) (s n max j : ℕ)
      → Covers w max bm
      → s + n ≤ max
      → is_set w (clear_bits w bm s n) j ≡ (not (leb s j && ltb j (s + n)) && is_set w bm j)
  unfolding clear_bits
  is_set-clear_bits bm s zero max j c h = ground arith
  is_set-clear_bits bm s (suc n) max j c h = ground (
    arith,
    is_set-clear_bits (clear_bit w bm s) (s + 1) n max j
        (λ i lt. rw (length-clear_bit bm s) (c i lt)) (omega arith),
    is_set-clear_bit bm s j (c s (omega arith)),
  )
