-- ===== src/Common/Bits.antt =====
-- Single bits of a machine word: what `x & (1 << b)`, `x | (1 << b)` and `x & ~(1 << b)` do to them.
use Prim.Native.Nat.{
  ℕ, zero, suc, ◌+◌, ◌-◌, ◌*◌, ◌/◌, ◌%◌, ◌^◌, ◌≤◌, ◌<◌, min, max, bit_and, bit_or, digits,
  bit_and-bitwise, bit_or-bitwise,
}
use mathlib.Core.Path.{◌≡◌, refl, sym, ap, ◌∙◌}
use mathlib.Core.Logic.{◌≢◌}
use native.Mathlib.Omega.{arith}
use native.Mathlib.Nat.{pow-suc}

-- An operation that works digit by digit in base 2: `join` on two digits, `alone` on what is left of the
-- second number when the first has no digits any more.
module _ (alone : ℕ → ℕ) (join op : ℕ → ℕ → ℕ)
    (by_digits : (x y : ℕ) → op x y ≡ digits alone join x x y)
    (alone_step : (y : ℕ) → alone y ≡ alone (y / 2) * 2 + join 0 (y % 2)) where
  ended : (rounds y : ℕ) → digits alone join rounds 0 y ≡ alone y
  ended zero y = refl
  ended (suc rounds) y = refl

  -- More rounds than the first number needs change nothing.
  enough : (x y k l : ℕ) → x ≤ k → x ≤ l → digits alone join k x y ≡ digits alone join l x y
  enough zero y k l xk xl = ended k y ∙ sym (ended l y)
  enough (suc x) y zero l xk xl = absurd (omega (arith, xk))
  enough (suc x) y (suc k) zero xk xl = absurd (omega (arith, xl))
  enough (suc x) y (suc k) (suc l) xk xl =
      ap (λ (r : ℕ). r * 2 + join (suc x % 2) (y % 2))
        (enough (suc x / 2) (y / 2) k l (omega (arith, xk)) (omega (arith, xl)))

  halves : (x y : ℕ) → op x y ≡ op (x / 2) (y / 2) * 2 + join (x % 2) (y % 2)
  halves zero y =
      by_digits 0 y
      ∙ alone_step y
      ∙ ap (λ (r : ℕ). r * 2 + join 0 (y % 2)) (sym (by_digits 0 (y / 2)))
  halves (suc x) y =
      by_digits (suc x) y
      ∙ ap (λ (r : ℕ). r * 2 + join (suc x % 2) (y % 2))
          (enough (suc x / 2) (y / 2) x (suc x / 2) (omega arith) (omega arith)
            ∙ sym (by_digits (suc x / 2) (y / 2)))

and_halves : (x y : ℕ) → bit_and x y ≡ bit_and (x / 2) (y / 2) * 2 + min (x % 2) (y % 2)
and_halves = halves (λ y. 0) min bit_and bit_and-bitwise (λ y. omega arith)

or_halves : (x y : ℕ) → bit_or x y ≡ bit_or (x / 2) (y / 2) * 2 + max (x % 2) (y % 2)
or_halves = halves (λ y. y) max bit_or bit_or-bitwise (λ y. omega arith)

-- The bit of weight `2 ^ i`.
abbrev pub bit : ℕ → ℕ → ℕ
bit x zero = x % 2
bit x (suc i) = bit (x / 2) i

pub bit-le-one : (x i : ℕ) → bit x i ≤ 1
bit-le-one x zero = omega arith
bit-le-one x (suc i) = bit-le-one (x / 2) i

pub bit-bit_and : (x y i : ℕ) → bit (bit_and x y) i ≡ min (bit x i) (bit y i)
bit-bit_and x y zero = omega (arith, and_halves x y)
bit-bit_and x y (suc i) = rw halve (bit-bit_and (x / 2) (y / 2) i)
  where
    halve : bit_and x y / 2 ≡ bit_and (x / 2) (y / 2)
    halve = omega (arith, and_halves x y)

pub bit-bit_or : (x y i : ℕ) → bit (bit_or x y) i ≡ max (bit x i) (bit y i)
bit-bit_or x y zero = omega (arith, or_halves x y)
bit-bit_or x y (suc i) = rw halve (bit-bit_or (x / 2) (y / 2) i)
  where
    halve : bit_or x y / 2 ≡ bit_or (x / 2) (y / 2)
    halve = omega (arith, or_halves x y)

pow_half : (b : ℕ) → 2 ^ suc b / 2 ≡ 2 ^ b
pow_half b = omega (arith, pow-suc 2 b)

pow_even : (b : ℕ) → 2 ^ suc b % 2 ≡ 0
pow_even b = omega (arith, pow-suc 2 b)

pub pow_pos : (b : ℕ) → 0 < 2 ^ b
pow_pos zero = omega arith
pow_pos (suc b) = omega (arith, pow-suc 2 b, pow_pos b)

bit-zero : (i : ℕ) → bit 0 i ≡ 0
bit-zero zero = refl
bit-zero (suc i) = bit-zero i

pub bit-pow_self : (b : ℕ) → bit (2 ^ b) b ≡ 1
bit-pow_self zero = refl
bit-pow_self (suc b) = rw (pow_half b) (bit-pow_self b)

pub bit-pow_ne : (b i : ℕ) → b ≢ i → bit (2 ^ b) i ≡ 0
bit-pow_ne zero zero h = absurd (h refl)
bit-pow_ne zero (suc i) h = bit-zero i
bit-pow_ne (suc b) zero h = pow_even b
bit-pow_ne (suc b) (suc i) h = rw (pow_half b) (bit-pow_ne b i (λ e. h (omega arith)))

-- `~(1 << b)` on `w` bits.
abbrev pub mask_not : ℕ → ℕ → ℕ
mask_not w b = 2 ^ w - 1 - 2 ^ b

mask_half : (w b : ℕ) → mask_not (suc w) (suc b) / 2 ≡ mask_not w b
mask_half w b = omega (arith, pow-suc 2 b, pow-suc 2 w)

ones_half : (w : ℕ) → mask_not (suc w) 0 / 2 ≡ 2 ^ w - 1
ones_half w = omega (arith, pow-suc 2 w)

bit-ones : (w i : ℕ) → i < w → bit (2 ^ w - 1) i ≡ 1
bit-ones zero i h = absurd (omega arith)
bit-ones (suc w) zero h = omega (arith, pow-suc 2 w, pow_pos w)
bit-ones (suc w) (suc i) h = rw halve (bit-ones w i (omega arith))
  where
    halve : (2 ^ suc w - 1) / 2 ≡ 2 ^ w - 1
    halve = omega (arith, pow-suc 2 w)

pub bit-mask_not_self : (w b : ℕ) → b < w → bit (mask_not w b) b ≡ 0
bit-mask_not_self zero b h = absurd (omega arith)
bit-mask_not_self (suc w) zero h = omega (arith, pow-suc 2 w)
bit-mask_not_self (suc w) (suc b) h = rw (mask_half w b) (bit-mask_not_self w b (omega arith))

pow_mono : (b w : ℕ) → b < w → 2 ^ b < 2 ^ w
pow_mono b zero h = absurd (omega arith)
pow_mono zero (suc w) h = omega (arith, pow-suc 2 w, pow_pos w)
pow_mono (suc b) (suc w) h = omega (arith, pow-suc 2 w, pow-suc 2 b, pow_mono b w (omega arith))

pub bit-mask_not_ne : (w b i : ℕ) → b < w → i < w → b ≢ i → bit (mask_not w b) i ≡ 1
bit-mask_not_ne zero b i hb hi h = absurd (omega arith)
bit-mask_not_ne (suc w) zero zero hb hi h = absurd (h refl)
bit-mask_not_ne (suc w) zero (suc i) hb hi h = rw (ones_half w) (bit-ones w i (omega arith))
bit-mask_not_ne (suc w) (suc b) zero hb hi h =
    omega (arith, pow-suc 2 w, pow-suc 2 b, pow_mono b w (omega arith))
bit-mask_not_ne (suc w) (suc b) (suc i) hb hi h =
    rw (mask_half w b) (bit-mask_not_ne w b i (omega arith) (omega arith) (λ e. h (omega arith)))

no_digits : (k x : ℕ) → x ≤ k → bit_and x 0 ≡ 0
no_digits k zero le = bit_and-bitwise 0 0
no_digits zero (suc x) le = absurd (omega (arith, le))
no_digits (suc k) (suc x) le =
    omega (arith, and_halves (suc x) 0, no_digits k (suc x / 2) (omega (arith, le)))

-- The test `x & (1 << b)` picks out one bit.
pub bit_and-pow : (x b : ℕ) → bit_and x (2 ^ b) ≡ bit x b * 2 ^ b
bit_and-pow x zero = omega (arith, and_halves x 1, no_digits (x / 2) (x / 2))
bit_and-pow x (suc b) =
    omega (arith, and_halves x (2 ^ suc b), pow_even b, step, bit_and-pow (x / 2) b, ap_mul)
  where
    step : bit_and (x / 2) (2 ^ suc b / 2) ≡ bit_and (x / 2) (2 ^ b)
    step = rw (pow_half b)

    ap_mul : bit (x / 2) b * 2 ^ suc b ≡ bit (x / 2) b * 2 ^ b * 2
    ap_mul = grind (arith, pow-suc 2 b)

-- A byte is `0xFF` exactly when all of its bits are set.
pub full_byte : (x i : ℕ) → x ≡ 255 → i < 8 → bit x i ≡ 1
full_byte x i e h = rw e (bit-ones 8 i h)
