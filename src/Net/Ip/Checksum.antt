-- ===== src/Net/Ip/Checksum.antt =====
-- The Internet checksum: it always comes out, and a packet that carries its own sums to zero.
use sirius_education.Common.{
  ℕ, zero, suc, ◌+◌, ◌-◌, ◌*◌, ◌/◌, ◌%◌, ◌^◌, ◌≤◌, ◌<◌, ◌≡◌, refl, sym, ap, ◌∙◌, some, inl, inr,
  List, [], ◌∷◌, ◌++◌, length, length-append, ◌==◌, Bool-cases, ==_iff, ==→ne, arith,
}
use sirius_education.Net.Ip.{sum_words, fold_carry, ip_calculate_checksum, invert16, rounds}

abbrev pub AreBytes : List ℕ → Type 0
AreBytes [] = Unit {0}
AreBytes (x ∷ xs) = (x < 256) × AreBytes xs

abbrev pub IsEven : List ℕ → Type 0
IsEven [] = Unit {0}
IsEven (x ∷ []) = ⊥
IsEven (x ∷ (y ∷ r)) = IsEven r

-- The sum of the 16-bit words, as a number.
abbrev pub total : List ℕ → ℕ
total [] = 0
total (a ∷ []) = a
total (a ∷ (b ∷ r)) = a + b * 256 + total r

sum_words-total :
    (sum : ℕ) (xs : List ℕ) → sum < 2 ^ 32 → sum_words sum xs ≡ (sum + total xs) % 2 ^ 32
unfolding sum_words
sum_words-total sum [] h = omega arith
sum_words-total sum (a ∷ []) h = refl
sum_words-total sum (a ∷ (b ∷ r)) h =
    omega (arith, sum_words-total ((sum + (a + b * 256)) % 2 ^ 32) r (omega arith))

pub total-le : (xs : List ℕ) → AreBytes xs → total xs ≤ 65535 * length xs
total-le [] h = omega arith
total-le (a ∷ []) h = omega (arith, h)
total-le (a ∷ (b ∷ r)) h = omega (arith, h, total-le r h.1.1)

pub total-append : (xs ys : List ℕ) → IsEven xs → total (xs ++ ys) ≡ total xs + total ys
total-append [] ys e = omega arith
total-append (a ∷ []) ys e = absurd e
total-append (a ∷ (b ∷ r)) ys e = omega (arith, total-append r ys e)

-- The loop that folds the carries of a 32-bit sum ends within three rounds, in a 16-bit number that is
-- zero only for zero, and that differs from the sum by a multiple of 65535.
pub fold_carry_lem :
    (sum : ℕ)
    → sum < 2 ^ 32
    → (r : ℕ) × (k : ℕ) × (fold_carry rounds sum ≡ some r)
      × (r < 65536)
      × (sum ≡ r + 65535 * k)
      × (r ≡ 0 → sum ≡ 0)
unfolding fold_carry
fold_carry_lem sum h = elim (Bool-cases (sum / 65536 == 0)) [
  | inl e ↦ (sum, 0, rw e refl, omega (arith, (==_iff (sum / 65536) 0).0 e), omega arith, λ z. z)
  | inr ne ↦ elim (Bool-cases ((sum % 65536 + sum / 65536) / 65536 == 0)) [
    | inl e ↦ (
      sum % 65536 + sum / 65536,
      sum / 65536,
      rw ne (rw e refl),
      omega (arith, (==_iff ((sum % 65536 + sum / 65536) / 65536) 0).0 e),
      omega arith,
      λ z. omega (arith, z),
    )
    | inr ne2 ↦ (
      sum % 65536 + sum / 65536 - 65535,
      sum / 65536 + 1,
      ground (arith, ne, ne2),
      omega arith,
      omega (arith, ==→ne ((sum % 65536 + sum / 65536) / 65536) 0 ne2),
      λ z. omega (arith, z, ==→ne ((sum % 65536 + sum / 65536) / 65536) 0 ne2),
    )
  ]
]

checksum_fold :
    (xs : List ℕ) (r : ℕ)
    → fold_carry rounds (sum_words 0 xs) ≡ some r
    → r < 65536
    → ip_calculate_checksum xs ≡ some (invert16 r)
unfolding ip_calculate_checksum
checksum_fold xs r e h =
    rw (e, ip_calculate_checksum) (ap (λ (n : ℕ). some (invert16 n)) (omega (arith, h)))

-- What a checksum is: the complement of a number that differs from the sum by a multiple of 65535.
pub record Sums (xs : List ℕ) : Type 0 where
  pub folded : ℕ
  pub carries : ℕ
  pub result : ip_calculate_checksum xs ≡ some (invert16 folded)
  pub small : folded < 65536
  pub same : total xs ≡ folded + 65535 * carries
  pub zero_only : folded ≡ 0 → total xs ≡ 0

pub checksum-Sums : (xs : List ℕ) → AreBytes xs → length xs ≤ 65536 → Sums xs
checksum-Sums xs bytes short =
    of (fold_carry_lem (sum_words 0 xs) (omega (arith, exact, total-le xs bytes)))
  where
    exact : sum_words 0 xs ≡ total xs
    exact = omega (arith, sum_words-total 0 xs (omega arith), total-le xs bytes)

    of :
        ((r : ℕ) × (k : ℕ) × (fold_carry rounds (sum_words 0 xs) ≡ some r)
          × (r < 65536)
          × (sum_words 0 xs ≡ r + 65535 * k)
          × (r ≡ 0 → sum_words 0 xs ≡ 0))
        → Sums xs
    of (r, k, e, lt, eq, z) = record {
      folded = r;
      carries = k;
      result = checksum_fold xs r e lt;
      small = lt;
      same = sym exact ∙ eq;
      zero_only = λ n. sym exact ∙ z n;
    }

pub AreBytes-append : (a b : List ℕ) → AreBytes a → AreBytes b → AreBytes (a ++ b)
AreBytes-append [] b ha hb = hb
AreBytes-append (x ∷ a) b ha hb = (ha.0, AreBytes-append a b ha.1 hb)

-- A multiple of 65535 that is not zero folds to 65535.
folds_full :
    (r k r' k' t t' : ℕ)
    → t ≡ r + 65535 * k
    → r < 65536
    → t' ≡ t + invert16 r
    → t' ≡ r' + 65535 * k'
    → r' < 65536
    → (r' ≡ 0 → t' ≡ 0)
    → invert16 r' ≡ 0
folds_full r k zero k' t t' e lt s e' lt' z = absurd (omega (arith, e, lt, s, z refl))
folds_full r k (suc r') k' t t' e lt s e' lt' z = omega (arith, e, lt, s, e', lt')

with_sum :
    (xs ys : List ℕ) (sum : ℕ)
    → IsEven xs
    → total (xs ++ (sum % 256 ∷ sum / 256 ∷ ys)) ≡ total (xs ++ (0 ∷ 0 ∷ ys)) + sum
with_sum xs ys sum even =
    omega
      (arith, total-append xs (0 ∷ 0 ∷ ys) even, total-append xs (sum % 256 ∷ sum / 256 ∷ ys) even)

-- Bytes `xs`, evenly many, and `ys` with two zero bytes between them, of at most 65,536 bytes in all, have
-- a 16-bit checksum, and with the checksum in the place of the zeros the whole has the checksum 0, which
-- is what a receiver demands.
pub checksum-Verified :
    (xs ys : List ℕ)
    → AreBytes xs
    → AreBytes ys
    → IsEven xs
    → length xs + length ys + 2 ≤ 65536
    → (sum : ℕ) × (ip_calculate_checksum (xs ++ (0 ∷ 0 ∷ ys)) ≡ some sum)
      × (sum < 65536)
      × (ip_calculate_checksum (xs ++ (sum % 256 ∷ sum / 256 ∷ ys)) ≡ some 0)
checksum-Verified xs ys bx by even short =
    (sum, before.result, omega (arith, before.small), after.result ∙ ap (λ (n : ℕ). some n) closed)
  where
    before : Sums (xs ++ (0 ∷ 0 ∷ ys))
    before =
        checksum-Sums (xs ++ (0 ∷ 0 ∷ ys))
          (AreBytes-append xs (0 ∷ 0 ∷ ys) bx (omega arith, (omega arith, by)))
          (omega (arith, length-append xs (0 ∷ 0 ∷ ys), short))

    sum : ℕ
    sum = invert16 before.folded

    after : Sums (xs ++ (sum % 256 ∷ sum / 256 ∷ ys))
    after =
        checksum-Sums (xs ++ (sum % 256 ∷ sum / 256 ∷ ys))
          (AreBytes-append xs (sum % 256 ∷ sum / 256 ∷ ys) bx (omega arith, (omega arith, by)))
          (omega (arith, length-append xs (sum % 256 ∷ sum / 256 ∷ ys), short))

    closed : invert16 after.folded ≡ 0
    closed =
        folds_full before.folded before.carries after.folded after.carries _ _ before.same
          before.small (with_sum xs ys sum even) after.same after.small after.zero_only
