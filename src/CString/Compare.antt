-- ===== src/CString/Compare.antt =====
-- The comparison of strings against the equality of their texts.
use sirius_education.Common.{
  ℕ, zero, suc, ◌+◌, ◌<◌, ◌≡◌, ◌≢◌, refl, sym, ap, ◌∙◌, Bool, true, false, ◌⊎◌, inl, inr, Option,
  some, List, [], ◌∷◌, ◌++◌, length, ◌==◌, ==_iff, ==→ne, ne→==, Bool-cases, arith,
}
use sirius_education.Common.Ints.{ℤ, pos, negsuc}
use sirius_education.CString.{both_end, strcmp}

-- A text has no byte 0.
unfoldable pub is_text : List ℕ → Bool
is_text [] = true
is_text (zero ∷ xs) = false
is_text (suc c ∷ xs) = is_text xs

pub text_cons : (x : ℕ) (xs : List ℕ) → is_text (x ∷ xs) ≡ true → (0 < x) × (is_text xs ≡ true)
unfolding is_text
text_cons zero xs t = ground (arith, t)
text_cons (suc x) xs t = (omega arith, t)

abbrev pub cstring : List ℕ → List ℕ → List ℕ
cstring xs r = xs ++ (0 ∷ r)

-- How two texts compare.
abbrev pub Compared : List ℕ → List ℕ → Option ℤ → Type 0
Compared xs ys o = (xs ≡ ys) × (o ≡ some (pos 0)) ⊎ (xs ≢ ys) × (o ≡ some (negsuc 0))

head_ne : (x y : ℕ) (xs ys : List ℕ) → x ≢ y → x ∷ xs ≢ y ∷ ys
head_ne x y xs ys ne e = ne (ap head e)
  where
    head : List ℕ → ℕ
    head [] = x
    head (z ∷ zs) = z

both_end_lem :
    (xs ys r s : List ℕ)
    → is_text xs ≡ true
    → is_text ys ≡ true
    → (xs ≡ []) × (ys ≡ []) × (both_end (cstring xs r) (cstring ys s) ≡ some true)
      ⊎ (0 < length xs + length ys) × (both_end (cstring xs r) (cstring ys s) ≡ some false)
unfolding both_end
both_end_lem [] [] r s tx ty = inl (refl, refl, refl)
both_end_lem [] (y ∷ ys) r s tx ty =
    inr (omega arith, rw (ne→== 0 y (λ e. omega (arith, (text_cons y ys ty).0, e))) refl)
both_end_lem (x ∷ xs) [] r s tx ty =
    inr (omega arith, rw (ne→== x 0 (λ e. omega (arith, (text_cons x xs tx).0, e))) refl)
both_end_lem (x ∷ xs) (y ∷ ys) r s tx ty =
    inr (omega arith, ap some (ground (arith, (text_cons x xs tx).0)))

-- Of two texts that are not both empty, `strcmp` says 0 exactly when they are equal and -1 otherwise,
-- whatever bytes follow their terminators, and it reads nothing beyond these.
pub strcmp-Compared :
    (xs ys r s : List ℕ)
    → is_text xs ≡ true
    → is_text ys ≡ true
    → 0 < length xs + length ys
    → Compared xs ys (strcmp (cstring xs r) (cstring ys s))
unfolding strcmp
strcmp-Compared [] [] r s tx ty some_text = absurd (omega (arith, some_text))
strcmp-Compared [] (y ∷ ys) r s tx ty some_text = inr (
  λ e. omega (arith, ap length e),
  rw (ne→== 0 y (λ e. omega (arith, (text_cons y ys ty).0, e))) refl,
)
strcmp-Compared (x ∷ xs) [] r s tx ty some_text = inr (
  λ e. omega (arith, ap length e),
  rw (ne→== x 0 (λ e. omega (arith, (text_cons x xs tx).0, e))) refl,
)
strcmp-Compared (x ∷ xs) (y ∷ ys) r s tx ty some_text = elim (Bool-cases (x == y)) [
  | inr differ ↦ rw (differ, strcmp) (inr (head_ne x y xs ys (==→ne x y differ), refl))
  | inl same ↦ elim (both_end_lem xs ys r s (text_cons x xs tx).1 (text_cons y ys ty).1) [
    | inl (ex, ey, e) ↦ rw (same, e, strcmp) (inl (equal (x≡y same) (ex ∙ sym ey), refl))
    | inr (more, e) ↦
        rw (same, e, strcmp)
          (next (x≡y same) (strcmp (cstring xs r) (cstring ys s))
            (strcmp-Compared xs ys r s (text_cons x xs tx).1 (text_cons y ys ty).1 more))
  ]
]
  where
    x≡y : (x == y) ≡ true → x ≡ y
    x≡y same = (==_iff x y).0 same

    equal : x ≡ y → xs ≡ ys → x ∷ xs ≡ y ∷ ys
    equal e es = ap (λ (z : ℕ). z ∷ xs) e ∙ ap (λ (zs : List ℕ). y ∷ zs) es

    tail : List ℕ → List ℕ
    tail [] = []
    tail (z ∷ zs) = zs

    next : x ≡ y → (o : Option ℤ) → Compared xs ys o → Compared (x ∷ xs) (y ∷ ys) o
    next e o (inl (es, z)) = inl (equal e es, z)
    next e o (inr (ne, z)) = inr (λ es. ne (ap tail es), z)

-- Of two empty strings `strcmp` looks at the bytes behind the terminators: if those differ it says -1.
pub strcmp_empty :
    (a b : ℕ) (r s : List ℕ)
    → a ≢ b
    → strcmp (cstring [] (a ∷ r)) (cstring [] (b ∷ s)) ≡ some (negsuc 0)
unfolding strcmp both_end
strcmp_empty a b r s ne = rw (ne→== a b ne) refl
