-- ===== src/CString/Copy.antt =====
-- The copies of strings and of areas of memory.
use sirius_education.Common.{
  ℕ, zero, suc, ◌≤◌, ◌<◌, ◌≡◌, refl, true, none, some, List, [], ◌∷◌, ◌++◌, length, take, drop,
  arith, inl, inr, ◌⊎◌,
}
use sirius_education.Common.Ints.{pos}
use sirius_education.CString.{memcpy, strcpy, terminate, strlen, strcmp}
use sirius_education.CString.Compare.{is_text, text_cons, cstring, strcmp-Compared}

strlen-cstring : (xs r : List ℕ) → is_text xs ≡ true → strlen (cstring xs r) ≡ some (length xs)
unfolding strlen is_text
strlen-cstring [] r t = refl
strlen-cstring (zero ∷ xs) r t = absurd (omega (arith, (text_cons 0 xs t).0))
strlen-cstring (suc x ∷ xs) r t = rw (strlen-cstring xs r t) refl

strcpy-cstring :
    (d xs r : List ℕ)
    → is_text xs ≡ true
    → length xs < length d
    → strcpy d (cstring xs r) ≡ some (cstring xs (drop (suc (length xs)) d))
unfolding strcpy terminate is_text
strcpy-cstring [] xs r t room = absurd (omega (arith, room))
strcpy-cstring (x ∷ d) [] r t room = refl
strcpy-cstring (x ∷ d) (zero ∷ xs) r t room = absurd (omega (arith, (text_cons 0 xs t).0))
strcpy-cstring (x ∷ d) (suc y ∷ xs) r t room =
    rw (strcpy-cstring d xs r t (omega (arith, room))) refl

-- Into an area with room for the text and its terminator, `strcpy` writes just these and keeps the bytes
-- behind them; the copy then has the length of the text, and compares as equal to it unless it is empty.
pub strcpy_lem :
    (d xs r : List ℕ)
    → is_text xs ≡ true
    → length xs < length d
    → (copy : List ℕ) × (strcpy d (cstring xs r) ≡ some copy)
      × (copy ≡ xs ++ (0 ∷ drop (suc (length xs)) d))
      × (strlen copy ≡ some (length xs))
      × ((xs ≡ []) ⊎ (strcmp copy (cstring xs r) ≡ some (pos 0)))
strcpy_lem d xs r t room = (
  cstring xs (drop (suc (length xs)) d),
  strcpy-cstring d xs r t room,
  refl,
  strlen-cstring xs (drop (suc (length xs)) d) t,
  same xs (drop (suc (length xs)) d) t,
)
  where
    same :
        (xs q : List ℕ)
        → is_text xs ≡ true
        → (xs ≡ []) ⊎ (strcmp (cstring xs q) (cstring xs r) ≡ some (pos 0))
    same [] q t = inl refl
    same (x ∷ xs) q t = elim (strcmp-Compared (x ∷ xs) (x ∷ xs) q r t t (omega arith)) [
      | inl (e, z) ↦ inr z
      | inr (ne, z) ↦ absurd (ne refl)
    ]

-- A copy of `n` bytes that both areas have: the first `n` are the source's, the others stay; and a copy
-- beyond one of the areas is a fault.
pub memcpy_lem :
    (d s : List ℕ) (n : ℕ)
    → (n ≤ length d) × (n ≤ length s) × (memcpy d s n ≡ some (take n s ++ drop n d))
      ⊎ ((length d < n) ⊎ (length s < n)) × (memcpy d s n ≡ none)
unfolding memcpy
memcpy_lem d s zero = inl (omega arith, omega arith, refl)
memcpy_lem [] s (suc n) = inr (inl (omega arith), refl)
memcpy_lem (x ∷ d) [] (suc n) = inr (inr (omega arith), refl)
memcpy_lem (x ∷ d) (y ∷ s) (suc n) = elim (memcpy_lem d s n) [
  | inl (in_d, in_s, e) ↦ inl (omega (arith, in_d), omega (arith, in_s), rw e refl)
  | inr (inl out, e) ↦ inr (inl (omega (arith, out)), rw e refl)
  | inr (inr out, e) ↦ inr (inr (omega (arith, out)), rw e refl)
]
