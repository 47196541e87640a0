-- ===== src/Mm/Bitmap/FirstFit.antt =====
-- The search for clear bits in a row.
use sirius_education.Common.{
  ℕ, zero, suc, ◌+◌, ◌≤◌, ◌<◌, ◌≡◌, ◌≢◌, Bool, true, false, Option, none, some, refl, inl, inr,
  ◌==◌, if◌then◌else◌, arith, Bool-cases, ==_iff, ==→ne,
}
use native.Mathlib.Decide.{dec_lt, ℕ_discrete}
use sirius_education.Mm.Bitmap.{find_run, find_free_region}

module _ (busy : ℕ → Bool) where
  abbrev pub FreeRun : ℕ → ℕ → Type 0
  FreeRun s n = (k : ℕ) → s ≤ k → k < s + n → busy k ≡ false

  -- What the search for `num` clear bits below `max` may answer.
  abbrev pub FirstFit : ℕ → ℕ → Option ℕ → Type 0
  FirstFit max num none = (t : ℕ) → t + num ≤ max → ¬ FreeRun t num
  FirstFit max num (some s) = (s + num ≤ max) × FreeRun s num × ((t : ℕ) → t < s → ¬ FreeRun t num)

  blocked :
      (num i found base : ℕ)
      → base + found ≡ i
      → found < num
      → ((t : ℕ) → t < base → ¬ FreeRun t num)
      → busy i ≡ true
      → (t : ℕ) → t < i + 1
      → ¬ FreeRun t num
  blocked num i found base b lt no_earlier taken t tl r = elim (dec_lt t base) [
    | yes p ↦ no_earlier t p r
    | no p ↦ ground (arith, r i (omega arith) (omega arith))
  ]

  started :
      (i found start base : ℕ)
      → base + found ≡ i
      → (found ≢ 0 → start ≡ base)
      → (if found == 0 then i else start) ≡ base
  started i found start base b st = elim (Bool-cases (found == 0)) [
    | inl z ↦ rw z (ground arith)
    | inr nz ↦ rw nz (st (==→ne found 0 nz))
  ]

  extend :
      (i found base : ℕ)
      → base + found ≡ i
      → FreeRun base found
      → busy i ≡ false
      → FreeRun base (found + 1)
  extend i found base b run clear k lo hi = elim (ℕ_discrete k i) [
    | yes e ↦ rw e clear
    | no ne ↦ run k lo (omega arith)
  ]

  longer :
      (i found base num : ℕ)
      → base + found ≡ i
      → FreeRun base found
      → busy i ≡ false
      → ((found + 1) == num) ≡ true
      → FreeRun base num
  longer i found base num b run clear done k lo hi =
      extend i found base b run clear k lo (ground arith)

  find_run-FirstFit :
      (num max rounds i found start base : ℕ)
      → i + rounds ≡ max
      → base + found ≡ i
      → (found ≢ 0 → start ≡ base)
      → found < num
      → FreeRun base found
      → ((t : ℕ) → t < base → ¬ FreeRun t num)
      → FirstFit max num (find_run busy num rounds i found start)
  unfolding find_run
  find_run-FirstFit num max zero i found start base e b st lt run no_earlier =
      λ t h. no_earlier t (omega arith)
  find_run-FirstFit num max (suc rounds) i found start base e b st lt run no_earlier =
      elim (Bool-cases (busy i)) [
        | inl taken ↦
            rw (taken, find_run)
              (find_run-FirstFit num max rounds (i + 1) 0 start (i + 1) (omega arith) (omega arith)
                (λ n. absurd (n (omega arith))) (omega arith) (λ k lo hi. absurd (omega arith))
                (blocked num i found base b lt no_earlier taken))
        | inr clear ↦ elim (Bool-cases ((found + 1) == num)) [
          | inl done ↦
              rw (clear, find_run)
                (rw done (
                  rw (started i found start base b st) (
                    omega (arith, (==_iff (found + 1) num).0 done),
                    longer i found base num b run clear done,
                    no_earlier,
                  )))
          | inr more ↦
              rw (clear, find_run)
                (rw more (
                  find_run-FirstFit num max rounds (i + 1) (found + 1)
                    (if found == 0 then i else start) base (omega arith) (omega arith)
                    (λ _. started i found start base b st) (ground arith)
                    (extend i found base b run clear) no_earlier))
        ]
      ]

  -- The first fit, whatever the bitmap.
  pub find_free_region-FirstFit :
      (max num : ℕ) → 0 < num → FirstFit max num (find_free_region busy max num)
  unfolding find_free_region
  find_free_region-FirstFit max num h =
      find_run-FirstFit num max max 0 0 0 0 (omega arith) (omega arith) (λ _. refl) h
        (λ k lo hi. absurd (omega arith)) (λ t lt. absurd (omega arith))
