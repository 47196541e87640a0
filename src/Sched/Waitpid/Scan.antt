-- ===== src/Sched/Waitpid/Scan.antt =====
-- The loop of `sys_waitpid` over the list of processes: what it finds and what it counts.
use sirius_education.Common.{
  ℕ, ◌≡◌, refl, ap, ◌∙◌, Bool, true, false, not, ◌&&◌, Option, inl, inr, ◌⊎◌, List, [], ◌∷◌, has,
  ◌==◌, ==_iff, ==-refl, Bool-cases, arith, if◌then◌else◌,
}
use sirius_education.Sched.{Machine}
use sirius_education.Sched.Waitpid.{is_zombie, wanted, scan}

if-same : (b : Bool) → (if b then true else true) ≡ true
if-same true = refl
if-same false = refl

-- A child once counted as alive stays counted.
pub scan-alive :
    (pid : Option ℕ) (ppid : ℕ) (m : Machine) (ps : List ℕ) (found : ℕ)
    → (scan pid ppid m ps found true).1 ≡ true
unfolding scan
scan-alive pid ppid m [] found = refl
scan-alive pid ppid m (p ∷ ps) found =
    ap
      (λ (a : Bool).
        (scan pid ppid m ps
          (if wanted pid ppid (m.processes p) && is_zombie (m.processes p).state then p else found)
          a).1)
      (if-same (wanted pid ppid (m.processes p) && not (is_zombie (m.processes p).state)))
    ∙ scan-alive pid ppid m ps
        (if wanted pid ppid (m.processes p) && is_zombie (m.processes p).state then p else found)

later :
    (f : ℕ → Bool) (r p found : ℕ) (ps : List ℕ) (z : Bool)
    → (r ≡ (if f p && z then p else found)) ⊎ ((has r ps ≡ true) × (f r ≡ true))
    → (r ≡ found) ⊎ ((has r (p ∷ ps) ≡ true) × (f r ≡ true))
later f r p found ps z (inr (a, b)) = inr (ground (arith, a), b)
later f r p found ps z (inl e) = elim (Bool-cases (f p && z)) [
  | inl t ↦ inr (ground (arith, at t, ==-refl p), ap f (at t) ∙ ground (arith, t))
  | inr o ↦ inl (e ∙ (rw o refl))
]
  where
    at : f p && z ≡ true → r ≡ p
    at t = e ∙ (rw t refl)

-- What the loop finds stands in the list and is a wanted child.
pub scan-found :
    (pid : Option ℕ) (ppid : ℕ) (m : Machine) (ps : List ℕ) (found : ℕ) (alive : Bool)
    → ((scan pid ppid m ps found alive).0 ≡ found)
      ⊎ ((has (scan pid ppid m ps found alive).0 ps ≡ true)
          × (wanted pid ppid (m.processes (scan pid ppid m ps found alive).0) ≡ true))
unfolding scan
scan-found pid ppid m [] found alive = inl refl
scan-found pid ppid m (p ∷ ps) found alive =
    later (λ (x : ℕ). wanted pid ppid (m.processes x)) (scan pid ppid m (p ∷ ps) found alive).0 p
      found ps (is_zombie (m.processes p).state)
      (scan-found pid ppid m ps
        (if wanted pid ppid (m.processes p) && is_zombie (m.processes p).state then p else found)
        (if wanted pid ppid (m.processes p) && not (is_zombie (m.processes p).state)
          then true
          else alive))

-- A wanted child in the list that is no zombie counts as alive.
pub scan-counts :
    (pid : Option ℕ) (ppid : ℕ) (m : Machine) (ps : List ℕ) (found : ℕ) (alive : Bool) (q : ℕ)
    → has q ps ≡ true
    → wanted pid ppid (m.processes q) ≡ true
    → is_zombie (m.processes q).state ≡ false
    → (scan pid ppid m ps found alive).1 ≡ true
unfolding scan
scan-counts pid ppid m [] found alive q h w z = ground (arith, h)
scan-counts pid ppid m (p ∷ ps) found alive q h w z = elim (Bool-cases (p == q)) [
  | inl e ↦ rw ((==_iff p q).0 e, scan, w, z) (scan-alive pid ppid m ps found)
  | inr o ↦
      scan-counts pid ppid m ps
        (if wanted pid ppid (m.processes p) && is_zombie (m.processes p).state then p else found)
        (if wanted pid ppid (m.processes p) && not (is_zombie (m.processes p).state)
          then true
          else alive)
        q (ground (arith, h, o)) w z
]

abbrev pub caught : Machine → ℕ → Bool
caught m r = not (r == 0) && is_zombie (m.processes r).state

pub scan-keeps :
    (pid : Option ℕ) (ppid : ℕ) (m : Machine) (ps : List ℕ) (found : ℕ) (alive : Bool)
    → has 0 ps ≡ false
    → caught m found ≡ true
    → caught m (scan pid ppid m ps found alive).0 ≡ true
unfolding scan
scan-keeps pid ppid m [] found alive n k = k
scan-keeps pid ppid m (p ∷ ps) found alive n k =
    scan-keeps pid ppid m ps
      (if wanted pid ppid (m.processes p) && is_zombie (m.processes p).state then p else found)
      (if wanted pid ppid (m.processes p) && not (is_zombie (m.processes p).state)
        then true
        else alive)
      (ground (arith, n)) (ground (arith, n, k))

-- With a wanted zombie in the list the loop finds a zombie.
pub scan-catches :
    (pid : Option ℕ) (ppid : ℕ) (m : Machine) (ps : List ℕ) (found : ℕ) (alive : Bool) (q : ℕ)
    → has 0 ps ≡ false
    → has q ps ≡ true
    → wanted pid ppid (m.processes q) ≡ true
    → is_zombie (m.processes q).state ≡ true
    → caught m (scan pid ppid m ps found alive).0 ≡ true
unfolding scan
scan-catches pid ppid m [] found alive q n h w z = ground (arith, h)
scan-catches pid ppid m (p ∷ ps) found alive q n h w z = elim (Bool-cases (p == q)) [
  | inl e ↦
      scan-keeps pid ppid m ps
        (if wanted pid ppid (m.processes p) && is_zombie (m.processes p).state then p else found)
        (if wanted pid ppid (m.processes p) && not (is_zombie (m.processes p).state)
          then true
          else alive)
        (ground (arith, n)) (rw ((==_iff p q).0 e, w, z) (ground (arith, (==_iff p q).0 e, n, z)))
  | inr o ↦
      scan-catches pid ppid m ps
        (if wanted pid ppid (m.processes p) && is_zombie (m.processes p).state then p else found)
        (if wanted pid ppid (m.processes p) && not (is_zombie (m.processes p).state)
          then true
          else alive)
        q (ground (arith, n)) (ground (arith, h, o)) w z
]

-- Without a wanted zombie in the list the loop finds none.
pub scan-misses :
    (pid : Option ℕ) (ppid : ℕ) (m : Machine) (ps : List ℕ) (found : ℕ) (alive : Bool)
    → ((q : ℕ)
        → has q ps ≡ true
        → wanted pid ppid (m.processes q) ≡ true
        → is_zombie (m.processes q).state ≡ false)
    → (scan pid ppid m ps found alive).0 ≡ found
unfolding scan
scan-misses pid ppid m [] found alive none_is = refl
scan-misses pid ppid m (p ∷ ps) found alive none_is =
    scan-misses pid ppid m ps
      (if wanted pid ppid (m.processes p) && is_zombie (m.processes p).state then p else found)
      (if wanted pid ppid (m.processes p) && not (is_zombie (m.processes p).state)
        then true
        else alive)
      (λ q h. none_is q (ground (arith, h)))
    ∙ ground (arith, none_is p, ==-refl p)

-- What the loop counts is a wanted child.
pub scan-witness :
    (pid : Option ℕ) (ppid : ℕ) (m : Machine) (ps : List ℕ) (found : ℕ) (alive : Bool)
    → (scan pid ppid m ps found alive).1 ≡ true
    → (alive ≡ true) ⊎ ((q : ℕ) × (has q ps ≡ true) × (wanted pid ppid (m.processes q) ≡ true))
unfolding scan
scan-witness pid ppid m [] found alive e = inl e
scan-witness pid ppid m (p ∷ ps) found alive e =
    elim (scan-witness pid ppid m ps
      (if wanted pid ppid (m.processes p) && is_zombie (m.processes p).state then p else found)
      (if wanted pid ppid (m.processes p) && not (is_zombie (m.processes p).state)
        then true
        else alive)
      e) [
        | inl h ↦ elim (Bool-cases (wanted pid ppid (m.processes p))) [
          | inl w ↦ inr (p, ground (arith, ==-refl p), w)
          | inr w ↦ inl (ground (arith, h, w))
        ]
        | inr h ↦ inr (h.0, ground (arith, h.1), h.2)
      ]
