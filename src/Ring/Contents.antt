-- ===== src/Ring/Contents.antt =====
-- The buffer and the queue of its contents.
use native.Mathlib.Decide.{dec_lt}
use sirius_education.Common.{
  ℕ, zero, suc, ◌+◌, ◌-◌, ◌%◌, ◌≤◌, ◌<◌, ◌≡◌, ◌≢◌, ◌↔◌, refl, sym, ap, ◌∙◌, ◌⊎◌, inl, inr, Option,
  none, some, List, [], ◌∷◌, ◌++◌, length, length-append, length-set, get_or, get_or-set_self,
  get_or-set_ne, set, ◌==◌, arith, Bool-cases, ==_iff, ==→ne,
}
use native.Mathlib.Nat.{mod-eq_of_lt, mod-eq-sub-mod, mod-add-mod}
use sirius_education.Ring.{Ring, put, get, count, window, contents}

module _ (n : ℕ) where
  pub record IsValid (r : Ring) : Type 0 where
    pub sized : length r.buf ≡ n
    pub head_in : r.head < n
    pub tail_in : r.tail < n

  step_mod : (x : ℕ) → x < n + n → (x % n ≡ x) × (x < n) ⊎ (x % n ≡ x - n) × (n ≤ x)
  step_mod x h = elim (dec_lt x n) [
    | yes p ↦ inl (mod-eq_of_lt p, p)
    | no p ↦ inr (
      mod-eq-sub-mod {n = x} {m = n} (omega arith) ∙ mod-eq_of_lt {n = x - n} {m = n} (omega arith),
      omega arith,
    )
  ]

  pub length-window : (buf : List ℕ) (t k : ℕ) → length (window n buf t k) ≡ k
  unfolding window
  length-window buf t zero = refl
  length-window buf t (suc k) = omega (
    arith,
    length-append (window n buf t k) (get_or buf ((t + k) % n) 0 ∷ []),
    length-window buf t k,
  )

  -- Fewer than `n` steps apart, two places of the array differ.
  place_ne : (t i j : ℕ) → t < n → i < j → j < n → (t + j) % n ≢ (t + i) % n
  place_ne t i j ht lt hj e =
      omega (arith, step_mod (t + j) (omega arith), step_mod (t + i) (omega arith), e)

  -- A write beyond a window leaves it as it was.
  window-set :
      (buf : List ℕ) (t k j c : ℕ)
      → t < n
      → k ≤ j
      → j < n
      → window n (set buf ((t + j) % n) c) t k ≡ window n buf t k
  unfolding window
  window-set buf t zero j c ht le hj = refl
  window-set buf t (suc k) j c ht le hj = rw (
    window-set buf t k j c ht (omega arith) hj,
    get_or-set_ne buf ((t + j) % n) ((t + k) % n) c 0 (place_ne t k j ht le hj),
  )

  -- The window begins with the byte at its first place.
  window_cons :
      (buf : List ℕ) (t k : ℕ)
      → t < n
      → window n buf t (suc k) ≡ get_or buf t 0 ∷ window n buf ((t + 1) % n) k
  unfolding window
  window_cons buf t zero ht = ap (λ (i : ℕ). get_or buf i 0 ∷ []) (same t ht)
    where
      same : (t : ℕ) → t < n → (t + 0) % n ≡ t
      same t ht = omega (arith, step_mod (t + 0) (omega arith))
  window_cons buf t (suc k) ht = rw (window_cons buf t k ht) (
      ap (λ (i : ℕ). get_or buf t 0 ∷ (window n buf ((t + 1) % n) k ++ (get_or buf i 0 ∷ []))) next)
    where
      next : (t + suc k) % n ≡ ((t + 1) % n + k) % n
      next = rw (mod-add-mod (t + 1) n k) (ap (λ (x : ℕ). x % n) (omega arith))

  -- The next free place is `count` steps after the oldest byte.
  head_place : (r : Ring) → IsValid r → (r.tail + count n r) % n ≡ r.head
  unfolding count
  head_place r v = omega (
    arith,
    step_mod (r.head + n - r.tail) (omega arith),
    step_mod (r.tail + (r.head + n - r.tail) % n)
        (omega (arith, step_mod (r.head + n - r.tail) (omega arith))),
  )

  pub count-lt : (r : Ring) → IsValid r → count n r < n
  unfolding count
  count-lt r v = omega (arith, step_mod (r.head + n - r.tail) (omega arith))

  pub length-contents : (r : Ring) → length (contents n r) ≡ count n r
  unfolding contents
  length-contents r = length-window r.buf r.tail (count n r)

  next_count :
      (r : Ring)
      → IsValid r
      → (r.head + 1) % n ≢ r.tail
      → ((r.head + 1) % n + n - r.tail) % n ≡ count n r + 1
  unfolding count
  next_count r v ne = omega (
    arith,
    ne,
    step_mod (r.head + 1) (omega arith),
    step_mod (r.head + n - r.tail) (omega arith),
    step_mod ((r.head + 1) % n + n - r.tail) (omega (arith, step_mod (r.head + 1) (omega arith))),
  )

  full_count : (r : Ring) → IsValid r → ((r.head + 1) % n ≡ r.tail) ↔ (count n r + 1 ≡ n)
  unfolding count
  full_count r v = (
    λ e. omega (
      arith,
      e,
      step_mod (r.head + 1) (omega arith),
      step_mod (r.head + n - r.tail) (omega arith),
    ),
    λ e. omega (
      arith,
      e,
      step_mod (r.head + 1) (omega arith),
      step_mod (r.head + n - r.tail) (omega arith),
    ),
  )

  extend :
      (buf : List ℕ) (t k i c : ℕ)
      → t < n
      → k < n
      → length buf ≡ n
      → i ≡ (t + k) % n
      → window n (set buf i c) t (suc k) ≡ window n buf t k ++ (c ∷ [])
  unfolding window
  extend buf t k i c ht hk size e = cc (
    ap (λ (x : ℕ). window n (set buf x c) t k) e,
    window-set buf t k k c ht (omega arith) hk,
    ap (λ (x : ℕ). get_or (set buf x c) ((t + k) % n) 0) e,
    get_or-set_self buf ((t + k) % n) c 0 (omega (arith, size, step_mod (t + k) (omega arith))),
  )

  added_contents :
      (r : Ring) (c : ℕ)
      → IsValid r
      → (r.head + 1) % n ≢ r.tail
      → contents n (record r { buf = set r.buf r.head c; head = (r.head + 1) % n })
        ≡ contents n r ++ (c ∷ [])
  unfolding contents
  added_contents r c v ne =
      ap (window n (set r.buf r.head c) r.tail) longer
      ∙ extend r.buf r.tail (count n r) r.head c v.tail_in (count-lt r v) v.sized
          (sym (head_place r v))
    where
      q : Ring
      q = record r { buf = set r.buf r.head c; head = (r.head + 1) % n }

      longer : count n q ≡ suc (count n r)
      longer = unfold count in omega (arith, next_count r v ne)

  -- What putting a byte may answer: none, and then the buffer holds `n - 1` bytes; or the buffer with
  -- the byte at the end of its contents.
  abbrev pub Put : Ring → ℕ → Option Ring → Type 0
  Put r c none = length (contents n r) + 1 ≡ n
  Put r c (some q) =
      IsValid q × (contents n q ≡ contents n r ++ (c ∷ [])) × (length (contents n r) + 1 < n)

  put-Put : (r : Ring) (c : ℕ) → IsValid r → Put r c (put n r c)
  unfolding put
  put-Put r c v = elim (Bool-cases (((r.head + 1) % n) == r.tail)) [
    | inl full ↦
        rw full (omega (arith, length-contents r, (full_count r v).0 ((==_iff _ _).0 full)))
    | inr room ↦ rw room (added (==→ne _ _ room))
  ]
    where
      added :
          (r.head + 1) % n ≢ r.tail
          → Put r c (some (record r { buf = set r.buf r.head c; head = (r.head + 1) % n }))
      added ne = (
        record {
          sized = length-set r.buf r.head c ∙ v.sized;
          head_in = omega (arith, step_mod (r.head + 1) (omega arith));
          tail_in = v.tail_in;
        },
        added_contents r c v ne,
        omega (
          arith,
          length-contents r,
          count-lt r v,
          λ (e : count n r + 1 ≡ n). ne ((full_count r v).1 e),
        ),
      )

  -- What taking a byte may answer: none from an empty buffer, or the oldest byte and the buffer with
  -- the others.
  abbrev pub Got : Ring → Option (ℕ × Ring) → Type 0
  Got r none = contents n r ≡ []
  Got r (some (c, q)) = IsValid q × (contents n r ≡ c ∷ contents n q)

  emptied : (r : Ring) → IsValid r → r.tail ≡ r.head → contents n r ≡ []
  unfolding contents window count
  emptied r v e = ap (window n r.buf r.tail) zero_left
    where
      zero_left : (r.head + n - r.tail) % n ≡ 0
      zero_left = omega (arith, e, step_mod (r.head + n - r.tail) (omega arith))

  taken :
      (r : Ring)
      → IsValid r
      → r.tail ≢ r.head
      → Got r (some (get_or r.buf r.tail 0, record r { tail = (r.tail + 1) % n }))
  unfolding contents count
  taken r v ne = (
    record {
      sized = v.sized;
      head_in = v.head_in;
      tail_in = omega (arith, step_mod (r.tail + 1) (omega arith));
    },
    ap (window n r.buf r.tail) shorter ∙ window_cons r.buf r.tail left v.tail_in,
  )
    where
      left : ℕ
      left = (r.head + n - (r.tail + 1) % n) % n

      shorter : (r.head + n - r.tail) % n ≡ suc left
      shorter = omega (
        arith,
        ne,
        step_mod (r.tail + 1) (omega arith),
        step_mod (r.head + n - r.tail) (omega arith),
        step_mod (r.head + n - (r.tail + 1) % n)
            (omega (arith, step_mod (r.tail + 1) (omega arith))),
      )

  get-Got : (r : Ring) → IsValid r → Got r (get n r)
  unfolding get
  get-Got r v = elim (Bool-cases (r.tail == r.head)) [
    | inl none_left ↦ rw none_left (emptied r v ((==_iff _ _).0 none_left))
    | inr some_left ↦ rw some_left (taken r v (==→ne _ _ some_left))
  ]

  -- The buffer is a queue of at most `n - 1` bytes: a byte is put at the end exactly if there is room,
  -- and taken from the front exactly if there is one, and the indices stay inside the array.
  pub put-get-queue : (r : Ring) (c : ℕ) → IsValid r → Put r c (put n r c) × Got r (get n r)
  put-get-queue r c v = (put-Put r c v, get-Got r v)
