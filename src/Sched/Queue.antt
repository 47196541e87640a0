-- ===== src/Sched/Queue.antt =====
-- The linked queue of a processor against the list of its threads.
pub mod Pointers
use Prim.{tt}
use sirius_education.Common.{
  has, ℕ, ◌≡◌, ◌≢◌, refl, ap, true, false, ◌||◌, some, inl, inr, List, [], ◌∷◌, ◌++◌, ◌==◌, ==_iff,
  ==-refl, Bool-cases, arith, sym, ◌∙◌, if◌then◌else◌,
}
use sirius_education.Sched.{Thread, Cpu, Machine, enqueue_thread, dequeue_thread}
pub use sirius_education.Sched.Queue.Pointers.{
  Holds, Links-agree, has-append, QueuesAlone, enqueue_thread-QueuesAlone, Links-nonzero,
}
use sirius_education.Sched.Queue.Pointers.{
  last, Links, has-last, last-append, Distinct-append, Links-append, QueuesAlone-refl, next_kept,
  cpu_kept, head_kept, tail_moved, tail_linked, ends,
}

-- A thread that is in no queue is appended to the queue.
pub enqueue_thread-Holds :
    (c t : ℕ) (m : Machine) (q : List ℕ)
    → t ≢ 0
    → has t q ≡ false
    → Holds m c q
    → Holds (enqueue_thread (some c) t m) c (q ++ t ∷ [])
enqueue_thread-Holds c t m [] nz out h = unfold enqueue_thread in ground arith
enqueue_thread-Holds c t m (x ∷ xs) nz out h = (
  Links-append m.threads m'.threads (m'.cpus c).ready_queue_head x xs t nz
      (ends c t m nz busy (λ e. ground (arith, has-last x xs, h.1, e)))
      (ap (λ (u : ℕ). (m'.threads u).next) (sym h.1) ∙ tail_linked c t m nz busy)
      (λ u n1 n2. next_kept c t u m n1 (λ e. n2 (e ∙ h.1))) h.2 out
      (rw (head_kept c t m nz busy) h.0),
  (tail_moved c t m nz busy ∙ sym (last-append (x ∷ xs) t)),
  Distinct-append (x ∷ xs) t h.2 out,
)
  where
    m' : Machine
    m' = enqueue_thread (some c) t m

    busy : (m.cpus c).ready_queue_tail ≢ 0
    busy e =
        Links-nonzero m.threads (m.cpus c).ready_queue_head (x ∷ xs) (last (x ∷ xs)) h.0
          (has-last x xs) (sym h.1 ∙ e)

tail_outside :
    (c : ℕ) (m : Machine) (q r : List ℕ) (u : ℕ)
    → Holds m c q
    → ((v : ℕ) → has v r ≡ true → has v q ≡ false)
    → has u r ≡ true
    → u ≢ 0
    → u ≢ (m.cpus c).ready_queue_tail
tail_outside c m [] r u h apart in_r nz = λ e. nz (e ∙ h.1)
tail_outside c m (x ∷ xs) r u h apart in_r nz =
    λ e. ground (arith, has-last x xs, h.1, e, apart u in_r)

-- The queue of another processor, which shares no thread with this one, stays as it is.
pub enqueue_thread-Holds_other :
    (c d t : ℕ) (m : Machine) (q r : List ℕ)
    → d ≢ c
    → has t r ≡ false
    → Holds m c q
    → ((u : ℕ) → has u r ≡ true → has u q ≡ false)
    → Holds m d r
    → Holds (enqueue_thread (some c) t m) d r
enqueue_thread-Holds_other c d t m q r ne out hq apart h = rw (cpu_kept c d t m ne) (
  Links-agree m.threads (enqueue_thread (some c) t m).threads (m.cpus d).ready_queue_head r
      (λ u k.
        next_kept c t u m (λ e. ground (arith, e, k))
          (tail_outside c m q r u hq apart k (Links-nonzero m.threads _ r u h.0 k)))
      h.0,
  h.1,
  h.2,
)

pub dequeue_thread-none : (c : ℕ) (m : Machine) → Holds m c [] → dequeue_thread (some c) m ≡ (0, m)
unfolding dequeue_thread
dequeue_thread-none c m h = rw h.0 refl

module _ (c : ℕ) (m : Machine) (x : ℕ) (xs : List ℕ) (h : Holds m c (x ∷ xs)) where
  dequeue_thread-head : (dequeue_thread (some c) m).0 ≡ x
  unfolding dequeue_thread
  dequeue_thread-head = ground (arith, h.0.0, h.0.1)

  head_moves : ((dequeue_thread (some c) m).1.cpus c).ready_queue_head ≡ (m.threads x).next
  unfolding dequeue_thread
  head_moves = ground (arith, h.0.0, h.0.1)

  tail_stays :
      ((dequeue_thread (some c) m).1.cpus c).ready_queue_tail
      ≡ (if (m.threads x).next == 0 then 0 else (m.cpus c).ready_queue_tail)
  unfolding dequeue_thread
  tail_stays = ground (arith, h.0.0, h.0.1)

  others_next :
      (u : ℕ) → u ≢ x → ((dequeue_thread (some c) m).1.threads u).next ≡ (m.threads u).next
  unfolding dequeue_thread
  others_next u ne = ground (arith, h.0.0, h.0.1)

  others_cpu : (d : ℕ) → d ≢ c → (dequeue_thread (some c) m).1.cpus d ≡ m.cpus d
  unfolding dequeue_thread
  others_cpu d ne = ground (arith, h.0.0, h.0.1)

-- What is left when the first thread has been taken.
abbrev pub rest : List ℕ → List ℕ
rest [] = []
rest (x ∷ xs) = xs

-- The first thread of the queue, or NULL.
abbrev pub first : List ℕ → ℕ
first [] = 0
first (x ∷ xs) = x

pub dequeue_thread-first :
    (c : ℕ) (m : Machine) (q : List ℕ) → Holds m c q → (dequeue_thread (some c) m).0 ≡ first q
dequeue_thread-first c m [] h = ap (λ (r : ℕ × Machine). r.0) (dequeue_thread-none c m h)
dequeue_thread-first c m (x ∷ xs) h = dequeue_thread-head c m x xs h

tail_rest :
    (f : ℕ → Thread) (x t : ℕ) (xs : List ℕ)
    → Links f (f x).next xs
    → t ≡ last (x ∷ xs)
    → (if (f x).next == 0 then 0 else t) ≡ last xs
tail_rest f x t [] l e = rw l refl
tail_rest f x t (y ∷ r) l e = ground (arith, l.0, l.1, e)

pub dequeue_thread-Holds :
    (c : ℕ) (m : Machine) (q : List ℕ)
    → Holds m c q
    → Holds (dequeue_thread (some c) m).1 c (rest q)
dequeue_thread-Holds c m [] h = rw (dequeue_thread-none c m h) h
dequeue_thread-Holds c m (x ∷ xs) h = (
  rw (head_moves c m x xs h) (
      Links-agree m.threads (dequeue_thread (some c) m).1.threads (m.threads x).next xs
        (λ u k. others_next c m x xs h u (λ e. ground (arith, e, k, h.2.0))) h.0.2),
  (tail_stays c m x xs h ∙ tail_rest m.threads x (m.cpus c).ready_queue_tail xs h.0.2 h.1),
  h.2.1,
)

pub dequeue_thread-Holds_other :
    (c d : ℕ) (m : Machine) (q r : List ℕ)
    → d ≢ c
    → Holds m c q
    → ((u : ℕ) → has u r ≡ true → has u q ≡ false)
    → Holds m d r
    → Holds (dequeue_thread (some c) m).1 d r
dequeue_thread-Holds_other c d m [] r ne hq apart h = rw (dequeue_thread-none c m hq) h
dequeue_thread-Holds_other c d m (x ∷ xs) r ne hq apart h = rw (others_cpu c m x xs hq d ne) (
  Links-agree m.threads (dequeue_thread (some c) m).1.threads (m.cpus d).ready_queue_head r
      (λ u k. others_next c m x xs hq u (λ e. ground (arith, ==-refl x, e, apart u k))) h.0,
  h.1,
  h.2,
)

pub dequeue_thread-QueuesAlone : (c : ℕ) (m : Machine) → QueuesAlone m (dequeue_thread (some c) m).1
unfolding dequeue_thread
dequeue_thread-QueuesAlone c m = elim (Bool-cases ((m.cpus c).ready_queue_head == 0)) [
  | inl z ↦ rw z (QueuesAlone-refl m)
  | inr nz ↦ rw nz (λ u. ground arith, λ d. ground arith, refl, refl, refl)
]
