-- ===== src/Sched/Queue/Pointers.antt =====
-- The linked threads of a queue, and the states that differ in their queues alone.
use Prim.{tt}
use sirius_education.Common.{
  has, ℕ, ◌≡◌, ◌≢◌, refl, true, false, ◌||◌, some, inl, inr, List, [], ◌∷◌, ◌++◌, ◌==◌, ==_iff,
  ==-refl, Bool-cases, arith, ◌∙◌,
}
use sirius_education.Sched.{Thread, Cpu, Machine, enqueue_thread}

abbrev pub Distinct : List ℕ → Type 0
Distinct [] = Unit {0}
Distinct (x ∷ xs) = (has x xs ≡ false) × Distinct xs

-- The last thread, or NULL.
abbrev pub last : List ℕ → ℕ
last [] = 0
last (x ∷ []) = x
last (x ∷ (y ∷ r)) = last (y ∷ r)

-- From the pointer `p` the `next` pointers lead through these threads to NULL.
abbrev pub Links : (ℕ → Thread) → ℕ → List ℕ → Type 0
Links f p [] = p ≡ 0
Links f p (x ∷ xs) = (p ≡ x) × (x ≢ 0) × Links f (f x).next xs

-- The queue of the processor `c` holds the threads `q`.
abbrev pub Holds : Machine → ℕ → List ℕ → Type 0
Holds m c q =
    Links m.threads (m.cpus c).ready_queue_head q
    × ((m.cpus c).ready_queue_tail ≡ last q)
    × Distinct q

pub Links-agree :
    (f g : ℕ → Thread) (p : ℕ) (q : List ℕ)
    → ((u : ℕ) → has u q ≡ true → (g u).next ≡ (f u).next)
    → Links f p q
    → Links g p q
Links-agree f g p [] h l = l
Links-agree f g p (x ∷ xs) h l = (
  l.0,
  l.1,
  rw (h x (ground (arith, ==-refl x)))
      (Links-agree f g (f x).next xs (λ u k. h u (ground (arith, k))) l.2),
)

pub has-last : (x : ℕ) (xs : List ℕ) → has (last (x ∷ xs)) (x ∷ xs) ≡ true
has-last x [] = ground (arith, ==-refl x)
has-last x (y ∷ r) = ground (arith, has-last y r)

pub last-append : (q : List ℕ) (t : ℕ) → last (q ++ t ∷ []) ≡ t
last-append [] t = refl
last-append (x ∷ []) t = refl
last-append (x ∷ (y ∷ r)) t = last-append (y ∷ r) t

pub has-append : (u : ℕ) (q : List ℕ) (t : ℕ) → has u (q ++ t ∷ []) ≡ (has u q || (t == u))
has-append u [] t = ground arith
has-append u (x ∷ xs) t = ground (arith, has-append u xs t)

pub Distinct-append : (q : List ℕ) (t : ℕ) → Distinct q → has t q ≡ false → Distinct (q ++ t ∷ [])
Distinct-append [] t d h = (refl, tt)
Distinct-append (x ∷ xs) t d h =
    (ground (arith, has-append x xs t), Distinct-append xs t d.1 (ground arith))

pub Links-append :
    (f g : ℕ → Thread) (p x : ℕ) (xs : List ℕ) (t : ℕ)
    → t ≢ 0
    → (g t).next ≡ 0
    → (g (last (x ∷ xs))).next ≡ t
    → ((u : ℕ) → u ≢ t → u ≢ last (x ∷ xs) → (g u).next ≡ (f u).next)
    → Distinct (x ∷ xs)
    → has t (x ∷ xs) ≡ false
    → Links f p (x ∷ xs)
    → Links g p (x ∷ xs ++ t ∷ [])
Links-append f g p x [] t nz end link keep d out l = (l.0, l.1, (link, nz, end))
Links-append f g p x (y ∷ r) t nz end link keep d out l = (
  l.0,
  l.1,
  rw (keep x (ground arith) (ground (arith, has-last y r)))
      (Links-append f g (f x).next y r t nz end link keep d.1 (ground arith) l.2),
)

-- Two states of a thread that differ in `next` alone.
pub record Alike (a b : Thread) : Type 0 where
  pub tid : b.tid ≡ a.tid
  pub context_frame : b.context_frame ≡ a.context_frame
  pub kernel_stack_top : b.kernel_stack_top ≡ a.kernel_stack_top
  pub state : b.state ≡ a.state
  pub cpu_id : b.cpu_id ≡ a.cpu_id
  pub chan : b.chan ≡ a.chan
  pub exit_code : b.exit_code ≡ a.exit_code
  pub owner : b.owner ≡ a.owner

-- Two states of a processor that differ in its queue alone.
pub record SameWork (a b : Cpu) : Type 0 where
  pub current_thread : b.current_thread ≡ a.current_thread
  pub idle_thread : b.idle_thread ≡ a.idle_thread
  pub fpu_owner_thread : b.fpu_owner_thread ≡ a.fpu_owner_thread
  pub rsp0 : b.rsp0 ≡ a.rsp0
  pub kernel_stack_top : b.kernel_stack_top ≡ a.kernel_stack_top
  pub cr3 : b.cr3 ≡ a.cr3
  pub task_switched : b.task_switched ≡ a.task_switched

abbrev pub QueuesAlone : Machine → Machine → Type 0
QueuesAlone m m' =
    ((u : ℕ) → Alike (m.threads u) (m'.threads u))
    × ((d : ℕ) → SameWork (m.cpus d) (m'.cpus d))
    × (m'.installed ≡ m.installed)
    × (m'.processes ≡ m.processes)
    × (m'.process_list ≡ m.process_list)

pub QueuesAlone-refl : (m : Machine) → QueuesAlone m m
QueuesAlone-refl m = ((λ u. ground arith), (λ d. ground arith), refl, refl, refl)

pub enqueue_thread-QueuesAlone :
    (c t : ℕ) (m : Machine) → QueuesAlone m (enqueue_thread (some c) t m)
unfolding enqueue_thread
enqueue_thread-QueuesAlone c t m = elim (Bool-cases (t == 0)) [
  | inl z ↦ rw z (QueuesAlone-refl m)
  | inr nz ↦ elim (Bool-cases ((m.cpus c).ready_queue_tail == 0)) [
    | inl e ↦ rw nz (rw e (λ u. ground arith, λ d. ground arith, refl, refl, refl))
    | inr ne ↦ rw nz (rw ne (λ u. ground arith, λ d. ground arith, refl, refl, refl))
  ]
]

pub Links-nonzero :
    (f : ℕ → Thread) (p : ℕ) (q : List ℕ) (u : ℕ) → Links f p q → has u q ≡ true → u ≢ 0
Links-nonzero f p [] u l h = cc
Links-nonzero f p (x ∷ xs) u l h = elim (Bool-cases (x == u)) [
  | inl e ↦ λ z. l.1 ((==_iff x u).0 e ∙ z)
  | inr ne ↦ Links-nonzero f (f x).next xs u l.2 (ground arith)
]

-- The pointers after a thread joins a queue that is not empty.
module _ (c t : ℕ) (m : Machine) (nz : t ≢ 0) (some_tail : (m.cpus c).ready_queue_tail ≢ 0) where
  pub head_kept :
      ((enqueue_thread (some c) t m).cpus c).ready_queue_head ≡ (m.cpus c).ready_queue_head
  unfolding enqueue_thread
  head_kept = ground arith

  pub tail_moved : ((enqueue_thread (some c) t m).cpus c).ready_queue_tail ≡ t
  unfolding enqueue_thread
  tail_moved = ground arith

  pub tail_linked : ((enqueue_thread (some c) t m).threads (m.cpus c).ready_queue_tail).next ≡ t
  unfolding enqueue_thread
  tail_linked = ground arith

  pub ends : (m.cpus c).ready_queue_tail ≢ t → ((enqueue_thread (some c) t m).threads t).next ≡ 0
  unfolding enqueue_thread
  ends ne = ground arith

pub next_kept :
    (c t u : ℕ) (m : Machine)
    → u ≢ t
    → u ≢ (m.cpus c).ready_queue_tail
    → ((enqueue_thread (some c) t m).threads u).next ≡ (m.threads u).next
unfolding enqueue_thread
next_kept c t u m n1 n2 = ground arith

pub cpu_kept : (c d t : ℕ) (m : Machine) → d ≢ c → (enqueue_thread (some c) t m).cpus d ≡ m.cpus d
unfolding enqueue_thread
cpu_kept c d t m ne = ground arith
