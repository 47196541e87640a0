-- ===== src/Sched/Valid/Turned.antt =====
-- A processor that turns to another thread, against what holds between the operations.
use sirius_education.Common.{
  has, ℕ, ◌≡◌, ◌≢◌, refl, sym, ◌∙◌, Bool, true, false, some, inl, inr, ◌⊎◌, List, [], ◌∷◌, ◌==◌,
  ==_iff, ==-refl, ==→ne, Bool-cases, arith, if◌then◌else◌,
}
use sirius_education.Sched.{running, Machine, update, get_cpu_data_block, dequeue_thread}
use sirius_education.Sched.Tasks.{dispatch}
use sirius_education.Sched.Queue.{
  Holds, Links-agree, QueuesAlone, dequeue_thread-Holds, dequeue_thread-Holds_other,
  dequeue_thread-QueuesAlone, first, rest,
}
use sirius_education.Sched.Valid.{IsValid}
use sirius_education.Sched.Valid.Moves.{apart, zero_out}

has-rest : (u : ℕ) (q : List ℕ) → has u (rest q) ≡ true → has u q ≡ true
has-rest u [] h = h
has-rest u (x ∷ xs) h = ground arith

rest-lost : (u : ℕ) (q : List ℕ) → has u q ≡ true → (has u (rest q) ≡ true) ⊎ (u ≡ first q)
rest-lost u [] h = cc
rest-lost u (x ∷ xs) h = elim (Bool-cases (x == u)) [
  | inl e ↦ inr (sym ((==_iff x u).0 e))
  | inr ne ↦ inl (ground arith)
]

pub first_home :
    {S : ℕ → Bool} {m : Machine} {qs : ℕ → List ℕ} (v : IsValid S m qs) (c : ℕ)
    → first (qs c) ≢ 0
    → (has (first (qs c)) (qs c) ≡ true) × (has (first (qs c)) (rest (qs c)) ≡ false)
first_home {m} {qs} v c nz = of (qs c) (v.holds c) nz
  where
    of :
        (q : List ℕ)
        → Holds m c q
        → first q ≢ 0
        → (has (first q) q ≡ true) × (has (first q) (rest q) ≡ false)
    of [] h nz' = absurd (nz' refl)
    of (x ∷ xs) h nz' = (ground (arith, ==-refl x), h.2.0)

-- `m'` is `m` with the processor `c` turned to the thread `n`.
pub record Turned (c n : ℕ) (m m' : Machine) : Type 0 where
  pub states : (u : ℕ) → (m'.threads u).state ≡ (if n == u then running else (m.threads u).state)
  pub chans : (u : ℕ) → (m'.threads u).chan ≡ (m.threads u).chan
  pub tids : (u : ℕ) → (m'.threads u).tid ≡ (m.threads u).tid
  pub homes : (u : ℕ) → (m'.threads u).cpu_id ≡ (m.threads u).cpu_id
  pub nexts : (u : ℕ) → (m'.threads u).next ≡ (m.threads u).next
  pub current :
      (d : ℕ) → (m'.cpus d).current_thread ≡ (if c == d then n else (m.cpus d).current_thread)
  pub queue :
      (d : ℕ)
      → ((m'.cpus d).ready_queue_head ≡ (m.cpus d).ready_queue_head)
        × ((m'.cpus d).ready_queue_tail ≡ (m.cpus d).ready_queue_tail)
        × ((m'.cpus d).idle_thread ≡ (m.cpus d).idle_thread)
  pub kept :
      (m'.installed ≡ m.installed)
      × (m'.processes ≡ m.processes)
      × (m'.process_list ≡ m.process_list)

pub dispatch-Turned : (c n : ℕ) (m : Machine) → Turned c n m (dispatch c n m)
unfolding dispatch
dispatch-Turned c n m = record {
  states = λ u. ground arith;
  chans = λ u. ground arith;
  tids = λ u. ground arith;
  homes = λ u. ground arith;
  nexts = λ u. ground arith;
  current = λ d. ground arith;
  queue = λ d. ground arith;
  kept = (refl, refl, refl);
}

Turned-Holds :
    {c n : ℕ} {m m' : Machine} (t : Turned c n m m') (d : ℕ) (q : List ℕ)
    → Holds m d q
    → Holds m' d q
Turned-Holds {m} {m'} t d q h = rw (t.queue d).0 (
  Links-agree m.threads m'.threads (m.cpus d).ready_queue_head q (λ u k. t.nexts u) h.0,
  ((t.queue d).1 ∙ h.1),
  h.2,
)

-- `t` leaves the queue, or the queue is empty and another thread of the processor goes on.
pub turned-IsValid :
    {S : ℕ → Bool} {m : Machine} {qs : ℕ → List ℕ} (v : IsValid S m qs) (c n : ℕ)
    → n ≢ 0
    → (m.threads n).cpu_id ≡ c
    → ((u : ℕ)
        → S u ≡ true
        → (m.threads u).state ≡ running
        → (m.threads u).tid ≢ 0
        → (m.threads u).cpu_id ≢ c)
    → ((first (qs c) ≡ n) ⊎ ((first (qs c) ≡ 0) × ((d : ℕ) → has n (qs d) ≡ false)))
    → ((m.threads n).tid ≢ 0 → S n ≡ true)
    → {m'' : Machine} → Turned c n (dequeue_thread (some c) m).1 m''
    → IsValid S m'' (update qs c (rest (qs c)))
unfolding get_cpu_data_block
turned-IsValid {S} {m} {qs} v c n nz home quiet from adm {m''} g = record {
  holds = λ d. Turned-Holds g d (update qs c (rest (qs c)) d) (taken d);
  homed = λ d u h.
      ground (arith, gone d, g.states u, g.homes u, k.0 u, has-rest u (qs c), v.homed d u, h);
  queued = λ u a r.
      ground (arith, g.states u, g.homes u, k.0 u, r, v.queued u a, rest-lost u (qs c), first_is u);
  runs = λ u a r t. ground (
    arith,
    g.states u,
    g.homes u,
    g.tids u,
    g.current (m.threads u).cpu_id,
    k.0 u,
    k.1 (m.threads u).cpu_id,
    r,
    t,
    v.runs u a,
    quiet u a,
  );
  placed = λ u a. ground (arith, v.placed u a, g.homes u, g.kept, k.0 u, k.2);
  currents = λ d h. ground (
    arith,
    adm,
    g.tids n,
    g.tids (m.cpus d).current_thread,
    v.currents d,
    g.current d,
    k.1 d,
    g.homes n,
    g.homes (m.cpus d).current_thread,
    k.0 n,
    k.0 (m.cpus d).current_thread,
  );
  idles = λ d i. ground (
    arith,
    g.tids (m.cpus d).idle_thread,
    v.idles d,
    g.kept,
    k.2,
    g.queue d,
    k.1 d,
    g.homes (m.cpus d).idle_thread,
    k.0 (m.cpus d).idle_thread,
  );
  real = v.real;
  members = λ p h z. ground (arith, v.members p, g.kept, k.3, k.4);
}
  where
    m' : Machine
    m' = (dequeue_thread (some c) m).1

    k : QueuesAlone m m'
    k = dequeue_thread-QueuesAlone c m

    taken : (d : ℕ) → Holds m' d (update qs c (rest (qs c)) d)
    taken d = elim (Bool-cases (c == d)) [
      | inl e ↦ rw e (rw (sym ((==_iff c d).0 e)) (dequeue_thread-Holds c m (qs c) (v.holds c)))
      | inr ne ↦ rw ne (
          dequeue_thread-Holds_other c d m (qs c) (qs d) (λ e. ==→ne c d ne (sym e)) (v.holds c)
            (λ u h. apart v c d u (λ e. ==→ne c d ne (sym e)) h) (v.holds d))
    ]

    -- `n` is the first of the queue, or in no queue.
    gone : (d : ℕ) → has n (update qs c (rest (qs c)) d) ≡ false
    gone d = elim from [
      | inl e ↦ ground (arith, e, nz, first_home v c, v.homed d n, home)
      | inr f ↦ ground (arith, f.1 d, f.1 c, has-rest n (qs c))
    ]

    first_is : (u : ℕ) → u ≡ first (qs c) → has u (qs c) ≡ true → u ≡ n
    first_is u e h = elim from [ inl f ↦ e ∙ f | inr f ↦ ground (arith, f.0, e, h, zero_out v c) ]
