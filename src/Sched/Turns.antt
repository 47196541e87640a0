-- ===== src/Sched/Turns.antt =====
-- `task_switch`: which thread goes on, with what, and how the turns go round.
use sirius_education.Common.{
  ℕ, zero, suc, ◌≡◌, ◌≢◌, refl, sym, ap, ◌∙◌, Bool, true, some, inl, inr, List, [], ◌∷◌, ◌++◌, ◌==◌,
  get_elem?, length, ==_iff, ==-refl, ne→==, Bool-cases, arith, if◌then◌else◌,
}
use sirius_education.Sched.{running, waiting, Machine, update, dequeue_thread}
use sirius_education.Sched.Tasks.{suspend, choose, dispatch, task_switch}
use sirius_education.Sched.Queue.{Holds, QueuesAlone, dequeue_thread-QueuesAlone, first, rest}
use sirius_education.Sched.Valid.{IsValid}
use sirius_education.Sched.Valid.Turned.{dispatch-Turned, Turned, first_home}
use sirius_education.Sched.Valid.Switch.{
  queues_of, suspend-state, suspend-thread, suspend-cpu, suspend-IsValid, next_thread, taken,
  task_switch-eq, task_switch-IsValid, first-empty, suspend-installed, suspend-chan,
}

-- The first of the queue, or the idle thread.
abbrev pub upcoming : Machine → ℕ → List ℕ → ℕ
upcoming m c q = if first q == 0 then (m.cpus c).idle_thread else first q

-- The outcome `r` of a change of threads on the processor `c`, `queues` being those with the outgoing
-- thread.
pub record Switched (S : ℕ → Bool) (m : Machine) (c regs : ℕ) (queues : ℕ → List ℕ)
    (r : ℕ × Machine) : Type 0 where
  pub valid : IsValid S r.1 (update queues c (rest (queues c)))
  pub current : (r.1.cpus c).current_thread ≡ upcoming m c (queues c)
  pub active : (r.1.threads (upcoming m c (queues c))).state ≡ running
  pub frame : r.0 ≡ (r.1.threads (upcoming m c (queues c))).context_frame
  pub saved :
      (m.cpus c).current_thread ≢ 0 → (r.1.threads (m.cpus c).current_thread).context_frame ≡ regs
  pub stack : (r.1.cpus c).rsp0 ≡ (r.1.threads (upcoming m c (queues c))).kernel_stack_top
  pub others :
      (u : ℕ)
      → u ≢ (m.cpus c).current_thread
      → u ≢ upcoming m c (queues c)
      → (r.1.threads u).state ≡ (m.threads u).state
  pub elsewhere : (d : ℕ) → d ≢ c → (r.1.cpus d).current_thread ≡ (m.cpus d).current_thread

module _ (c n : ℕ) (m : Machine) where
  dispatch-frame :
      (u : ℕ)
      → (((dispatch c n m).threads u).context_frame ≡ (m.threads u).context_frame)
        × (((dispatch c n m).threads u).kernel_stack_top ≡ (m.threads u).kernel_stack_top)
  unfolding dispatch
  dispatch-frame u = ground arith

  dispatch-stack : ((dispatch c n m).cpus c).rsp0 ≡ (m.threads n).kernel_stack_top
  unfolding dispatch
  dispatch-stack = ground arith

module _ {S : ℕ → Bool} {m : Machine} {qs : ℕ → List ℕ} (v : IsValid S m qs) (c regs : ℕ)
    (up : m.installed c ≡ true) where
  abbrev left : IsValid S (suspend c regs m) (queues_of m c qs)
  left = suspend-IsValid v c regs

  -- An empty queue leaves no ready thread of the processor, so the idle thread goes on.
  next-upcoming : next_thread v c regs up ≡ upcoming m c (queues_of m c qs c)
  unfolding choose
  next-upcoming = elim (Bool-cases (first (queues_of m c qs c) == 0)) [
    | inl z ↦ ground (
      arith,
      suspend-cpu c regs m c,
      left.currents c,
      left.queued (m.cpus c).current_thread,
      first-empty (suspend c regs m) c (queues_of m c qs c) (left.holds c) ((==_iff _ 0).0 z)
          (m.cpus c).current_thread,
    )
    | inr nz ↦ ground arith
  ]

  -- A change of threads on a processor that is up, from a state in which the queues are right: a running
  -- thread that is not idle joins the end of the queue; the first of the queue, or the idle thread where
  -- it is empty, runs on with its own frame and kernel stack, its frame is the result, and the outgoing
  -- thread keeps the frame that was passed; the states of all others and the threads of the other
  -- processors stay, and the queues are right again.
  pub task_switch-Switched : Switched S m c regs (queues_of m c qs) (task_switch c regs m)
  task_switch-Switched = record {
    valid = task_switch-IsValid v c regs up;
    current = rw e (ground (arith, g.current c, w));
    active = rw e (rw (sym w) (ground (arith, g.states n)));
    frame = rw e (rw (sym w) (sym (dispatch-frame c n t n).0));
    saved = λ nz. rw e (
        ground (
          arith,
          dispatch-frame c n t (m.cpus c).current_thread,
          suspend-thread c regs m (m.cpus c).current_thread,
          k.0 (m.cpus c).current_thread,
        ));
    stack = rw e (rw (sym w) (dispatch-stack c n t ∙ sym (dispatch-frame c n t n).1));
    others = λ u n1 n2. rw e (ground (arith, g.states u, suspend-state c regs m u, k.0 u, w));
    elsewhere = λ d ne. rw e (ground (arith, g.current d, suspend-cpu c regs m d, k.1 d));
  }
    where
      n : ℕ
      n = next_thread v c regs up

      t : Machine
      t = taken v c regs up

      g : Turned c n t (dispatch c n t)
      g = dispatch-Turned c n t

      w : next_thread v c regs up ≡ upcoming m c (queues_of m c qs c)
      w = next-upcoming

      e : task_switch c regs m ≡ ((t.threads n).context_frame, dispatch c n t)
      e = task_switch-eq v c regs up

      k : QueuesAlone (suspend c regs m) (dequeue_thread (some c) (suspend c regs m)).1
      k = dequeue_thread-QueuesAlone c (suspend c regs m)

  task_switch-installed : (task_switch c regs m).1.installed ≡ m.installed
  task_switch-installed = rw (task_switch-eq v c regs up) (
      (dispatch-Turned c (next_thread v c regs up) (taken v c regs up)).kept.0
      ∙ (dequeue_thread-QueuesAlone c (suspend c regs m)).2
      ∙ suspend-installed c regs m)

  -- A thread that sleeps goes on sleeping.
  pub switch-sleeps :
      (u : ℕ)
      → (m.threads u).state ≡ waiting
      → (m.threads u).tid ≢ 0
      → (((task_switch c regs m).1.threads u).state ≡ waiting)
        × (((task_switch c regs m).1.threads u).chan ≡ (m.threads u).chan)
  switch-sleeps u w n = rw (task_switch-eq v c regs up) (
    g.states u ∙ rw (ne→== (next_thread v c regs up) u apart_from) ((k.0 u).state ∙ asleep),
    g.chans u ∙ ((k.0 u).chan ∙ suspend-chan c regs m u),
  )
    where
      g :
          Turned c
            (next_thread v c regs up)
            (taken v c regs up)
            (dispatch c (next_thread v c regs up) (taken v c regs up))
      g = dispatch-Turned c (next_thread v c regs up) (taken v c regs up)

      k : QueuesAlone (suspend c regs m) (dequeue_thread (some c) (suspend c regs m)).1
      k = dequeue_thread-QueuesAlone c (suspend c regs m)

      asleep : ((suspend c regs m).threads u).state ≡ waiting
      asleep = ground (arith, suspend-state c regs m u, w)

      apart_from : next_thread v c regs up ≢ u
      apart_from q = ground (
        arith,
        q,
        next-upcoming,
        asleep,
        n,
        v.idles c up,
        first_home left c,
        left.homed c (first (queues_of m c qs c)),
      )

-- Timer ticks on the processor `c`: each saves its frame and changes the thread.
unfoldable pub ticks : ℕ → List ℕ → Machine → Machine
ticks c [] m = m
ticks c (r ∷ rs) m = ticks c rs (task_switch c r m).1

pub get_elem?-append :
    (q : List ℕ) (k t x : ℕ) → get_elem? q k ≡ some t → get_elem? (q ++ x ∷ []) k ≡ some t
get_elem?-append [] k t x h = cc
get_elem?-append (y ∷ q) zero t x h = h
get_elem?-append (y ∷ q) (suc k) t x h = get_elem?-append q k t x h

get_elem?-queues_of :
    (m : Machine) (c : ℕ) (qs : ℕ → List ℕ) (k t : ℕ)
    → get_elem? (qs c) k ≡ some t
    → get_elem? (queues_of m c qs c) k ≡ some t
get_elem?-queues_of m c qs k t h =
    ground (arith, get_elem?-append (qs c) k t (m.cpus c).current_thread)

get_elem?-first : (q : List ℕ) (t : ℕ) → get_elem? q 0 ≡ some t → first q ≡ t
get_elem?-first [] t h = cc
get_elem?-first (x ∷ q) t h = cc

get_elem?-rest : (q : List ℕ) (k : ℕ) → get_elem? (rest q) k ≡ get_elem? q (suc k)
get_elem?-rest [] k = refl
get_elem?-rest (x ∷ q) k = refl

get_elem?-ne :
    (m : Machine) (c : ℕ) (q : List ℕ) (t : ℕ) → Holds m c q → get_elem? q 0 ≡ some t → t ≢ 0
get_elem?-ne m c [] t h e = cc
get_elem?-ne m c (x ∷ q) t h e = λ z. h.0.1 (cc)

upcoming-first :
    (m : Machine) (c : ℕ) (q : List ℕ) (t : ℕ) → first q ≡ t → t ≢ 0 → upcoming m c q ≡ t
upcoming-first m c q t e nz = ground arith

-- The thread at the place `k` of a processor's queue has the processor after `k + 1` ticks.
pub ticks-reach :
    {S : ℕ → Bool} (c k t : ℕ) (rs : List ℕ) (m : Machine) (qs : ℕ → List ℕ)
    → IsValid S m qs
    → m.installed c ≡ true
    → get_elem? (qs c) k ≡ some t
    → length rs ≡ suc k
    → ((ticks c rs m).cpus c).current_thread ≡ t
unfolding ticks
ticks-reach c k t [] m qs v up h n = cc
ticks-reach c zero t (r ∷ (s ∷ rs)) m qs v up h n = absurd (omega (arith, n))
ticks-reach c zero t (r ∷ []) m qs v up h n =
    (task_switch-Switched v c r up).current
    ∙ upcoming-first m c (queues_of m c qs c) t
        (get_elem?-first (queues_of m c qs c) t (get_elem?-queues_of m c qs 0 t h))
        (get_elem?-ne m c (qs c) t (v.holds c) h)
ticks-reach c (suc k) t (r ∷ rs) m qs v up h n =
    ticks-reach c k t rs (task_switch c r m).1
      (update (queues_of m c qs) c (rest (queues_of m c qs c)))
      (task_switch-Switched v c r up).valid
      (ap (λ (i : ℕ → Bool). i c) (task_switch-installed v c r up) ∙ up)
      (rw (==-refl c)
        (get_elem?-rest (queues_of m c qs c) k ∙ get_elem?-queues_of m c qs (suc k) t h))
      (omega (arith, n))
