-- ===== src/Sched/Valid/Switch.antt =====
-- `task_switch` against what holds between the operations.
use sirius_education.Common.{
  has, ℕ, ◌≡◌, ◌≢◌, refl, ap, ◌∙◌, Bool, true, false, not, ◌&&◌, some, inl, inr, ◌⊎◌, List, [], ◌∷◌,
  ◌++◌, ◌==◌, ==_iff, ==→ne, Bool-cases, arith, if◌then◌else◌,
}
use sirius_education.Sched.{
  ready, running, Machine, update, write, get_cpu_data_block, enqueue_thread, dequeue_thread,
}
use sirius_education.Sched.Tasks.{is_running, suspend, choose, dispatch, task_switch}
use sirius_education.Sched.Queue.{
  Holds, Links-agree, QueuesAlone, enqueue_thread-QueuesAlone, dequeue_thread-QueuesAlone,
  dequeue_thread-first, first, rest,
}
use sirius_education.Sched.Valid.{IsValid}
use sirius_education.Sched.Valid.Turned.{turned-IsValid, dispatch-Turned, first_home}
use sirius_education.Sched.Valid.Moves.{not_elsewhere, out_of_queues, enqueue_thread-IsValid}

-- The queues with the thread that leaves: a running one that is not idle queues again.
abbrev pub queues_of : Machine → ℕ → (ℕ → List ℕ) → ℕ → List ℕ
queues_of m c qs =
    let cur = (m.cpus c).current_thread in
    if not (cur == 0) && (is_running (m.threads cur).state && not ((m.threads cur).tid == 0))
    then update qs c (qs c ++ cur ∷ [])
    else qs

-- Whether the current thread goes back into the queue.
abbrev pub leaves : Machine → ℕ → Bool
leaves m c =
    let cur = (m.cpus c).current_thread in
    not (cur == 0) && (is_running (m.threads cur).state && not ((m.threads cur).tid == 0))

-- What `suspend` leaves, but for the queue.
module _ (c regs : ℕ) (m : Machine) where
  abbrev outgoing : Machine
  outgoing =
      let cur = (m.cpus c).current_thread in
      write cur (record (m.threads cur) { context_frame = regs; state = ready }) m

  queued_alone : QueuesAlone outgoing (enqueue_thread (some c) (m.cpus c).current_thread outgoing)
  queued_alone = enqueue_thread-QueuesAlone c (m.cpus c).current_thread outgoing

  pub suspend-state :
      (u : ℕ)
      → ((suspend c regs m).threads u).state
        ≡ (if leaves m c && ((m.cpus c).current_thread == u) then ready else (m.threads u).state)
  unfolding suspend
  suspend-state u = ground (arith, queued_alone.0 u)

  pub suspend-thread :
      (u : ℕ)
      → (((suspend c regs m).threads u).tid ≡ (m.threads u).tid)
        × (((suspend c regs m).threads u).cpu_id ≡ (m.threads u).cpu_id)
        × (((suspend c regs m).threads u).kernel_stack_top ≡ (m.threads u).kernel_stack_top)
        × (((suspend c regs m).threads u).context_frame ≡ (
            if not ((m.cpus c).current_thread == 0) && ((m.cpus c).current_thread == u)
            then regs
            else (m.threads u).context_frame))
  unfolding suspend
  suspend-thread u = ground (arith, queued_alone.0 u)

  pub suspend-chan : (u : ℕ) → ((suspend c regs m).threads u).chan ≡ (m.threads u).chan
  unfolding suspend
  suspend-chan u = ground (arith, queued_alone.0 u)

  pub suspend-cpu :
      (d : ℕ)
      → (((suspend c regs m).cpus d).current_thread ≡ (m.cpus d).current_thread)
        × (((suspend c regs m).cpus d).idle_thread ≡ (m.cpus d).idle_thread)
  unfolding suspend
  suspend-cpu d = ground (arith, queued_alone.1 d)

  pub suspend-installed : (suspend c regs m).installed ≡ m.installed
  unfolding suspend
  suspend-installed = ground (arith, queued_alone.2)

module _ {S : ℕ → Bool} {m : Machine} {qs : ℕ → List ℕ} (v : IsValid S m qs) where
  -- A change of the saved frame alone.
  frame-IsValid : (t r : ℕ) → IsValid S (write t (record (m.threads t) { context_frame = r }) m) qs
  unfolding get_cpu_data_block
  frame-IsValid t r = record {
    holds = λ d. (
      Links-agree m.threads (write t (record (m.threads t) { context_frame = r }) m).threads
          (m.cpus d).ready_queue_head (qs d) (λ u k. ground arith) (v.holds d).0,
      (v.holds d).1,
      (v.holds d).2,
    );
    homed = λ c u h. ground (arith, v.homed c u h);
    queued = λ u a h. ground (arith, v.queued u a);
    runs = λ u a h n. ground (arith, v.runs u a);
    placed = λ u a. ground (arith, v.placed u a);
    currents = λ c n. ground (arith, v.currents c n);
    idles = λ c i. ground (arith, v.idles c i);
    real = v.real;
    members = v.members;
  }

  pub suspend-IsValid : (c regs : ℕ) → IsValid S (suspend c regs m) (queues_of m c qs)
  unfolding suspend
  suspend-IsValid c regs = elim (Bool-cases ((m.cpus c).current_thread == 0)) [
    | inl z ↦ rw z v
    | inr nz ↦
        elim (Bool-cases (
          is_running (m.threads (m.cpus c).current_thread).state
          && not ((m.threads (m.cpus c).current_thread).tid == 0))) [
            | inl on ↦ rw nz (
                rw on (
                  enqueue_thread-IsValid v c (m.cpus c).current_thread
                    (record (m.threads (m.cpus c).current_thread) {
                      context_frame = regs;
                      state = ready;
                    })
                    (==→ne _ _ nz) refl (v.currents c (==→ne _ _ nz)).0
                    (v.currents c (==→ne _ _ nz)).0
                    (out_of_queues v (m.cpus c).current_thread c (ground arith))
                    ((v.currents c (==→ne _ _ nz)).1 (ground arith)) refl))
            | inr off ↦ rw nz (rw off (frame-IsValid (m.cpus c).current_thread regs))
          ]
  ]

  suspend-quiet :
      (c regs u : ℕ)
      → S u ≡ true
      → ((suspend c regs m).threads u).state ≡ running
      → ((suspend c regs m).threads u).tid ≢ 0
      → ((suspend c regs m).threads u).cpu_id ≢ c
  suspend-quiet c regs u a r n =
      ground (arith, suspend-state c regs m u, suspend-thread c regs m u, r, n, v.runs u a, v.real)

pub first-empty :
    (m : Machine) (c : ℕ) (q : List ℕ) → Holds m c q → first q ≡ 0 → (u : ℕ) → has u q ≡ false
first-empty m c [] h z u = refl
first-empty m c (x ∷ xs) h z u = absurd (h.0.1 z)

module _ {S : ℕ → Bool} {m : Machine} {qs : ℕ → List ℕ} (v : IsValid S m qs) (c : ℕ)
    (up : m.installed c ≡ true) where
  chosen-ne : (t : ℕ) → choose c t m ≢ 0
  unfolding choose
  chosen-ne t = ground (arith, v.idles c up)

  chosen-home : (t : ℕ) → (t ≢ 0 → (m.threads t).cpu_id ≡ c) → (m.threads (choose c t m)).cpu_id ≡ c
  unfolding choose
  chosen-home t h = ground (arith, v.idles c up, v.currents c)

  next_from :
      (first (qs c) ≡ choose c (first (qs c)) m)
      ⊎ ((first (qs c) ≡ 0) × ((d : ℕ) → has (choose c (first (qs c)) m) (qs d) ≡ false))
  unfolding choose
  next_from = elim (Bool-cases (first (qs c) == 0)) [
    | inl z ↦ inr (
      (==_iff (first (qs c)) 0).0 z,
      not_elsewhere v (choose c (first (qs c)) m) c
          (chosen-home (first (qs c)) (λ n. absurd (n ((==_iff (first (qs c)) 0).0 z))))
          (first-empty m c (qs c) (v.holds c) ((==_iff (first (qs c)) 0).0 z) _),
    )
    | inr nz ↦ inl (ground arith)
  ]

  chosen_admitted :
      (m.threads (choose c (first (qs c)) m)).tid ≢ 0 → S (choose c (first (qs c)) m) ≡ true
  unfolding choose
  chosen_admitted n =
      ground (arith, v.idles c up, v.currents c, v.homed c (first (qs c)), first_home v c)

  pub choose-dequeue : (t : ℕ) → choose c t (dequeue_thread (some c) m).1 ≡ choose c t m
  unfolding choose
  choose-dequeue t = ground (
    arith,
    (dequeue_thread-QueuesAlone c m).0 (m.cpus c).current_thread,
    (dequeue_thread-QueuesAlone c m).1 c,
  )

  advance-IsValid :
      ((u : ℕ)
        → S u ≡ true
        → (m.threads u).state ≡ running
        → (m.threads u).tid ≢ 0
        → (m.threads u).cpu_id ≢ c)
      → IsValid S
          (dispatch c (choose c (first (qs c)) m) (dequeue_thread (some c) m).1)
          (update qs c (rest (qs c)))
  advance-IsValid quiet =
      turned-IsValid v c (choose c (first (qs c)) m) (chosen-ne (first (qs c)))
        (chosen-home (first (qs c)) (λ n. (v.homed c (first (qs c)) (first_home v c n).0).1)) quiet
        next_from chosen_admitted
        (dispatch-Turned c (choose c (first (qs c)) m) (dequeue_thread (some c) m).1)

module _ {S : ℕ → Bool} {m : Machine} {qs : ℕ → List ℕ} (v : IsValid S m qs) (c regs : ℕ)
    (up : m.installed c ≡ true) where
  abbrev pub suspended : Machine
  suspended = suspend c regs m

  abbrev pub taken : Machine
  taken = (dequeue_thread (some c) suspended).1

  -- The thread that goes on.
  abbrev pub next_thread : ℕ
  next_thread = choose c (first (queues_of m c qs c)) suspended

  still_up : suspended.installed c ≡ true
  still_up = ap (λ (i : ℕ → Bool). i c) (suspend-installed c regs m) ∙ up

  pub task_switch-eq :
      task_switch c regs m
      ≡ ((taken.threads next_thread).context_frame, dispatch c next_thread taken)
  unfolding task_switch
  task_switch-eq =
      ap (λ (n : ℕ). ((taken.threads n).context_frame, dispatch c n taken))
        (choose-dequeue (suspend-IsValid v c regs) c still_up (dequeue_thread (some c) suspended).0
          ∙ ap (λ (t : ℕ). choose c t suspended)
              (dequeue_thread-first c suspended (queues_of m c qs c)
                ((suspend-IsValid v c regs).holds c)))

  pub task_switch-IsValid :
      IsValid S (task_switch c regs m).1 (update (queues_of m c qs) c (rest (queues_of m c qs c)))
  task_switch-IsValid =
      rw task_switch-eq
        (advance-IsValid (suspend-IsValid v c regs) c still_up (suspend-quiet v c regs))
