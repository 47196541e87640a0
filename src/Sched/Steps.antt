-- ===== src/Sched/Steps.antt =====
-- The operations of the scheduler in any order, on any processors, each as one step.
--
-- A step stands for what runs with interrupts off and under the locks; `schedule` is a `tick`.
use mathlib.Core.Path.{subst}
use sirius_education.Common.{
  has, refl, ℕ, zero, suc, ◌≡◌, ◌≢◌, ◌∙◌, Bool, true, ◌||◌, some, inl, inr, ◌⊎◌, ◌&&◌, ==_iff,
  Option, List, ◌==◌, ==→ne, Bool-cases, arith,
}
use sirius_education.Sched.{ThreadState, ready, running, waiting, Machine, update}
use sirius_education.Sched.Tasks.{
  wake, is_waiting, task_switch, wait_on, wakeup_thread, wakeup, next_live, scheduler_exit,
}
use sirius_education.Sched.Queue.{rest}
use sirius_education.Sched.Valid.{IsValid}
use sirius_education.Sched.Turns.{task_switch-Switched, switch-sleeps}
use sirius_education.Sched.Wake.{
  sleeps, mains, wake-threads, woken_queues, wait_on-IsValid, wake-IsValid, wakeup-Woken,
}
use sirius_education.Sched.Exit.Ended.{scheduler_exit-Exited, exit-sleeps, Exited}
use sirius_education.Sched.Exit.Retired.{exit_queues}

pub data Step (S : ℕ → Bool) (m : Machine) : Machine → Type 0 where
  sleep :
      (c chan : ℕ)
      → (m.threads (m.cpus c).current_thread).state ≡ running
      → Step S m (wait_on c chan m)
  tick : (c regs : ℕ) → m.installed c ≡ true → Step S m (task_switch c regs m).1
  signal : (chan : ℕ) → Step S m (wakeup chan m)
  signal_one : (chan t : ℕ) → S t ≡ true → Step S m (wakeup_thread chan t m)
  finish :
      (c : ℕ) (wakes : List ℕ) (code fuel : ℕ) (m' : Machine)
      → m.installed c ≡ true
      → (m.threads (m.cpus c).current_thread).state ≡ running
      → (m.threads (m.cpus c).current_thread).tid ≢ 0
      → (m.cpus c).current_thread ≢ 0
      → scheduler_exit fuel c wakes code m ≡ some m'
      → Step S m m'

pub data Reach (S : ℕ → Bool) (m : Machine) : Machine → Type 0 where
  here : Reach S m m
  next : {k l : Machine} → Reach S m k → Step S k l → Reach S m l

abbrev pub Orderly : (ℕ → Bool) → Machine → Type 0
Orderly S m = (qs : ℕ → List ℕ) × IsValid S m qs

exit_zero :
    (c : ℕ) (wakes : List ℕ) (code : ℕ) (m m' : Machine) → scheduler_exit 0 c wakes code m ≢ some m'
unfolding scheduler_exit next_live
exit_zero c wakes code m m' = λ e. cc

same_result : {o : Option Machine} {a b : Machine} → o ≡ some a → o ≡ some b → a ≡ b
same_result p q = cc

exit-Orderly :
    {S : ℕ → Bool} {m : Machine} (c : ℕ) (wakes : List ℕ) (code fuel : ℕ) (m' : Machine)
    → Orderly S m
    → m.installed c ≡ true
    → (m.threads (m.cpus c).current_thread).state ≡ running
    → (m.threads (m.cpus c).current_thread).tid ≢ 0
    → (m.cpus c).current_thread ≢ 0
    → scheduler_exit fuel c wakes code m ≡ some m'
    → Orderly S m'
exit-Orderly {m} c wakes code zero m' o up run id nz e = absurd (exit_zero c wakes code m m' e)
exit-Orderly {S} {m} c wakes code (suc f) m' (qs, v) up run id nz e = (
  update lined c (rest (lined c)),
  subst (λ (k : Machine). IsValid S k (update lined c (rest (lined c)))) (same_result result.1 e)
      result.2.valid,
)
  where
    lined : ℕ → List ℕ
    lined = exit_queues (m.cpus c).current_thread wakes code m qs

    result :
        (k : Machine) × (scheduler_exit (suc f) c wakes code m ≡ some k)
        × Exited S m c wakes code (exit_queues (m.cpus c).current_thread wakes code m qs) k
    result = scheduler_exit-Exited v c wakes code up run nz f id

wakeup-Orderly : {S : ℕ → Bool} {m : Machine} (chan : ℕ) → Orderly S m → Orderly S (wakeup chan m)
wakeup-Orderly {S} {m} chan (qs, v) = elim (Bool-cases (chan == 0)) [
  | inl z ↦ (qs, unfold wakeup in rw z v)
  | inr nz ↦ (_, (wakeup-Woken v chan (==→ne chan 0 nz)).valid)
]

wakeup_thread-Orderly :
    {S : ℕ → Bool} {m : Machine} (chan t : ℕ)
    → S t ≡ true
    → Orderly S m
    → Orderly S (wakeup_thread chan t m)
wakeup_thread-Orderly {m} chan t a (qs, v) = elim (Bool-cases ((chan == 0) || (t == 0))) [
  | inl z ↦ (qs, unfold wakeup_thread in rw z v)
  | inr nz ↦
      (woken_queues chan t m qs, unfold wakeup_thread in rw nz (wake-IsValid v chan t (λ n. a)))
]

one_place :
    {S : ℕ → Bool} {k : Machine}
    → Orderly S k
    → (c d : ℕ) → (k.cpus c).current_thread ≢ 0
    → (k.cpus c).current_thread ≡ (k.cpus d).current_thread
    → c ≡ d
one_place (qs, v) c d n e = ground (arith, v.currents c, v.currents d, n, e)

-- Every step keeps the queues right.
Step-Orderly : {S : ℕ → Bool} {m m' : Machine} → Step S m m' → Orderly S m → Orderly S m'
Step-Orderly (sleep c chan run) (qs, v) = (qs, wait_on-IsValid v c chan run)
Step-Orderly (tick c regs up) (qs, v) = (_, (task_switch-Switched v c regs up).valid)
Step-Orderly (signal chan) o = wakeup-Orderly chan o
Step-Orderly (signal_one chan t a) o = wakeup_thread-Orderly chan t a o
Step-Orderly (finish c wakes code fuel m' up run id nz e) o =
    exit-Orderly c wakes code fuel m' o up run id nz e

-- From a state in which the queues are right, whatever the steps on whatever processors: the queues are
-- right in every state that is reached (each is linked from its head to its tail, holds ready threads of
-- its own processor, each once, and every ready thread that the scheduler has been given is in one), and
-- no thread is the current one of two processors.
pub Reach-Orderly :
    {S : ℕ → Bool} {m k : Machine}
    → Orderly S m
    → Reach S m k
    → Orderly S k
      × ((c d : ℕ)
          → (k.cpus c).current_thread ≢ 0
          → (k.cpus c).current_thread ≡ (k.cpus d).current_thread
          → c ≡ d)
Reach-Orderly o here = (o, one_place o)
Reach-Orderly o (next r st) =
    (Step-Orderly st (Reach-Orderly o r).0, one_place (Step-Orderly st (Reach-Orderly o r).0))

is_waiting→ : (s : ThreadState) → is_waiting s ≡ true → s ≡ waiting
is_waiting→ s h = ground arith

-- The step makes a wakeup of the channel, of all its sleepers or of this one; the end of a thread makes those
-- of its files.
abbrev pub Wakes : {S : ℕ → Bool} {m m' : Machine} → ℕ → ℕ → Step S m m' → Type 0
Wakes chan u (sleep c ch run) = ⊥
Wakes chan u (tick c regs up) = ⊥
Wakes chan u (signal ch) = ch ≡ chan
Wakes chan u (signal_one ch t a) = (ch ≡ chan) × (t ≡ u)
Wakes chan u (finish c wakes code fuel m' up run id nz e) = has chan wakes ≡ true

-- The thread `u` sleeps on the channel, or is ready or runs because of `W`.
abbrev pub Held : Type 0 → ℕ → ℕ → Machine → Type 0
Held W chan u m =
    (sleeps chan u m ≡ true)
    ⊎ (W
        × (((m.threads u).state ≡ ready)
            ⊎ (((m.threads u).state ≡ running) × ((m.threads u).tid ≢ 0))))

still_asleep :
    {W : Type 0} (chan u : ℕ) (m m' : Machine)
    → sleeps chan u m ≡ true
    → (m'.threads u).state ≡ waiting
    → (m'.threads u).chan ≡ (m.threads u).chan
    → Held W chan u m'
still_asleep chan u m m' a w e = inl (ground arith)

same_channel :
    (ch chan u : ℕ) (m : Machine) → sleeps ch u m ≡ true → sleeps chan u m ≡ true → ch ≡ chan
same_channel ch chan u m a b = ground arith

wakeup-Held :
    {S : ℕ → Bool} {m : Machine} {qs : ℕ → List ℕ} (v : IsValid S m qs) (ch chan u : ℕ)
    → sleeps chan u m ≡ true
    → Held (ch ≡ chan) chan u (wakeup ch m)
wakeup-Held {S} {m} {qs} v ch chan u a = elim (Bool-cases (ch == 0)) [
  | inl z ↦ inl (unfold wakeup in rw z a)
  | inr nz ↦ elim (Bool-cases (sleeps ch u m)) [
    | inl on ↦ elim (Bool-cases (has u (mains m m.process_list))) [
      | inl listed ↦ inr (
        same_channel ch chan u m on a,
        inl ((wakeup-Woken v ch (==→ne ch 0 nz)).roused u listed on).0,
      )
      | inr other ↦
          still_asleep chan u m (wakeup ch m) a
            (((wakeup-Woken v ch (==→ne ch 0 nz)).kept u (inr other)).0
              ∙ is_waiting→ _ (ground arith))
            ((wakeup-Woken v ch (==→ne ch 0 nz)).kept u (inr other)).1
    ]
    | inr off ↦
        still_asleep chan u m (wakeup ch m) a
          (((wakeup-Woken v ch (==→ne ch 0 nz)).kept u (inl off)).0 ∙ is_waiting→ _ (ground arith))
          ((wakeup-Woken v ch (==→ne ch 0 nz)).kept u (inl off)).1
  ]
]

wakeup_thread-Held :
    {S : ℕ → Bool} {m : Machine} {qs : ℕ → List ℕ} (v : IsValid S m qs) (ch t : ℕ)
    → S t ≡ true
    → (chan u : ℕ) → sleeps chan u m ≡ true
    → Held ((ch ≡ chan) × (t ≡ u)) chan u (wakeup_thread ch t m)
wakeup_thread-Held {m} v ch t adm chan u a = elim (Bool-cases ((ch == 0) || (t == 0))) [
  | inl z ↦ inl (unfold wakeup_thread in rw z a)
  | inr nz ↦
      unfold wakeup_thread in
      rw nz (elim (Bool-cases (sleeps ch t m && (t == u))) [
        | inl on ↦ inr (
          (
            ground (arith, on, a, (==_iff t u).0 (ground (arith, on))),
            (==_iff t u).0 (ground (arith, on)),
          ),
          inl ((wake-threads v ch t (λ n. adm) u).0 ∙ rw on refl),
        )
        | inr off ↦
            still_asleep chan u m (wake ch t m) a
              ((wake-threads v ch t (λ n. adm) u).0 ∙ (rw off (is_waiting→ _ (ground arith))))
              ((wake-threads v ch t (λ n. adm) u).1 ∙ (rw off refl))
      ])
]

Step-Held :
    {S : ℕ → Bool} {m m' : Machine} {qs : ℕ → List ℕ} (v : IsValid S m qs) (st : Step S m m')
    (chan u : ℕ)
    → (m.threads u).tid ≢ 0
    → sleeps chan u m ≡ true
    → Held (Wakes chan u st) chan u m'
Step-Held {m} v (sleep c ch run) chan u n a = inl (unfold wait_on in ground arith)
Step-Held {m} {m'} v (tick c regs up) chan u n a =
    still_asleep chan u m m' a (switch-sleeps v c regs up u (is_waiting→ _ (ground arith)) n).0
      (switch-sleeps v c regs up u (is_waiting→ _ (ground arith)) n).1
Step-Held {m} {m'} v (signal ch) chan u n a = wakeup-Held v ch chan u a
Step-Held {m} {m'} v (signal_one ch t adm) chan u n a = wakeup_thread-Held v ch t adm chan u a
Step-Held {m} {m'} v (finish c wakes code zero _ up run id nz e) chan u n a =
    absurd (exit_zero c wakes code m m' e)
Step-Held {m} {m'} v (finish c wakes code (suc f) _ up run id nz e) chan u n a =
    elim (exit-sleeps v c wakes code up run nz f u m' e (is_waiting→ _ (ground arith)) n) [
      | inl (w, h) ↦ still_asleep chan u m m' a w h
      | inr (h, r) ↦ inr (ground (arith, h, a), r)
    ]

-- In a state in which the queues are right, a thread that sleeps, that the scheduler has been given and
-- that is not idle: after any step it still sleeps on its channel, or the step makes a wakeup of this
-- channel and the thread is in the queue of its own processor or its current thread; the queues are right.
pub Step-sleeper :
    {S : ℕ → Bool} {m m' : Machine} (o : Orderly S m) (st : Step S m m') (chan u : ℕ)
    → S u ≡ true
    → (m.threads u).tid ≢ 0
    → sleeps chan u m ≡ true
    → (qs : ℕ → List ℕ) × IsValid S m' qs
      × ((sleeps chan u m' ≡ true)
          ⊎ (Wakes chan u st
              × ((has u (qs (m'.threads u).cpu_id) ≡ true)
                  ⊎ ((m'.cpus (m'.threads u).cpu_id).current_thread ≡ u))))
Step-sleeper (qs, v) st chan u a n z = (
  (Step-Orderly st (qs, v)).0,
  (Step-Orderly st (qs, v)).1,
  elim (Step-Held v st chan u n z) [
    | inl on ↦ inl on
    | inr (why, inl is_r) ↦ inr (why, inl ((Step-Orderly st (qs, v)).1.queued u a is_r))
    | inr (why, inr (is_on, id)) ↦ inr (why, inr ((Step-Orderly st (qs, v)).1.runs u a is_on id))
  ],
)
