-- ===== src/Tests/Sched.antt =====
-- Threads, queues and sleepers at concrete states.
use Prim.{tt}
use sirius_education.Common.{
  ℕ, ◌≡◌, ◌≢◌, ◌⊎◌, inl, inr, refl, Bool, true, false, ◌||◌, some, List, [], ◌∷◌, has, ◌==◌,
  Bool-cases, arith, if◌then◌else◌,
}
use sirius_education.Sched.{
  ThreadState, ready, running, blocked, waiting, dead, Thread, active, Process, Cpu, Machine,
  get_cpu_data_block,
}
use sirius_education.Sched.{enqueue_thread, dequeue_thread}
use sirius_education.Sched.Tasks.{
  suspend, choose, dispatch, task_switch, wake, wakeup_each, wakeup, next_live,
}
use sirius_education.Sched.Queue.{Holds, first}
use sirius_education.Sched.Valid.Switch.{queues_of}
use sirius_education.Sched.Turns.{Switched, task_switch-Switched, ticks, ticks-reach}
use sirius_education.Sched.Wake.{woken_all, sleeps}
use sirius_education.Sched.Exit.{first_live, next_live-first, parent}
use sirius_education.Sched.Exit.Retired.{exit_queues}
use sirius_education.Sched.Exit.Closed.{woken_channels}
use sirius_education.Sched.Steps.{Step, Reach, Orderly, Reach-Orderly, Step-sleeper}
use sirius_education.Sched.Valid.{IsValid}

abbrev pub thread : ℕ → ThreadState → ℕ → ℕ → ℕ → Thread
thread tid state chan owner next = record {
  tid = tid;
  context_frame = 0x1000;
  kernel_stack_top = 0x2000;
  state = state;
  cpu_id = 0;
  chan = chan;
  exit_code = 0;
  owner = owner;
  next = next;
}

-- The thread 10 runs, 11 is ready, 12 sleeps on the channel 5, 13 waits for a child, and 1 is idle.
abbrev pub threads : ℕ → Thread
threads u =
    if u == 10
    then thread 1 running 0 20 0
    else if u == 11
    then thread 2 ready 0 21 0
    else if u == 12
    then thread 3 waiting 5 22 0
    else if u == 13
    then thread 4 blocked 0 23 0
    else if u == 1
    then thread 0 running 0 0 0
    else thread 9 dead 0 0 0

abbrev pub cpus : ℕ → Cpu
cpus c = record {
  current_thread = if c == 0 then 10 else 0;
  ready_queue_head = if c == 0 then 11 else 0;
  ready_queue_tail = if c == 0 then 11 else 0;
  idle_thread = 1;
  fpu_owner_thread = 0;
  rsp0 = 0;
  kernel_stack_top = 0;
  cr3 = 0;
  task_switched = false;
}

abbrev process : ℕ → ℕ → ℕ → Process
process pid ppid main = record {
  pid = pid;
  ppid = ppid;
  state = active;
  main_thread = main;
  exit_code = 0;
  cr3 = 0x5000;
}

abbrev pub processes : ℕ → Process
processes p =
    if p == 20
    then process 1 4 10
    else if p == 21
    then process 2 4 11
    else if p == 22
    then process 3 4 12
    else if p == 23
    then process 4 0 13
    else process 0 0 0

abbrev pub machine : Machine
machine = record {
  threads = threads;
  cpus = cpus;
  installed = λ c. c == 0;
  processes = processes;
  process_list = 23 ∷ 22 ∷ 21 ∷ 20 ∷ [];
  flushed = [];
  closed = [];
}

abbrev pub admitted : ℕ → Bool
admitted u = (u == 10) || (u == 11) || (u == 12) || (u == 13)

abbrev pub queues : ℕ → List ℕ
queues c = if c == 0 then 11 ∷ [] else []

machine-Holds : (c : ℕ) → Holds machine c (queues c)
machine-Holds c = elim (Bool-cases (c == 0)) [
  | inl e ↦ rw e ((refl, (λ z. omega (arith, z)), refl), refl, (refl, tt))
  | inr ne ↦ rw ne (refl, refl, tt)
]

machine-IsValid : IsValid admitted machine queues
unfolding get_cpu_data_block
machine-IsValid = record {
  holds = machine-Holds;
  homed = λ c u h. ground arith;
  queued = λ u a h. ground arith;
  runs = λ u a h n. ground arith;
  placed = λ u a. ground arith;
  currents = λ c n. ground arith;
  idles = λ c i. ground arith;
  real = refl;
  members = λ p h n. ground arith;
}

-- The thread 11 takes over, and 10 queues again.
switched : Machine
switched = (task_switch 0 0x1234 machine).1

task_switch-Switched_example :
    Switched admitted machine 0 0x1234 (queues_of machine 0 queues) (task_switch 0 0x1234 machine)
task_switch-Switched_example = task_switch-Switched machine-IsValid 0 0x1234 refl

switched_test :
    ((switched.cpus 0).current_thread ≡ 11)
    × ((switched.cpus 0).ready_queue_head ≡ 10)
    × ((switched.threads 10).state ≡ ready)
    × ((switched.threads 10).context_frame ≡ 0x1234)
unfolding switched task_switch suspend choose dispatch enqueue_thread dequeue_thread
switched_test = (refl, refl, refl, refl)

ticks-reach_example : ((ticks 0 (7 ∷ []) machine).cpus 0).current_thread ≡ 11
ticks-reach_example = ticks-reach 0 0 11 (7 ∷ []) machine queues machine-IsValid refl refl refl

-- The sleeper joins the queue behind the ready thread.
wakeup_test : ((wakeup 5 machine).threads 11).next ≡ 12
unfolding wakeup wakeup_each wake enqueue_thread get_cpu_data_block
wakeup_test = refl

next_live-first_example :
    (m' : Machine) × (next_live 2 0 11 machine ≡ some (first_live 11 machine (11 ∷ []), m'))
next_live-first_example = next_live-first 2 0 11 machine (11 ∷ []) (machine-Holds 0) (omega arith)

-- The sleeper on a channel of the files joins the queue behind the ready thread, and then the blocked parent.
exit_test :
    (first (exit_queues 10 (5 ∷ []) 3 machine queues 0) ≡ 11)
    × (has 12 (exit_queues 10 (5 ∷ []) 3 machine queues 0) ≡ true)
    × (has 13 (exit_queues 10 (5 ∷ []) 3 machine queues 0) ≡ true)
unfolding parent woken_channels woken_all wake enqueue_thread get_cpu_data_block
exit_test = (refl, refl, refl)

-- A change of threads, and a wakeup.
reached : Reach admitted machine (wakeup 5 (task_switch 0 0x1234 machine).1)
reached = Reach.next (Reach.next Reach.here (Step.tick 0 0x1234 refl)) (Step.signal 5)

Reach-Orderly_example :
    Orderly admitted (wakeup 5 (task_switch 0 0x1234 machine).1)
    × ((c d : ℕ)
        → ((wakeup 5 (task_switch 0 0x1234 machine).1).cpus c).current_thread ≢ 0
        → ((wakeup 5 (task_switch 0 0x1234 machine).1).cpus c).current_thread
          ≡ ((wakeup 5 (task_switch 0 0x1234 machine).1).cpus d).current_thread
        → c ≡ d)
Reach-Orderly_example = Reach-Orderly (queues, machine-IsValid) reached

Step-sleeper_example :
    (qs : ℕ → List ℕ) × IsValid admitted (wakeup 5 machine) qs
    × ((sleeps 5 12 (wakeup 5 machine) ≡ true)
        ⊎ ((◌≡◌ {A = ℕ} 5 5)
            × ((has 12 (qs ((wakeup 5 machine).threads 12).cpu_id) ≡ true)
                ⊎ (((wakeup 5 machine).cpus ((wakeup 5 machine).threads 12).cpu_id).current_thread
                    ≡ 12))))
Step-sleeper_example =
    Step-sleeper (queues, machine-IsValid) (Step.signal 5) 5 12 refl (omega arith) refl
