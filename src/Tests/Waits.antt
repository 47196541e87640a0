-- ===== src/Tests/Waits.antt =====
-- Waits for children at concrete states.
use sirius_education.Common.{
  [], ℕ, ◌≡◌, ◌≢◌, ◌⊎◌, inl, inr, refl, true, false, none, some, List, has, ◌==◌, ◌||◌, ◌%◌, ◌*◌,
  Bool-cases, ==_iff, arith, if◌then◌else◌,
}
use Prim.{tt}
use sirius_education.Sched.{
  running, blocked, zombie, Thread, Cpu, Machine, update, get_cpu_data_block,
}
use sirius_education.Sched.Queue.{Holds}
use sirius_education.Sched.Exit.Ended.{scheduler_exit-Exited}
use sirius_education.Sched.Valid.{IsValid}
use sirius_education.Sched.Waitpid.{
  is_zombie, collected, no_child, must_wait, scan, waitpid_check, waitpid_block,
}
use sirius_education.Sched.Waitpid.Answers.{
  Child, taken, waitpid_check-Again, waitpid_check-Answers,
}
use sirius_education.Sched.Waitpid.Lost.{waitpid_block-Lost}
use sirius_education.Tests.Sched.{thread, threads, cpus, processes, machine, admitted, queues}

-- The thread 10 of the process 20 runs on the processor 0, its parent's thread 13 on the processor 1.
abbrev two_threads : ℕ → Thread
two_threads u =
    if u == 13
    then record (thread 4 running 0 23 0) { cpu_id = 1 }
    else if u == 2
    then record (thread 0 running 0 0 0) { cpu_id = 1 }
    else threads u

abbrev two_cpus : ℕ → Cpu
two_cpus c = if c == 1 then record (cpus 1) { current_thread = 13; idle_thread = 2 } else cpus c

abbrev two : Machine
two = record machine {
  threads = two_threads;
  cpus = two_cpus;
  installed = λ c. (c == 0) || (c == 1);
}

two-Holds : (c : ℕ) → Holds two c (queues c)
two-Holds c = elim (Bool-cases (c == 0)) [
  | inl e ↦ rw ((==_iff c 0).0 e) ((refl, (λ z. omega (arith, z)), refl), refl, (refl, tt))
  | inr ne ↦ elim (Bool-cases (c == 1)) [
    | inl e ↦ rw ((==_iff c 1).0 e) (refl, refl, tt)
    | inr ne1 ↦ rw (ne, ne1) (refl, refl, tt)
  ]
]

two-IsValid : IsValid admitted two queues
unfolding get_cpu_data_block
two-IsValid = record {
  holds = two-Holds;
  homed = λ c u h. ground arith;
  queued = λ u a h. ground arith;
  runs = λ u a h n. ground arith;
  placed = λ u a. ground arith;
  currents = λ c n. ground arith;
  idles = λ c i. ground arith;
  real = refl;
  members = λ p h n. ground arith;
}

-- The process 22, the child 3 of the process 4, has ended with the code 7.
abbrev mourned : Machine
mourned = record two {
  processes = update processes 22 (record (processes 22) { state = zombie; exit_code = 7 });
}

collects : waitpid_check 1 none mourned ≡ (collected 3 1792, taken 1 none mourned 22)
unfolding waitpid_check scan
collects = refl

waits : waitpid_check 1 none two ≡ (must_wait, two)
unfolding waitpid_check scan
waits = refl

-- After the child 3, asked for by its number, is collected, the wait does not fail but sleeps.
waits_again : (waitpid_check 1 (some 3) (taken 1 none mourned 22)).0 ≡ must_wait
unfolding waitpid_check scan
waits_again = refl

waitpid_check-Again_example : (waitpid_check 1 none (taken 1 none mourned 22)).0 ≢ no_child
waitpid_check-Again_example =
    waitpid_check-Again 1 none mourned 3 1792 (taken 1 none mourned 22) collects

waitpid_check-Answers_example :
    ((z : ℕ) × (is_zombie (mourned.processes z).state ≡ true)
      × (Child 1 none mourned z)
      × (waitpid_check 1 none mourned ≡ (
        collected (mourned.processes z).pid ((mourned.processes z).exit_code % 256 * 256),
        taken 1 none mourned z,
      )))
    ⊎ (((q : ℕ) → Child 1 none mourned q → ⊥)
        × (waitpid_check 1 none mourned ≡ (no_child, mourned)))
    ⊎ ((q : ℕ) × Child 1 none mourned q
        × ((p : ℕ) → Child 1 none mourned p → is_zombie (mourned.processes p).state ≡ false)
        × (waitpid_check 1 none mourned ≡ (must_wait, mourned)))
waitpid_check-Answers_example = waitpid_check-Answers 1 none mourned (omega arith) refl

-- The process 20 ends with the code 7 after its parent has looked for a zombie.
abbrev after : Machine
after = (scheduler_exit-Exited two-IsValid 0 [] 7 refl refl (omega arith) 0 (omega arith)).0

waitpid_block-Lost_example :
    (qs : ℕ → List ℕ) × IsValid admitted (waitpid_block 1 after) qs
    × (((waitpid_block 1 after).processes 20).state ≡ zombie)
    × (((waitpid_block 1 after).threads 13).state ≡ blocked)
    × ((p : ℕ) → has 13 (qs p) ≡ false)
waitpid_block-Lost_example =
    waitpid_block-Lost two-IsValid 1 0 none (omega arith) refl refl (omega arith) (omega arith) refl
      (omega arith) (omega arith) (omega arith) [] 7 0 two after waits
      (scheduler_exit-Exited two-IsValid 0 [] 7 refl refl (omega arith) 0 (omega arith)).1
