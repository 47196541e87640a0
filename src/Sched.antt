-- ===== src/Sched.antt =====
-- kernel/kernel/sched/scheduler.c, wait.c, wakeup.c: the threads, the processors and their queues.
--
-- A pointer is a number and NULL is 0: `threads` and `processes` give what stands at one, and the queue
-- of a processor is the list that the `next` pointers of its threads make from `ready_queue_head` on.
pub mod Queue
pub mod Tasks
pub mod Valid
pub mod Turns
pub mod Wake
pub mod Exit
pub mod Steps
pub mod Waitpid
use sirius_education.Common.{
  ℕ, ◌≡◌, Bool, true, false, Option, none, some, List, ◌∷◌, leb, ◌==◌, if◌then◌else◌,
}

pub data ThreadState : Type 0 where
  ready : ThreadState
  running : ThreadState
  blocked : ThreadState
  waiting : ThreadState
  dead : ThreadState

pub record Thread : Type 0 where
  pub tid : ℕ
  pub context_frame : ℕ
  pub kernel_stack_top : ℕ
  pub state : ThreadState
  pub cpu_id : ℕ
  pub chan : ℕ
  pub exit_code : ℕ
  pub owner : ℕ
  pub next : ℕ

pub data ProcessState : Type 0 where
  embryo : ProcessState
  active : ProcessState
  zombie : ProcessState
  gone : ProcessState

pub record Process : Type 0 where
  pub pid : ℕ
  pub ppid : ℕ
  pub state : ProcessState
  pub main_thread : ℕ
  pub exit_code : ℕ
  pub cr3 : ℕ

-- `cpu_data_block_t`; `cr3` and `task_switched` are the processor's registers CR3 and CR0.TS.
pub record Cpu : Type 0 where
  pub current_thread : ℕ
  pub ready_queue_head : ℕ
  pub ready_queue_tail : ℕ
  pub idle_thread : ℕ
  pub fpu_owner_thread : ℕ
  pub rsp0 : ℕ
  pub kernel_stack_top : ℕ
  pub cr3 : ℕ
  pub task_switched : Bool

-- `flushed` and `closed` list the address spaces and the processes whose pages and files have been
-- given back, the last first.
pub record Machine : Type 0 where
  pub threads : ℕ → Thread
  pub cpus : ℕ → Cpu
  pub installed : ℕ → Bool
  pub processes : ℕ → Process
  pub process_list : List ℕ
  pub flushed : List ℕ
  pub closed : List ℕ

abbrev pub update {ℓ} : {A : Type ℓ} → (ℕ → A) → ℕ → A → ℕ → A
update f i a j = if i == j then a else f j

abbrev pub write : ℕ → Thread → Machine → Machine
write p t m = record m { threads = update m.threads p t }

abbrev pub set_cpu : ℕ → Cpu → Machine → Machine
set_cpu c d m = record m { cpus = update m.cpus c d }

abbrev pub set_process : ℕ → Process → Machine → Machine
set_process p d m = record m { processes = update m.processes p d }

abbrev pub set_next : ℕ → ℕ → Machine → Machine
set_next p n m = write p (record (m.threads p) { next = n }) m

abbrev pub max_cpus : ℕ
max_cpus = 256

unfoldable pub get_cpu_data_block : Machine → ℕ → Option ℕ
get_cpu_data_block m id = if leb max_cpus id then none else if m.installed id then some id else none

-- A processor's block is named by its id; NULL is `none`.
unfoldable pub enqueue_thread : Option ℕ → ℕ → Machine → Machine
enqueue_thread none t m = m
enqueue_thread (some c) t m =
    if t == 0
    then m
    else if (m.cpus c).ready_queue_tail == 0
    then set_cpu c (record (m.cpus c) { ready_queue_head = t; ready_queue_tail = t })
        (set_next t 0 m)
    else set_cpu c (record (m.cpus c) { ready_queue_tail = t })
        (set_next (m.cpus c).ready_queue_tail t (set_next t 0 m))

unfoldable pub dequeue_thread : Option ℕ → Machine → ℕ × Machine
dequeue_thread none m = (0, m)
dequeue_thread (some c) m =
    let t = (m.cpus c).ready_queue_head in
    let second = (m.threads t).next in
    if t == 0 then (0, m) else (
      t,
      set_next t 0 (
          set_cpu c
            (record (m.cpus c) {
              ready_queue_head = second;
              ready_queue_tail = if second == 0 then 0 else (m.cpus c).ready_queue_tail;
            })
            m),
    )
