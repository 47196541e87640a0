-- ===== src/Sched/Valid.antt =====
-- What holds of the threads and the queues between two operations.
pub mod Moves
pub mod Turned
pub mod Switch
use sirius_education.Common.{has, ℕ, ◌≡◌, ◌≢◌, Bool, true, false, some, List}
use sirius_education.Sched.{ready, running, Machine, get_cpu_data_block}
use sirius_education.Sched.Queue.{Holds}

-- `admitted` tells the threads that the scheduler has been given; `queues` are the threads of each
-- processor's queue.
pub record IsValid (admitted : ℕ → Bool) (m : Machine) (queues : ℕ → List ℕ) : Type 0 where
  pub holds : (c : ℕ) → Holds m c (queues c)
  -- A queue holds admitted threads of its own processor that are ready.
  pub homed :
      (c t : ℕ)
      → has t (queues c) ≡ true
      → ((m.threads t).state ≡ ready) × ((m.threads t).cpu_id ≡ c) × (admitted t ≡ true)
  -- A ready thread is in the queue of its processor.
  pub queued :
      (t : ℕ)
      → admitted t ≡ true
      → (m.threads t).state ≡ ready
      → has t (queues (m.threads t).cpu_id) ≡ true
  -- A running thread that is not idle is the current one of its processor.
  pub runs :
      (t : ℕ)
      → admitted t ≡ true
      → (m.threads t).state ≡ running
      → (m.threads t).tid ≢ 0
      → (m.cpus (m.threads t).cpu_id).current_thread ≡ t
  pub placed :
      (t : ℕ)
      → admitted t ≡ true
      → get_cpu_data_block m (m.threads t).cpu_id ≡ some (m.threads t).cpu_id
  pub currents :
      (c : ℕ)
      → (m.cpus c).current_thread ≢ 0
      → ((m.threads (m.cpus c).current_thread).cpu_id ≡ c)
        × ((m.threads (m.cpus c).current_thread).tid ≢ 0
            → admitted (m.cpus c).current_thread ≡ true)
  pub idles :
      (c : ℕ)
      → m.installed c ≡ true
      → ((m.cpus c).idle_thread ≢ 0)
        × ((m.threads (m.cpus c).idle_thread).cpu_id ≡ c)
        × ((m.threads (m.cpus c).idle_thread).tid ≡ 0)
  pub real : admitted 0 ≡ false
  pub members :
      (p : ℕ)
      → has p m.process_list ≡ true
      → (m.processes p).main_thread ≢ 0
      → admitted (m.processes p).main_thread ≡ true
