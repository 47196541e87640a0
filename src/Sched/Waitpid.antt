-- ===== src/Sched/Waitpid.antt =====
-- kernel/kernel/syscall/syscall.c: `sys_waitpid`, the wait for a child.
pub mod Scan
pub mod Answers
pub mod Lost
use mathlib.Core.Path.{subst}
use sirius_education.Common.{
  ℕ, zero, suc, ◌+◌, ◌*◌, ◌%◌, ◌≡◌, ◌≢◌, refl, sym, ap, ◌∙◌, Bool, true, false, not, ◌&&◌, ◌||◌,
  Option, none, some, inl, inr, ◌⊎◌, List, [], ◌∷◌, has, ◌==◌, ==_iff, ==-refl, ==→ne, ne→==,
  Bool-cases, arith, if◌then◌else◌,
}
use sirius_education.Sched.{
  ready, running, blocked, ProcessState, zombie, gone, Process, Machine, update, write, set_process,
}

abbrev pub is_zombie : ProcessState → Bool
is_zombie zombie = true
is_zombie _ = false

-- `pid` is `none` for -1, any child.
abbrev pub wanted : Option ℕ → ℕ → Process → Bool
wanted none ppid p = p.ppid == ppid
wanted (some pid) ppid p = (p.ppid == ppid) && (p.pid == pid)

-- The loop over the list: the last zombie seen, or NULL, and whether a child was seen that is none.
unfoldable pub scan : Option ℕ → ℕ → Machine → List ℕ → ℕ → Bool → ℕ × Bool
scan pid ppid m [] found alive = (found, alive)
scan pid ppid m (p ∷ ps) found alive =
    let is_child = wanted pid ppid (m.processes p) in
    let dead_one = is_zombie (m.processes p).state in
    scan pid ppid m ps (if is_child && dead_one then p else found)
      (if is_child && not dead_one then true else alive)

pub data Waited : Type 0 where
  collected : (pid status : ℕ) → Waited
  no_child : Waited
  must_wait : Waited

-- One turn of the loop of `sys_waitpid`, up to the change of the thread's state. The status is
-- `(status_final & 0xFF) << 8`.
unfoldable pub waitpid_check : ℕ → Option ℕ → Machine → Waited × Machine
waitpid_check c pid m =
    let own = (m.threads (m.cpus c).current_thread).owner in
    let seen = scan pid (m.processes own).pid m m.process_list 0 false in
    let child = m.processes seen.0 in
    if own == 0
    then (no_child, m)
    else if not (seen.0 == 0) && is_zombie child.state
    then (
      collected child.pid (child.exit_code % 256 * 256),
      set_process seen.0 (record child { state = gone }) m,
    )
    else if (seen.0 == 0) && not seen.1
    then (no_child, m)
    else (must_wait, m)

-- `current_thread->state = THREAD_BLOCKED`, after which it calls `schedule`.
unfoldable pub waitpid_block : ℕ → Machine → Machine
waitpid_block c m =
    let cur = (m.cpus c).current_thread in write cur (record (m.threads cur) { state = blocked }) m
