-- ===== src/Sched/Tasks.antt =====
-- kernel/kernel/sched/scheduler.c, wait.c, wakeup.c: the changes of thread, sleeping and waking.
use sirius_education.Common.{
  ℕ, zero, suc, Bool, true, false, not, ◌&&◌, ◌||◌, Option, none, some, List, [], ◌∷◌, ◌==◌,
  if◌then◌else◌,
}
use sirius_education.Sched.{
  ThreadState, ready, running, blocked, waiting, dead, ProcessState, embryo, active, zombie,
  Machine, write, set_cpu, set_process, get_cpu_data_block, enqueue_thread, dequeue_thread,
}

abbrev pub is_running : ThreadState → Bool
is_running running = true
is_running _ = false

abbrev pub is_ready : ThreadState → Bool
is_ready ready = true
is_ready _ = false

abbrev pub is_waiting : ThreadState → Bool
is_waiting waiting = true
is_waiting _ = false

abbrev pub is_blocked : ThreadState → Bool
is_blocked blocked = true
is_blocked _ = false

abbrev pub is_dead : ThreadState → Bool
is_dead dead = true
is_dead _ = false

abbrev pub is_embryo : ProcessState → Bool
is_embryo embryo = true
is_embryo _ = false

-- The outgoing thread: its frame is saved, and a running one that is not the idle thread queues again.
unfoldable pub suspend : ℕ → ℕ → Machine → Machine
suspend c regs m =
    let cur = (m.cpus c).current_thread in
    let th = m.threads cur in
    if cur == 0
    then m
    else if is_running th.state && not (th.tid == 0)
    then enqueue_thread (some c) cur
        (write cur (record th { context_frame = regs; state = ready }) m)
    else write cur (record th { context_frame = regs }) m

unfoldable pub choose : ℕ → ℕ → Machine → ℕ
choose c t m =
    let cur = (m.cpus c).current_thread in
    if not (t == 0)
    then t
    else if not (cur == 0) && not ((m.threads cur).tid == 0) && is_ready (m.threads cur).state
    then cur
    else (m.cpus c).idle_thread

-- Whether the address space is changed for the thread `next`.
unfoldable pub changes_space : ℕ → ℕ → Machine → Bool
changes_space cur next m =
    let space = λ (t : ℕ). (m.processes (m.threads t).owner).cr3 in
    not ((m.threads next).owner == 0)
    && not (space next == 0)
    && ((cur == 0)
        || ((m.threads cur).tid == 0)
        || ((m.threads cur).owner == 0)
        || not (space cur == space next))

unfoldable pub dispatch : ℕ → ℕ → Machine → Machine
unfolding changes_space
dispatch c next m =
    let cpu = m.cpus c in
    let th = m.threads next in
    set_cpu c
      (record cpu {
        current_thread = next;
        cr3 =
            if changes_space cpu.current_thread next m then (m.processes th.owner).cr3 else cpu.cr3;
        rsp0 = th.kernel_stack_top;
        kernel_stack_top = th.kernel_stack_top;
        task_switched = if next == cpu.fpu_owner_thread then cpu.task_switched else true;
      })
      (write next (record th { state = running }) m)

-- The result is the frame that the processor continues from.
unfoldable pub task_switch : ℕ → ℕ → Machine → ℕ × Machine
task_switch c regs m =
    let (t, m') = dequeue_thread (some c) (suspend c regs m) in
    let next = choose c t m' in ((m'.threads next).context_frame, dispatch c next m')

-- `schedule`: the frame that it builds on the kernel stack is `frame`.
unfoldable pub schedule : ℕ → ℕ → Machine → Machine
unfolding task_switch
schedule c frame m = if (m.cpus c).current_thread == 0 then m else (task_switch c frame m).1

unfoldable pub scheduler_yield : ℕ → ℕ → Machine → Machine
unfolding schedule
scheduler_yield c frame m =
    let cur = (m.cpus c).current_thread in
    if (cur == 0) || ((m.threads cur).tid == 0) || not (is_running (m.threads cur).state)
    then m
    else schedule c frame m

-- `wait` up to its call of `schedule`: the part under `g_wait_lock`.
unfoldable pub wait_on : ℕ → ℕ → Machine → Machine
wait_on c chan m =
    let cur = (m.cpus c).current_thread in
    if chan == 0 then m else write cur (record (m.threads cur) { chan = chan; state = waiting }) m

unfoldable pub wait : ℕ → ℕ → ℕ → Machine → Machine
unfolding wait_on schedule
wait c chan frame m = if chan == 0 then m else schedule c frame (wait_on c chan m)

-- A thread that sleeps on the channel becomes ready and queues on its processor.
unfoldable pub wake : ℕ → ℕ → Machine → Machine
wake chan t m =
    let th = m.threads t in
    if not (t == 0) && (is_waiting th.state && (th.chan == chan))
    then enqueue_thread (get_cpu_data_block m th.cpu_id) t
        (write t (record th { chan = 0; state = ready }) m)
    else m

unfoldable pub wakeup_thread : ℕ → ℕ → Machine → Machine
unfolding wake
wakeup_thread chan t m = if (chan == 0) || (t == 0) then m else wake chan t m

unfoldable pub wakeup_each : ℕ → List ℕ → Machine → Machine
wakeup_each chan [] m = m
wakeup_each chan (p ∷ ps) m = wakeup_each chan ps (wake chan (m.processes p).main_thread m)

unfoldable pub wakeup : ℕ → Machine → Machine
wakeup chan m = if chan == 0 then m else wakeup_each chan m.process_list m

-- The wakeups of the channels, in their order.
unfoldable pub wakeups : List ℕ → Machine → Machine
wakeups [] m = m
wakeups (chan ∷ chans) m = wakeups chans (wakeup chan m)

-- The processor of a thread, or the current one where the id names none.
unfoldable pub home_of : ℕ → ℕ → Machine → Option ℕ
home_of c id m = elim (get_cpu_data_block m id) [ some d ↦ some d | none ↦ some c ]

unfoldable pub scheduler_ready_process : ℕ → ℕ → Machine → Machine
unfolding home_of
scheduler_ready_process c p m =
    let t = (m.processes p).main_thread in
    if (p == 0) || (t == 0)
    then m
    else enqueue_thread (home_of c (m.threads t).cpu_id m) t
        (set_process p (record (m.processes p) { state = active }) m)

unfoldable pub scheduler_ready_thread : ℕ → ℕ → Machine → Machine
unfolding home_of
scheduler_ready_thread c t m =
    let th = m.threads t in
    let queued =
      enqueue_thread (home_of c th.cpu_id m) t (write t (record th { state = ready }) m) in
    if t == 0
    then m
    else if not (th.owner == 0) && is_embryo (m.processes th.owner).state
    then set_process th.owner (record (m.processes th.owner) { state = active }) queued
    else queued

-- The parent, the first process of the list with the id, queues again if it is blocked.
unfoldable pub notify_parent : ℕ → List ℕ → Machine → Machine
notify_parent ppid [] m = m
notify_parent ppid (p ∷ ps) m =
    let t = (m.processes p).main_thread in
    let th = m.threads t in
    let rest = notify_parent ppid ps m in
    if (m.processes p).pid == ppid
    then (if not (t == 0) && is_blocked th.state
        then enqueue_thread (get_cpu_data_block m th.cpu_id) t
            (write t (record th { state = ready }) m)
        else m)
    else rest

-- The first thread of the queue that is neither the ending one nor dead; `none` means that the fuel
-- ran out, and 0 that the queue is empty.
unfoldable pub next_live : ℕ → ℕ → ℕ → Machine → Option (ℕ × Machine)
next_live zero c cur m = none
next_live (suc fuel) c cur m =
    let (t, m') = dequeue_thread (some c) m in
    let rest = next_live fuel c cur m' in
    if t == 0
    then some (0, m')
    else if (t == cur) || is_dead (m'.threads t).state
    then rest
    else some (t, m')

-- The ending thread dies; its process gives back its pages and files and becomes a zombie. `wakes` are the
-- channels that the closing of its files wakes, in their order: a socket wakes those who wait for it.
unfoldable pub retire : ℕ → List ℕ → ℕ → Machine → Machine
unfolding notify_parent
retire cur wakes code m =
    let th = m.threads cur in
    let proc = m.processes th.owner in
    let marked = write cur (record th { state = dead; exit_code = code }) m in
    if cur == 0
    then m
    else if th.owner == 0
    then marked
    else notify_parent proc.ppid m.process_list
        (record (set_process th.owner (record proc { exit_code = code; state = zombie })
          (wakeups wakes marked)) { flushed = proc.cr3 ∷ m.flushed; closed = th.owner ∷ m.closed })

-- The last part of `scheduler_exit`: it sets no stack pointer of the processor but RSP.
unfoldable pub leave : ℕ → ℕ → ℕ → Machine → Machine
leave c cur t m =
    let cpu = m.cpus c in
    let next = if t == 0 then cpu.idle_thread else t in
    let owner = (m.threads next).owner in
    let switches = not (owner == 0) && not (cur == 0) && not ((m.threads cur).owner == owner) in
    set_cpu c
      (record cpu {
        current_thread = next;
        cr3 = if switches then (m.processes owner).cr3 else cpu.cr3;
      })
      (write next (record (m.threads next) { state = running }) m)

unfoldable pub scheduler_exit : ℕ → ℕ → List ℕ → ℕ → Machine → Option Machine
scheduler_exit fuel c wakes code m =
    let cur = (m.cpus c).current_thread in
    elim (next_live fuel c cur (retire cur wakes code m)) [
      | none ↦ none
      | some (t, m') ↦ some (leave c cur t m')
    ]
