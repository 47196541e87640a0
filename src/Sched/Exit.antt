-- ===== src/Sched/Exit.antt =====
-- `scheduler_exit`: the end of a thread, its parent, and the thread that goes on.
pub mod Closed
pub mod Retired
pub mod Ended
use sirius_education.Common.{
  has, ℕ, zero, suc, ◌+◌, ◌<◌, ◌≡◌, ◌≢◌, refl, sym, ap, ◌∙◌, Bool, true, false, not, ◌&&◌, ◌||◌,
  Option, none, some, inl, inr, ◌⊎◌, List, [], ◌∷◌, ◌++◌, ◌==◌, length, ==_iff, ==-refl, ==→ne,
  ne→==, Bool-cases, Option-cases, arith, if◌then◌else◌,
}
use sirius_education.Sched.{
  ready, running, dead, zombie, Thread, Process, Machine, update, write, set_process,
  get_cpu_data_block, enqueue_thread, dequeue_thread,
}
use sirius_education.Sched.Tasks.{
  is_dead, is_blocked, notify_parent, next_live, retire, leave, scheduler_exit,
}
use sirius_education.Sched.Queue.{
  Holds, QueuesAlone, enqueue_thread-QueuesAlone, dequeue_thread-QueuesAlone, dequeue_thread-first,
  dequeue_thread-none, dequeue_thread-Holds, first, rest,
}
use sirius_education.Sched.Valid.{IsValid}
use sirius_education.Sched.Valid.Moves.{
  out_of_queues, not_elsewhere, write-IsValid, enqueue_thread-IsValid,
}
use sirius_education.Sched.Valid.Turned.{Turned, turned-IsValid, first_home}

-- The first thread of a queue that is neither `cur` nor dead, or NULL.
unfoldable pub first_live : ℕ → Machine → List ℕ → ℕ
first_live cur m [] = 0
first_live cur m (t ∷ ts) =
    if (t == cur) || is_dead (m.threads t).state then first_live cur m ts else t

first_live-agree :
    (cur : ℕ) (m m' : Machine) (q : List ℕ)
    → ((u : ℕ) → (m'.threads u).state ≡ (m.threads u).state)
    → first_live cur m' q ≡ first_live cur m q
unfolding first_live
first_live-agree cur m m' [] h = refl
first_live-agree cur m m' (t ∷ ts) h = ground (arith, h t, first_live-agree cur m m' ts h)

next_live-round :
    (f c cur : ℕ) (m : Machine) (t : ℕ) (ts : List ℕ)
    → Holds m c (t ∷ ts)
    → ((m' : Machine) × (next_live f c cur (dequeue_thread (some c) m).1
          ≡ some (first_live cur (dequeue_thread (some c) m).1 ts, m')))
    → (m' : Machine) × (next_live (suc f) c cur m ≡ some (first_live cur m (t ∷ ts), m'))
unfolding next_live first_live
next_live-round f c cur m t ts h later =
    elim (Bool-cases ((t == cur) || is_dead (m.threads t).state)) [
      | inl over ↦ (
        later.0,
        ground (arith, over, head, h.0.1, same t, later.1, first_live-agree cur m m1 ts same),
      )
      | inr live ↦ (m1, ground (arith, live, head, h.0.1, same t))
    ]
  where
    m1 : Machine
    m1 = (dequeue_thread (some c) m).1

    head : (dequeue_thread (some c) m).0 ≡ t
    head = dequeue_thread-first c m (t ∷ ts) h

    same : (u : ℕ) → (m1.threads u).state ≡ (m.threads u).state
    same u = ((dequeue_thread-QueuesAlone c m).0 u).state

-- On any linked queue, with more rounds than it has threads, the search ends, and finds the first thread
-- that is neither the ending one nor dead, or NULL where there is none.
pub next_live-first :
    (fuel c cur : ℕ) (m : Machine) (q : List ℕ)
    → Holds m c q
    → length q < fuel
    → (m' : Machine) × (next_live fuel c cur m ≡ some (first_live cur m q, m'))
next_live-first zero c cur m q h n = absurd (omega (arith, n))
next_live-first (suc f) c cur m [] h n =
    (m, unfold next_live first_live in rw (dequeue_thread-none c m h) refl)
next_live-first (suc f) c cur m (t ∷ ts) h n = next_live-round f c cur m t ts h (
    next_live-first f c cur (dequeue_thread (some c) m).1 ts (dequeue_thread-Holds c m (t ∷ ts) h)
      (omega (arith, n)))

-- The main thread of the first process of the list with the id, or NULL.
unfoldable pub parent : ℕ → List ℕ → Machine → ℕ
parent ppid [] m = 0
parent ppid (p ∷ ps) m =
    if (m.processes p).pid == ppid then (m.processes p).main_thread else parent ppid ps m

abbrev pub stuck : ℕ → Machine → Bool
stuck t m = not (t == 0) && is_blocked (m.threads t).state

abbrev pub unblock : ℕ → Machine → Machine
unblock t m =
    let th = m.threads t in
    if stuck t m
    then enqueue_thread (get_cpu_data_block m th.cpu_id) t (write t (record th { state = ready }) m)
    else m

pub notify_parent-eq :
    (ppid : ℕ) (ps : List ℕ) (m : Machine) → notify_parent ppid ps m ≡ unblock (parent ppid ps m) m
unfolding notify_parent parent
notify_parent-eq ppid [] m = refl
notify_parent-eq ppid (p ∷ ps) m = elim (Bool-cases ((m.processes p).pid == ppid)) [
  | inl e ↦ rw e refl
  | inr ne ↦ rw ne (notify_parent-eq ppid ps m)
]

abbrev pub unblocked_queues : ℕ → Machine → (ℕ → List ℕ) → ℕ → List ℕ
unblocked_queues t m qs =
    if stuck t m then update qs (m.threads t).cpu_id (qs (m.threads t).cpu_id ++ t ∷ []) else qs

pub unblock-IsValid :
    {S : ℕ → Bool} {m : Machine} {qs : ℕ → List ℕ} (v : IsValid S m qs) (t : ℕ)
    → (t ≢ 0 → S t ≡ true)
    → IsValid S (unblock t m) (unblocked_queues t m qs)
unblock-IsValid {m} v t adm = elim (Bool-cases (stuck t m)) [
  | inl on ↦ rw on (
      rw (v.placed t (adm (ground arith))) (
        enqueue_thread-IsValid v (m.threads t).cpu_id t (record (m.threads t) { state = ready })
          (ground arith) refl refl refl (out_of_queues v t (m.threads t).cpu_id (ground arith))
          (adm (ground arith)) refl))
  | inr off ↦ rw off v
]

pub unblock-threads :
    (t : ℕ) (m : Machine) (u : ℕ)
    → (((unblock t m).threads u).tid ≡ (m.threads u).tid)
      × (((unblock t m).threads u).cpu_id ≡ (m.threads u).cpu_id)
      × (((unblock t m).threads u).exit_code ≡ (m.threads u).exit_code)
      × (((unblock t m).threads u).state
          ≡ (if stuck t m && (t == u) then ready else (m.threads u).state))
      × (((unblock t m).threads u).chan ≡ (m.threads u).chan)
unfolding enqueue_thread
unblock-threads t m u = elim (Option-cases (get_cpu_data_block m (m.threads t).cpu_id)) [
  | inl e ↦ rw e (ground arith)
  | inr (c, e) ↦ rw e (ground arith)
]

pub unblock-cpus :
    (t : ℕ) (m : Machine) (d : ℕ)
    → (((unblock t m).cpus d).current_thread ≡ (m.cpus d).current_thread)
      × (((unblock t m).cpus d).idle_thread ≡ (m.cpus d).idle_thread)
      × (((unblock t m).cpus d).rsp0 ≡ (m.cpus d).rsp0)
      × ((unblock t m).installed ≡ m.installed)
      × ((unblock t m).processes ≡ m.processes)
unfolding enqueue_thread
unblock-cpus t m d = elim (Option-cases (get_cpu_data_block m (m.threads t).cpu_id)) [
  | inl e ↦ rw e (ground arith)
  | inr (c, e) ↦ rw e (ground arith)
]

pub leave-Turned :
    (c cur t : ℕ) (m : Machine)
    → Turned c (if t == 0 then (m.cpus c).idle_thread else t) m (leave c cur t m)
unfolding leave
leave-Turned c cur t m = record {
  states = λ u. ground arith;
  chans = λ u. ground arith;
  tids = λ u. ground arith;
  homes = λ u. ground arith;
  nexts = λ u. ground arith;
  current = λ d. ground arith;
  queue = λ d. ground arith;
  kept = (refl, refl, refl);
}
