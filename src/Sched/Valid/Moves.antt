-- ===== src/Sched/Valid/Moves.antt =====
-- The parts of the operations against what holds between them.
use sirius_education.Common.{
  has, ℕ, ◌≡◌, ◌≢◌, refl, sym, Bool, true, false, some, inl, inr, List, [], ◌∷◌, ◌++◌, ◌==◌, ==_iff,
  ==-refl, ==→ne, Bool-cases, arith,
}
use sirius_education.Sched.{
  ready, running, Thread, Machine, update, write, get_cpu_data_block, enqueue_thread,
}
use sirius_education.Sched.Queue.{
  Holds, Links-agree, Links-nonzero, has-append, QueuesAlone, enqueue_thread-QueuesAlone,
  enqueue_thread-Holds, enqueue_thread-Holds_other,
}
use sirius_education.Sched.Valid.{IsValid}

module _ {S : ℕ → Bool} {m : Machine} {qs : ℕ → List ℕ} (v : IsValid S m qs) where
  pub apart : (c d u : ℕ) → d ≢ c → has u (qs d) ≡ true → has u (qs c) ≡ false
  apart c d u ne h = ground (arith, v.homed d u h, v.homed c u)

  -- A thread that is not ready is in no queue.
  pub out_of_queues : (t d : ℕ) → (m.threads t).state ≢ ready → has t (qs d) ≡ false
  out_of_queues t d ne = ground (arith, v.homed d t, ne)

  pub not_elsewhere :
      (t c : ℕ) → (m.threads t).cpu_id ≡ c → has t (qs c) ≡ false → (d : ℕ) → has t (qs d) ≡ false
  not_elsewhere t c home out d = ground (arith, v.homed d t)

  pub zero_out : (d : ℕ) → has 0 (qs d) ≡ false
  zero_out d = elim (Bool-cases (has 0 (qs d))) [
    | inl h ↦
        absurd (Links-nonzero m.threads (m.cpus d).ready_queue_head (qs d) 0 (v.holds d).0 h refl)
    | inr h ↦ h
  ]

  write-Holds :
      (t : ℕ) (th : Thread)
      → ((d : ℕ) → has t (qs d) ≡ false)
      → (d : ℕ) → Holds (write t th m) d (qs d)
  write-Holds t th out d = (
    Links-agree m.threads (write t th m).threads (m.cpus d).ready_queue_head (qs d)
        (λ u k. ground (arith, out d, k)) (v.holds d).0,
    (v.holds d).1,
    (v.holds d).2,
  )

  -- A change of a thread that is in no queue and is not ready afterwards.
  pub write-IsValid :
      (t : ℕ) (th : Thread)
      → ((d : ℕ) → has t (qs d) ≡ false)
      → th.cpu_id ≡ (m.threads t).cpu_id
      → (S t ≡ true → th.state ≢ ready)
      → (th.state ≡ running → (m.threads t).state ≡ running)
      → th.tid ≡ (m.threads t).tid
      → IsValid S (write t th m) qs
  unfolding get_cpu_data_block
  write-IsValid t th out home not_ready not_running id = record {
    holds = write-Holds t th out;
    homed = λ c u h. ground (arith, v.homed c u h, out c);
    queued = λ u a r. ground (arith, v.queued u a, not_ready);
    runs = λ u a r n. ground (arith, v.runs u a, not_running);
    placed = λ u a. ground (arith, v.placed u a);
    currents = λ c n. ground (arith, v.currents c n);
    idles = λ c i. ground (arith, v.idles c i);
    real = v.real;
    members = v.members;
  }

-- A thread that is in no queue becomes ready and joins the queue of its processor.
pub enqueue_thread-IsValid :
    {S : ℕ → Bool} {m : Machine} {qs : ℕ → List ℕ} (v : IsValid S m qs) (c t : ℕ) (th : Thread)
    → t ≢ 0
    → th.state ≡ ready
    → th.cpu_id ≡ c
    → (m.threads t).cpu_id ≡ c
    → has t (qs c) ≡ false
    → S t ≡ true
    → th.tid ≡ (m.threads t).tid
    → IsValid S (enqueue_thread (some c) t (write t th m)) (update qs c (qs c ++ t ∷ []))
unfolding get_cpu_data_block
enqueue_thread-IsValid {S} {m} {qs} v c t th nz is_r home old out adm id = record {
  holds = λ d. elim (Bool-cases (c == d)) [
    | inl e ↦
        rw e (rw (sym ((==_iff c d).0 e)) (enqueue_thread-Holds c t w (qs c) nz out (written c)))
    | inr ne ↦ rw ne (
        enqueue_thread-Holds_other c d t w (qs c) (qs d) (λ e. ==→ne c d ne (sym e)) (nowhere d)
          (written c) (λ u h. apart v c d u (λ e. ==→ne c d ne (sym e)) h) (written d))
  ];
  homed = λ d u h. ground (arith, k.0 u, v.homed d u, has-append u (qs c) t, is_r, home, old, adm);
  queued = λ u a r. ground (arith, k.0 u, v.queued u a, has-append u (qs c) t, ==-refl t);
  runs = λ u a r n. ground (arith, k.0 u, v.runs u a, k.1 (m.threads u).cpu_id);
  placed = λ u a. ground (arith, v.placed u a, k.0 u, k.2);
  currents = λ d n. ground (arith, v.currents d, k.1 d, k.0 (m.cpus d).current_thread, id);
  idles = λ d i. ground (arith, v.idles d, k.1 d, k.2, k.0 (m.cpus d).idle_thread);
  real = v.real;
  members = λ p h n. ground (arith, v.members p, k.3, k.4);
}
  where
    w : Machine
    w = write t th m

    nowhere : (d : ℕ) → has t (qs d) ≡ false
    nowhere = not_elsewhere v t c old out

    written : (d : ℕ) → Holds w d (qs d)
    written = write-Holds v t th nowhere

    k : QueuesAlone w (enqueue_thread (some c) t w)
    k = enqueue_thread-QueuesAlone c t w
