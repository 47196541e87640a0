-- ===== src/Sched/Exit/Ended.antt =====
-- The end of a running thread as a whole.
use mathlib.Core.Path.{subst}
use sirius_education.Common.{
  has, ℕ, suc, ◌≡◌, ◌≢◌, refl, sym, ap, ◌∙◌, Bool, true, false, some, inl, inr, ◌⊎◌, List, ◌==◌,
  ==_iff, ==-refl, ne→==, Bool-cases, arith, if◌then◌else◌,
}
use sirius_education.Sched.{
  ThreadState, ready, running, waiting, dead, zombie, Process, Machine, update, dequeue_thread,
}
use sirius_education.Sched.Tasks.{next_live, retire, leave, scheduler_exit}
use sirius_education.Sched.Queue.{dequeue_thread-QueuesAlone, dequeue_thread-first, first, rest}
use sirius_education.Sched.Valid.{IsValid}
use sirius_education.Sched.Valid.Moves.{not_elsewhere}
use sirius_education.Sched.Valid.Turned.{Turned, turned-IsValid, first_home}
use sirius_education.Sched.Turns.{upcoming}
use sirius_education.Sched.Valid.Switch.{first-empty}
use sirius_education.Sched.Wake.{mains, sleeps}
use sirius_education.Sched.Exit.{stuck, leave-Turned}
use sirius_education.Sched.Exit.Retired.{
  leave-kept, some_inj, exit_queues, parent_thread, retire-parent, retire-woken, retire-IsValid,
  retire-threads, retire-others, retire-process, retire-process_code, retire-cpus,
}

abbrev pub Picked : ℕ → ℕ → Machine → Type 0
Picked c u m' = ((m'.threads u).state ≡ ready) ⊎ ((m'.cpus c).current_thread ≡ u)

-- The outcome `m'` of the end of the thread `cur` on the processor `c`, `queues` being those when the
-- parent has been looked for.
pub record Exited (S : ℕ → Bool) (m : Machine) (c : ℕ) (wakes : List ℕ) (code : ℕ)
    (queues : ℕ → List ℕ) (m' : Machine) : Type 0 where
  pub valid : IsValid S m' (update queues c (rest (queues c)))
  pub current : (m'.cpus c).current_thread ≡ upcoming m c (queues c)
  pub ended_state : (m'.threads (m.cpus c).current_thread).state ≡ dead
  pub ended_code : (m'.threads (m.cpus c).current_thread).exit_code ≡ code
  pub process_state :
      (m.threads (m.cpus c).current_thread).owner ≢ 0
      → ((m'.processes (m.threads (m.cpus c).current_thread).owner).state ≡ zombie)
        × ((m'.processes (m.threads (m.cpus c).current_thread).owner).exit_code ≡ code)
  -- The blocked main thread of the parent, and the main threads of listed processes that sleep on a channel
  -- of `wakes`, wait for a processor, or one of them has got this one.
  pub parent_ready :
      (m.threads (m.cpus c).current_thread).owner ≢ 0
      → stuck (parent_thread (m.cpus c).current_thread m) m ≡ true
      → Picked c (parent_thread (m.cpus c).current_thread m) m'
  pub woken :
      (m.threads (m.cpus c).current_thread).owner ≢ 0
      → (chan u : ℕ) → chan ≢ 0
      → has chan wakes ≡ true
      → has u (mains m m.process_list) ≡ true
      → sleeps chan u m ≡ true
      → Picked c u m'
  pub elsewhere : (d : ℕ) → d ≢ c → (m'.cpus d).current_thread ≡ (m.cpus d).current_thread
  pub stale : (m'.cpus c).rsp0 ≡ (m.cpus c).rsp0

module _ {S : ℕ → Bool} {m : Machine} {qs : ℕ → List ℕ} (v : IsValid S m qs) (c : ℕ)
    (wakes : List ℕ) (code : ℕ) (up : m.installed c ≡ true) where
  abbrev going : ℕ
  going = (m.cpus c).current_thread

  abbrev retired : Machine
  retired = retire going wakes code m

  abbrev lined : ℕ → List ℕ
  lined = exit_queues going wakes code m qs

  abbrev popped : Machine
  popped = (dequeue_thread (some c) retired).1

  module _ (run : (m.threads going).state ≡ running) (nz : going ≢ 0) where
    abbrev r : IsValid S retired lined
    r = retire-IsValid v going wakes code run nz

    -- The queue holds ready threads only, so its first one is taken at once.
    next_live-retired : (f : ℕ) → next_live (suc f) c going retired ≡ some (first (lined c), popped)
    unfolding next_live
    next_live-retired f =
        rw (dequeue_thread-first c retired (lined c) (r.holds c))
          (elim (Bool-cases (first (lined c) == 0)) [
            | inl z ↦
                rw z (ap (λ (t : ℕ). some (t, popped)) (sym ((==_iff (first (lined c)) 0).0 z)))
            | inr o ↦ rw o (
                ground (
                  arith,
                  r.homed c (first (lined c)),
                  first_home r c,
                  retire-threads v going wakes code run nz going,
                  (dequeue_thread-QueuesAlone c retired).0 (first (lined c)),
                ))
          ])

    scheduler_exit-eq :
        (f : ℕ)
        → scheduler_exit (suc f) c wakes code m ≡ some (leave c going (first (lined c)) popped)
    unfolding scheduler_exit
    scheduler_exit-eq f = rw (next_live-retired f, scheduler_exit) refl

    abbrev next : ℕ
    next = upcoming m c (lined c)

    idle_same : (popped.cpus c).idle_thread ≡ (m.cpus c).idle_thread
    idle_same =
        ((dequeue_thread-QueuesAlone c retired).1 c).idle_thread
        ∙ (retire-cpus v going wakes code run nz c).1

    turned : Turned c next popped (leave c going (first (lined c)) popped)
    turned =
        subst
          (λ (i : ℕ).
            Turned c (if first (lined c) == 0 then i else first (lined c)) popped
              (leave c going (first (lined c)) popped))
          idle_same (leave-Turned c going (first (lined c)) popped)

    idle_here :
        ((m.cpus c).idle_thread ≢ 0)
        × ((retired.threads (m.cpus c).idle_thread).cpu_id ≡ c)
        × ((retired.threads (m.cpus c).idle_thread).tid ≡ 0)
    idle_here =
        subst
          (λ (i : ℕ). (i ≢ 0) × ((retired.threads i).cpu_id ≡ c) × ((retired.threads i).tid ≡ 0))
          (retire-cpus v going wakes code run nz c).1
          (r.idles c (ap (λ (f : ℕ → Bool). f c) (retire-cpus v going wakes code run nz c).3 ∙ up))

    front :
        (first (lined c) ≢ 0)
        → ((retired.threads (first (lined c))).cpu_id ≡ c) × (S (first (lined c)) ≡ true)
    front n = (
      (r.homed c (first (lined c)) (first_home r c n).0).1,
      (r.homed c (first (lined c)) (first_home r c n).0).2,
    )

    next-home : (retired.threads next).cpu_id ≡ c
    next-home = ground (arith, idle_here, front)

    next_from :
        (first (lined c) ≡ next) ⊎ ((first (lined c) ≡ 0) × ((d : ℕ) → has next (lined d) ≡ false))
    next_from = elim (Bool-cases (first (lined c) == 0)) [
      | inl z ↦ inr (
        (==_iff (first (lined c)) 0).0 z,
        not_elsewhere r next c next-home
            (first-empty retired c (lined c) (r.holds c) ((==_iff (first (lined c)) 0).0 z) next),
      )
      | inr o ↦ inl (ground arith)
    ]

    still :
        (u : ℕ)
        → S u ≡ true
        → (retired.threads u).state ≡ running
        → (retired.threads u).tid ≢ 0
        → (retired.threads u).cpu_id ≢ c
    still u a s n = ground (
      arith,
      r.runs u a s n,
      retire-cpus v going wakes code run nz c,
      retire-threads v going wakes code run nz u,
    )

    exit_valid :
        IsValid S (leave c going (first (lined c)) popped) (update lined c (rest (lined c)))
    exit_valid =
        turned-IsValid r c next (ground (arith, idle_here)) next-home still next_from
          (λ n. ground (arith, idle_here, front, n)) turned

    pub scheduler_exit-Exited :
        (fuel : ℕ)
        → (m.threads going).tid ≢ 0
        → (m' : Machine) × (scheduler_exit (suc fuel) c wakes code m ≡ some m')
          × Exited S m c wakes code (exit_queues going wakes code m qs) m'
    scheduler_exit-Exited fuel id = (
      leave c going (first (lined c)) popped,
      scheduler_exit-eq fuel,
      record {
        valid = exit_valid;
        current = ground (arith, turned.current c);
        ended_state = turned.states going ∙ (rw (ne→== next going apart_from) gone_state);
        ended_code =
            (leave-kept c going (first (lined c)) popped going).0
            ∙ (((dequeue_thread-QueuesAlone c retired).0 going).exit_code
                ∙ (retire-threads v going wakes code run nz going).3);
        process_state = λ o. (
          ap (λ (f : ℕ → Process). (f (m.threads going).owner).state) same_processes
              ∙ retire-process v going wakes code run nz o,
          ap (λ (f : ℕ → Process). (f (m.threads going).owner).exit_code) same_processes
              ∙ retire-process_code v going wakes code run nz o,
        );
        parent_ready =
            λ o b. picked (parent_thread going m) (retire-parent v going wakes code run nz o b);
        woken = λ o chan u cz h l a.
            picked u (retire-woken v going wakes code run nz o chan u cz h l a);
        elsewhere = λ d ne.
            turned.current d
            ∙ (rw (ne→== c d (λ e. ne (sym e))) (
                ((dequeue_thread-QueuesAlone c retired).1 d).current_thread
                ∙ (retire-cpus v going wakes code run nz d).0));
        stale =
            (leave-kept c going (first (lined c)) popped going).1
            ∙ (((dequeue_thread-QueuesAlone c retired).1 c).rsp0
                ∙ (retire-cpus v going wakes code run nz c).2);
      },
    )
      where
        gone_state : (popped.threads going).state ≡ dead
        gone_state =
            ((dequeue_thread-QueuesAlone c retired).0 going).state
            ∙ (retire-threads v going wakes code run nz going).2

        same_processes : (leave c going (first (lined c)) popped).processes ≡ retired.processes
        same_processes = turned.kept.1 ∙ (dequeue_thread-QueuesAlone c retired).3

        picked :
            (u : ℕ)
            → (retired.threads u).state ≡ ready
            → Picked c u (leave c going (first (lined c)) popped)
        picked u s = elim (Bool-cases (next == u)) [
          | inl e ↦ inr (turned.current c ∙ rw (==-refl c) ((==_iff next u).0 e))
          | inr ne ↦
              inl
                (turned.states u ∙ (rw ne (((dequeue_thread-QueuesAlone c retired).0 u).state ∙ s)))
        ]

        apart_from : next ≢ going
        apart_from e = ground (
          arith,
          e,
          id,
          v.idles c up,
          first_home r c,
          r.homed c (first (lined c)),
          retire-threads v going wakes code run nz going,
        )

    exit-threads :
        (fuel u : ℕ) (m' : Machine)
        → scheduler_exit (suc fuel) c wakes code m ≡ some m'
        → ((m'.threads u).state ≡ (if next == u then running else (retired.threads u).state))
          × ((m'.threads u).chan ≡ (retired.threads u).chan)
          × ((m'.threads u).tid ≡ (m.threads u).tid)
    exit-threads fuel u m' e = rw (sym (some_inj (sym (scheduler_exit-eq fuel) ∙ e))) (
      turned.states u
          ∙ ap (λ (s : ThreadState). if next == u then running else s)
              ((dequeue_thread-QueuesAlone c retired).0 u).state,
      turned.chans u ∙ ((dequeue_thread-QueuesAlone c retired).0 u).chan,
      turned.tids u
          ∙ (((dequeue_thread-QueuesAlone c retired).0 u).tid
              ∙ (retire-threads v going wakes code run nz u).0),
    )

    -- A thread that is not woken does not become the current one.
    passed_by : (u : ℕ) → (retired.threads u).state ≢ ready → (m.threads u).tid ≢ 0 → next ≢ u
    passed_by u nr n q =
        ground (arith, q, n, nr, v.idles c up, first_home r c, r.homed c (first (lined c)))

    -- Another thread that runs goes on running.
    pub exit-keeps :
        (fuel u : ℕ) (m' : Machine)
        → scheduler_exit (suc fuel) c wakes code m ≡ some m'
        → (m.threads u).state ≡ running
        → u ≢ going
        → (m'.threads u).state ≡ running
    exit-keeps fuel u m' e s ne = ground (
      arith,
      s,
      exit-threads fuel u m' e,
      retire-others v going wakes code run nz u ne (rw s refl),
    )

    -- A thread that sleeps goes on sleeping, or its channel is woken and it is ready or runs.
    pub exit-sleeps :
        (fuel u : ℕ) (m' : Machine)
        → scheduler_exit (suc fuel) c wakes code m ≡ some m'
        → (m.threads u).state ≡ waiting
        → (m.threads u).tid ≢ 0
        → (((m'.threads u).state ≡ waiting) × ((m'.threads u).chan ≡ (m.threads u).chan))
          ⊎ ((has (m.threads u).chan wakes ≡ true)
              × (((m'.threads u).state ≡ ready)
                  ⊎ (((m'.threads u).state ≡ running) × ((m'.threads u).tid ≢ 0))))
    exit-sleeps fuel u m' e w n =
        elim (retire-others v going wakes code run nz u (λ q. ground (arith, q, run, w))
          (rw w refl)) [
            | inl (same, chan) ↦ inl (
              (exit-threads fuel u m' e).0
                  ∙ (rw (ne→== next u (passed_by u (λ q. ground (arith, q, same, w)) n))
                      (same ∙ w)),
              (exit-threads fuel u m' e).1 ∙ chan,
            )
            | inr (_, woken, listed) ↦ inr (
              listed,
              elim (Bool-cases (next == u)) [
                | inl q ↦ inr (
                  (exit-threads fuel u m' e).0 ∙ rw q refl,
                  λ z. n (sym (exit-threads fuel u m' e).2 ∙ z),
                )
                | inr q ↦ inl ((exit-threads fuel u m' e).0 ∙ rw q woken)
              ],
            )
          ]
