-- ===== src/Sched/Waitpid/Lost.antt =====
-- A child that ends between the check of `sys_waitpid` and the change of the state.
use mathlib.Core.Path.{subst}
use sirius_education.Common.{
  ℕ, suc, ◌≡◌, ◌≢◌, refl, sym, ◌∙◌, Bool, true, false, Option, some, List, has, ==-refl, arith,
}
use sirius_education.Sched.{running, blocked, zombie, Machine, update}
use sirius_education.Sched.Tasks.{scheduler_exit}
use sirius_education.Sched.Valid.{IsValid}
use sirius_education.Sched.Valid.Moves.{out_of_queues, write-IsValid}
use sirius_education.Sched.Queue.{rest}
use sirius_education.Sched.Exit.Ended.{Exited, scheduler_exit-Exited, exit-keeps}
use sirius_education.Sched.Exit.Retired.{exit_queues, some_inj}
use sirius_education.Sched.Waitpid.{must_wait, waitpid_check, waitpid_block}
use sirius_education.Sched.Waitpid.Answers.{must_wait-keeps}

module _ {S : ℕ → Bool} {m : Machine} {qs : ℕ → List ℕ} (v : IsValid S m qs) (c d : ℕ)
    (pid : Option ℕ) where
  abbrev pub asleep : ℕ
  asleep = (m.cpus c).current_thread

  abbrev pub ending : ℕ
  ending = (m.cpus d).current_thread

  -- The threads of two processors run, neither of them idle, and the one on `d` belongs to a process. The
  -- wait on `c` finds that it has to wait, then the thread on `d` ends, then the wait goes on and blocks
  -- its thread: the queues are right, the process on `d` is a zombie, but the waiting thread is blocked and
  -- in no queue, so no wakeup is left for it.
  pub waitpid_block-Lost :
      d ≢ c
      → m.installed d ≡ true
      → (m.threads asleep).state ≡ running
      → (m.threads asleep).tid ≢ 0
      → asleep ≢ ending
      → (m.threads ending).state ≡ running
      → ending ≢ 0
      → (m.threads ending).tid ≢ 0
      → (m.threads ending).owner ≢ 0
      → (wakes : List ℕ) (code fuel : ℕ) (checked m' : Machine)
      → waitpid_check c pid m ≡ (must_wait, checked)
      → scheduler_exit (suc fuel) d wakes code checked ≡ some m'
      → (queues : ℕ → List ℕ) × IsValid S (waitpid_block c m') queues
        × (((waitpid_block c m').processes (m.threads ending).owner).state ≡ zombie)
        × (((waitpid_block c m').threads asleep).state ≡ blocked)
        × ((p : ℕ) → has asleep (queues p) ≡ false)
  unfolding waitpid_block
  waitpid_block-Lost ne up run id other run' nz id' own wakes code fuel checked m' e x = (
    queues,
    write-IsValid E.valid (m'.cpus c).current_thread
        (record (m'.threads (m'.cpus c).current_thread) { state = blocked }) (λ p. rw cur (out p))
        refl (λ a b. cc) (λ b. cc) refl,
    (E.process_state own).0,
    rw (cur, ==-refl asleep) refl,
    out,
  )
    where
      queues : ℕ → List ℕ
      queues =
          update (exit_queues ending wakes code m qs) d
            (rest (exit_queues ending wakes code m qs d))

      x1 : scheduler_exit (suc fuel) d wakes code m ≡ some m'
      x1 =
          subst (λ (k : Machine). scheduler_exit (suc fuel) d wakes code k ≡ some m')
            (sym (must_wait-keeps c pid m checked e)) x

      ended :
          (k : Machine) × (scheduler_exit (suc fuel) d wakes code m ≡ some k)
          × Exited S m d wakes code (exit_queues ending wakes code m qs) k
      ended = scheduler_exit-Exited v d wakes code up run' nz fuel id'

      E : Exited S m d wakes code (exit_queues ending wakes code m qs) m'
      E =
          subst (λ (k : Machine). Exited S m d wakes code (exit_queues ending wakes code m qs) k)
            (some_inj (sym ended.1 ∙ x1)) ended.2

      cur : (m'.cpus c).current_thread ≡ asleep
      cur = E.elsewhere c (λ q. ne (sym q))

      kept : (m'.threads asleep).state ≡ running
      kept = exit-keeps v d wakes code up run' nz fuel asleep m' x1 run other

      out : (p : ℕ) → has asleep (queues p) ≡ false
      out p = out_of_queues E.valid asleep p (λ q. ground (arith, q, kept))
