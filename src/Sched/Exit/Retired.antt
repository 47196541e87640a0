-- ===== src/Sched/Exit/Retired.antt =====
-- The first half of `scheduler_exit`: the thread dies and its parent queues again.
use sirius_education.Common.{
  has, ℕ, ◌≡◌, ◌≢◌, refl, sym, ap, ◌∙◌, Bool, true, false, some, inl, inr, List, [], ◌∷◌, ◌++◌,
  ◌==◌, ==-refl, ne→==, Bool-cases, arith, if◌then◌else◌,
}
use sirius_education.Sched.{
  ready, running, dead, zombie, Process, Machine, update, write, set_process, get_cpu_data_block,
}
use sirius_education.Sched.Tasks.{is_blocked, wakeups, retire, leave}
use sirius_education.Sched.Valid.{IsValid}
use sirius_education.Sched.Valid.Moves.{out_of_queues, write-IsValid}
use sirius_education.Sched.Wake.{mains, sleeps}
use sirius_education.Sched.Exit.Closed.{
  Roused, Stirred, wakeups-Roused, wakeups-ready, woken_channels, wakeups-IsValid,
}
use sirius_education.Sched.Exit.{
  parent, stuck, unblock, unblocked_queues, notify_parent-eq, unblock-IsValid, unblock-threads,
  unblock-cpus,
}

pub leave-kept :
    (c cur t : ℕ) (m : Machine) (u : ℕ)
    → (((leave c cur t m).threads u).exit_code ≡ (m.threads u).exit_code)
      × (((leave c cur t m).cpus c).rsp0 ≡ (m.cpus c).rsp0)
unfolding leave
leave-kept c cur t m u = ground arith

abbrev pub ended : ℕ → ℕ → Machine → Machine
ended cur code m = write cur (record (m.threads cur) { state = dead; exit_code = code }) m

pub some_inj : {a b : Machine} → some a ≡ some b → a ≡ b
some_inj h = cc

-- The machine when the files are closed.
abbrev pub released : ℕ → List ℕ → ℕ → Machine → Machine
released cur wakes code m = wakeups wakes (ended cur code m)

-- The machine before the parent is looked for.
abbrev pub buried : ℕ → List ℕ → ℕ → Machine → Machine
buried cur wakes code m =
    let own = (m.threads cur).owner in
    record (set_process own (record (m.processes own) { exit_code = code; state = zombie })
      (released cur wakes code m)) {
        flushed = (m.processes own).cr3 ∷ m.flushed;
        closed = own ∷ m.closed;
      }

-- The main thread of the parent.
abbrev pub parent_thread : ℕ → Machine → ℕ
parent_thread cur m = parent (m.processes (m.threads cur).owner).ppid m.process_list m

-- The queues when the parent has been looked for.
abbrev pub exit_queues : ℕ → List ℕ → ℕ → Machine → (ℕ → List ℕ) → ℕ → List ℕ
exit_queues cur wakes code m qs =
    if (m.threads cur).owner == 0
    then qs
    else unblocked_queues (parent_thread cur m) m (woken_channels wakes (ended cur code m) qs)

parent-buried :
    (cur : ℕ) (wakes : List ℕ) (code ppid : ℕ) (m : Machine) (ps : List ℕ)
    → parent ppid ps (buried cur wakes code m) ≡ parent ppid ps m
unfolding parent
parent-buried cur wakes code ppid m [] = refl
parent-buried cur wakes code ppid m (p ∷ ps) =
    ground (arith, parent-buried cur wakes code ppid m ps, same p)
  where
    same : (p : ℕ) → (released cur wakes code m).processes p ≡ m.processes p
    same p = ap (λ (f : ℕ → Process). f p) (wakeups-Roused wakes (ended cur code m)).processes

parent_admitted :
    {S : ℕ → Bool} {m : Machine} {qs : ℕ → List ℕ} (v : IsValid S m qs) (ppid : ℕ) (ps : List ℕ)
    → ((p : ℕ) → has p ps ≡ true → has p m.process_list ≡ true)
    → parent ppid ps m ≢ 0
    → S (parent ppid ps m) ≡ true
unfolding parent
parent_admitted v ppid [] sub n = absurd (n refl)
parent_admitted {S} {m} v ppid (p ∷ ps) sub n = elim (Bool-cases ((m.processes p).pid == ppid)) [
  | inl e ↦ rw e (v.members p (sub p (ground (arith, ==-refl p))) (λ z. n (rw e z)))
  | inr ne ↦ rw ne (parent_admitted v ppid ps (λ q k. sub q (ground arith)) (λ z. n (rw ne z)))
]

module _ {S : ℕ → Bool} {m : Machine} {qs : ℕ → List ℕ} (v : IsValid S m qs) (cur : ℕ)
    (wakes : List ℕ) (code : ℕ) (run : (m.threads cur).state ≡ running) where
  ended-IsValid : IsValid S (ended cur code m) qs
  ended-IsValid =
      write-IsValid v cur (record (m.threads cur) { state = dead; exit_code = code })
        (λ d. out_of_queues v cur d (ground arith)) refl (λ a e. cc) (λ e. cc) refl

  roused : Roused wakes (ended cur code m) (released cur wakes code m)
  roused = wakeups-Roused wakes (ended cur code m)

  buried-IsValid : IsValid S (buried cur wakes code m) (woken_channels wakes (ended cur code m) qs)
  unfolding get_cpu_data_block
  buried-IsValid = record {
    holds = e.holds;
    homed = e.homed;
    queued = e.queued;
    runs = e.runs;
    placed = e.placed;
    currents = e.currents;
    idles = e.idles;
    real = e.real;
    members = λ p h n. ground (arith, e.members p, same (m.threads cur).owner, same p);
  }
    where
      e : IsValid S (released cur wakes code m) (woken_channels wakes (ended cur code m) qs)
      e = wakeups-IsValid wakes (ended cur code m) qs ended-IsValid

      same : (p : ℕ) → (released cur wakes code m).processes p ≡ m.processes p
      same p = ap (λ (f : ℕ → Process). f p) roused.processes

  -- The ending thread is not the one that waits.
  stuck-buried : (t : ℕ) → stuck t (buried cur wakes code m) ≡ stuck t m
  stuck-buried t = ground (arith, roused.stirred t)

  home : (t : ℕ) → ((buried cur wakes code m).threads t).cpu_id ≡ (m.threads t).cpu_id
  home t = ground (arith, roused.home t)

  queues-buried :
      (t : ℕ)
      → unblocked_queues t (buried cur wakes code m) (woken_channels wakes (ended cur code m) qs)
        ≡ unblocked_queues t m (woken_channels wakes (ended cur code m) qs)
  queues-buried t = elim (Bool-cases (stuck t m)) [
    | inl on ↦
        rw (stuck-buried t) (rw on (ap (λ (h : ℕ). update woken h (woken h ++ t ∷ [])) (home t)))
    | inr off ↦ rw (stuck-buried t) (rw off refl)
  ]
    where
      woken : ℕ → List ℕ
      woken = woken_channels wakes (ended cur code m) qs

  retire-eq :
      cur ≢ 0
      → retire cur wakes code m ≡ (
          if (m.threads cur).owner == 0
          then ended cur code m
          else unblock (parent_thread cur m) (buried cur wakes code m))
  unfolding retire
  retire-eq nz = rw (ne→== cur 0 nz) (elim (Bool-cases ((m.threads cur).owner == 0)) [
    | inl z ↦ rw z refl
    | inr o ↦ rw o (
        notify_parent-eq (m.processes (m.threads cur).owner).ppid m.process_list
          (buried cur wakes code m)
        ∙ ap (λ (t : ℕ). unblock t (buried cur wakes code m))
            (parent-buried cur wakes code (m.processes (m.threads cur).owner).ppid m
              m.process_list))
  ])

  pub retire-IsValid :
      cur ≢ 0 → IsValid S (retire cur wakes code m) (exit_queues cur wakes code m qs)
  retire-IsValid nz = rw (retire-eq nz) (elim (Bool-cases ((m.threads cur).owner == 0)) [
    | inl z ↦ rw z ended-IsValid
    | inr o ↦ rw o (
        rw (sym (queues-buried (parent_thread cur m))) (
          unblock-IsValid buried-IsValid (parent_thread cur m)
            (parent_admitted v (m.processes (m.threads cur).owner).ppid m.process_list (λ p h. h))))
  ])

  -- What the end leaves of the other threads and of the processors.
  pub retire-threads :
      cur ≢ 0
      → (u : ℕ)
      → (((retire cur wakes code m).threads u).tid ≡ (m.threads u).tid)
        × (((retire cur wakes code m).threads u).cpu_id ≡ (m.threads u).cpu_id)
        × (((retire cur wakes code m).threads cur).state ≡ dead)
        × (((retire cur wakes code m).threads cur).exit_code ≡ code)
  retire-threads nz u = rw (retire-eq nz) (elim (Bool-cases ((m.threads cur).owner == 0)) [
    | inl z ↦ rw z (ground arith)
    | inr o ↦ rw o (
        ground (
          arith,
          unblock-threads (parent_thread cur m) (buried cur wakes code m) u,
          unblock-threads (parent_thread cur m) (buried cur wakes code m) cur,
          roused.tid u,
          roused.home u,
          roused.exit_code cur,
          roused.stirred cur,
        ))
  ])

  -- A thread that neither ends nor is blocked keeps its state and its channel, or is woken.
  pub retire-others :
      cur ≢ 0
      → (u : ℕ) → u ≢ cur
      → is_blocked (m.threads u).state ≡ false
      → Stirred wakes
          (m.threads u).state
          (m.threads u).chan
          ((retire cur wakes code m).threads u).state
          ((retire cur wakes code m).threads u).chan
  retire-others nz u ne nb = rw (retire-eq nz) (elim (Bool-cases ((m.threads cur).owner == 0)) [
    | inl z ↦ rw z (inl (ground arith, ground arith))
    | inr o ↦ rw o (stirred_alone (rw (ne→== cur u (λ e. ne (sym e))) at (roused.stirred u)))
  ])
    where
      later : Machine
      later = unblock (parent_thread cur m) (buried cur wakes code m)

      stirred_alone :
          Stirred wakes
            (m.threads u).state
            (m.threads u).chan
            ((released cur wakes code m).threads u).state
            ((released cur wakes code m).threads u).chan
          → Stirred wakes
              (m.threads u).state
              (m.threads u).chan
              (later.threads u).state
              (later.threads u).chan
      stirred_alone (inl (a, b)) = inl (
        ground (arith, unblock-threads (parent_thread cur m) (buried cur wakes code m) u, a, nb),
        (unblock-threads (parent_thread cur m) (buried cur wakes code m) u).4 ∙ b,
      )
      stirred_alone (inr (w, s, h)) = inr (
        w,
        ground (arith, unblock-threads (parent_thread cur m) (buried cur wakes code m) u, s),
        h,
      )

  -- The blocked main thread of the parent, and a sleeper on a channel of the closed files, are ready.
  pub retire-parent :
      cur ≢ 0
      → (m.threads cur).owner ≢ 0
      → stuck (parent_thread cur m) m ≡ true
      → ((retire cur wakes code m).threads (parent_thread cur m)).state ≡ ready
  retire-parent nz o b = rw (retire-eq nz) (
      rw (ne→== (m.threads cur).owner 0 o) (
        ground (
          arith,
          unblock-threads (parent_thread cur m) (buried cur wakes code m) (parent_thread cur m),
          stuck-buried (parent_thread cur m),
          b,
          ==-refl (parent_thread cur m),
        )))

  pub retire-woken :
      cur ≢ 0
      → (m.threads cur).owner ≢ 0
      → (chan u : ℕ) → chan ≢ 0
      → has chan wakes ≡ true
      → has u (mains m m.process_list) ≡ true
      → sleeps chan u m ≡ true
      → ((retire cur wakes code m).threads u).state ≡ ready
  retire-woken nz o chan u cz h l a = rw (retire-eq nz) (
      rw (ne→== (m.threads cur).owner 0 o) (
        ground (
          arith,
          unblock-threads (parent_thread cur m) (buried cur wakes code m) u,
          wakeups-ready wakes (ended cur code m) qs chan u ended-IsValid cz h l asleep,
        )))
    where
      asleep : sleeps chan u (ended cur code m) ≡ true
      asleep = ground (arith, a, run)

  pub retire-process :
      cur ≢ 0
      → (m.threads cur).owner ≢ 0
      → ((retire cur wakes code m).processes (m.threads cur).owner).state ≡ zombie
  retire-process nz o = rw (retire-eq nz) (
      rw (ne→== (m.threads cur).owner 0 o) (
        ap (λ (f : ℕ → Process). (f (m.threads cur).owner).state)
          (unblock-cpus (parent_thread cur m) (buried cur wakes code m) 0).4
        ∙ ground arith))

  pub retire-process_code :
      cur ≢ 0
      → (m.threads cur).owner ≢ 0
      → ((retire cur wakes code m).processes (m.threads cur).owner).exit_code ≡ code
  retire-process_code nz o = rw (retire-eq nz) (
      rw (ne→== (m.threads cur).owner 0 o) (
        ap (λ (f : ℕ → Process). (f (m.threads cur).owner).exit_code)
          (unblock-cpus (parent_thread cur m) (buried cur wakes code m) 0).4
        ∙ ground arith))

  pub retire-cpus :
      cur ≢ 0
      → (d : ℕ)
      → (((retire cur wakes code m).cpus d).current_thread ≡ (m.cpus d).current_thread)
        × (((retire cur wakes code m).cpus d).idle_thread ≡ (m.cpus d).idle_thread)
        × (((retire cur wakes code m).cpus d).rsp0 ≡ (m.cpus d).rsp0)
        × ((retire cur wakes code m).installed ≡ m.installed)
  retire-cpus nz d = rw (retire-eq nz) (elim (Bool-cases ((m.threads cur).owner == 0)) [
    | inl z ↦ rw z (refl, refl, refl, refl)
    | inr o ↦ rw o (
        ground (
          arith,
          unblock-cpus (parent_thread cur m) (buried cur wakes code m) d,
          roused.current d,
          roused.idle d,
          roused.stack d,
          roused.installed,
        ))
  ])
