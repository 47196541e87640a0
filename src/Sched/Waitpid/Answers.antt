-- ===== src/Sched/Waitpid/Answers.antt =====
-- The answers of `sys_waitpid` before it sleeps.
use mathlib.Core.Path.{subst}
use sirius_education.Common.{
  ℕ, ◌*◌, ◌%◌, ◌≡◌, ◌≢◌, refl, ap, ◌∙◌, Bool, true, false, not, ◌&&◌, Option, none, some, inl, inr,
  ◌⊎◌, has, ◌==◌, ==→ne, ne→==, Bool-cases, arith,
}
use sirius_education.Sched.{gone, Process, Machine, set_process}
use sirius_education.Sched.Waitpid.{
  is_zombie, wanted, scan, Waited, collected, no_child, must_wait, waitpid_check,
}
use sirius_education.Sched.Waitpid.Scan.{
  caught, scan-counts, scan-found, scan-catches, scan-misses, scan-witness,
}

wanted-same :
    (pid : Option ℕ) (ppid : ℕ) (p p' : Process)
    → p'.pid ≡ p.pid
    → p'.ppid ≡ p.ppid
    → wanted pid ppid p' ≡ wanted pid ppid p
wanted-same none ppid p p' a b = ap (λ (x : ℕ). x == ppid) b
wanted-same (some n) ppid p p' a b =
    ap (λ (x : ℕ). (x == ppid) && (p'.pid == n)) b ∙ ap (λ (x : ℕ). (p.ppid == ppid) && (x == n)) a

module _ (c : ℕ) (pid : Option ℕ) (m : Machine) where
  abbrev pub parent_process : ℕ
  parent_process = (m.threads (m.cpus c).current_thread).owner

  abbrev pub seen : ℕ × Bool
  seen = scan pid (m.processes parent_process).pid m m.process_list 0 false

  abbrev pub taken : ℕ → Machine
  taken q = set_process q (record (m.processes q) { state = gone }) m

  wanted-gone :
      (q ppid : ℕ) → wanted pid ppid ((taken q).processes q) ≡ wanted pid ppid (m.processes q)
  wanted-gone q ppid =
      wanted-same pid ppid (m.processes q) ((taken q).processes q) (ground arith) (ground arith)

  same_pid : (q : ℕ) → ((taken q).processes parent_process).pid ≡ (m.processes parent_process).pid
  same_pid q = ground arith

  still_alive :
      (q : ℕ)
      → has q m.process_list ≡ true
      → wanted pid (m.processes parent_process).pid (m.processes q) ≡ true
      → (scan pid ((taken q).processes parent_process).pid (taken q) m.process_list 0 false).1
        ≡ true
  still_alive q h w = rw (same_pid q) (
      scan-counts pid (m.processes parent_process).pid (taken q) m.process_list 0 false q h
        (wanted-gone q (m.processes parent_process).pid ∙ w) (ground arith))

  again :
      (q : ℕ)
      → parent_process ≢ 0
      → has q m.process_list ≡ true
      → wanted pid (m.processes parent_process).pid (m.processes q) ≡ true
      → (waitpid_check c pid (taken q)).0 ≢ no_child
  unfolding waitpid_check
  again q o h w = ground (arith, still_alive q h w, o)

  -- After a wait that collects a child the same wait, asked again at once, never answers that there is no
  -- child: the collected process stays in the list and counts as a living child.
  pub waitpid_check-Again :
      (q status : ℕ) (m' : Machine)
      → waitpid_check c pid m ≡ (collected q status, m')
      → (waitpid_check c pid m').0 ≢ no_child
  unfolding waitpid_check
  waitpid_check-Again q status m' e = elim (Bool-cases (parent_process == 0)) [
    | inl z ↦ absurd (no_child_here z)
    | inr o ↦ elim (Bool-cases (not (seen.0 == 0) && is_zombie (m.processes seen.0).state)) [
      | inl y ↦
          subst (λ (k : Machine). (waitpid_check c pid k).0 ≢ no_child) (moved o y)
            (again seen.0 (==→ne parent_process 0 o) (listed y).0 (listed y).1)
      | inr n ↦ absurd (no_zombie_here n)
    ]
  ]
    where
      no_child_here : (parent_process == 0) ≢ true
      no_child_here z = ground (arith, e, z)

      no_zombie_here : (not (seen.0 == 0) && is_zombie (m.processes seen.0).state) ≢ false
      no_zombie_here n = ground (arith, e, n)

      moved :
          (parent_process == 0) ≡ false
          → (not (seen.0 == 0) && is_zombie (m.processes seen.0).state) ≡ true
          → taken seen.0 ≡ m'
      moved o y = ground (arith, e, o, y)

      listed :
          (not (seen.0 == 0) && is_zombie (m.processes seen.0).state) ≡ true
          → (has seen.0 m.process_list ≡ true)
            × (wanted pid (m.processes parent_process).pid (m.processes seen.0) ≡ true)
      listed y = elim (scan-found pid (m.processes parent_process).pid m m.process_list 0 false) [
        | inl z ↦ ground (arith, z, y)
        | inr h ↦ h
      ]

abbrev pub Child : ℕ → Option ℕ → Machine → ℕ → Type 0
Child c pid m q =
    (has q m.process_list ≡ true)
    × (wanted pid (m.processes (m.threads (m.cpus c).current_thread).owner).pid (m.processes q)
        ≡ true)

module _ (c : ℕ) (pid : Option ℕ) (m : Machine) where
  no_zombie :
      has 0 m.process_list ≡ false
      → caught m (seen c pid m).0 ≡ false
      → (q : ℕ) → Child c pid m q
      → is_zombie (m.processes q).state ≡ false
  no_zombie n k q h = elim (Bool-cases (is_zombie (m.processes q).state)) [
    | inl z ↦ absurd (
        ground (
          arith,
          k,
          scan-catches pid (m.processes (parent_process c pid m)).pid m m.process_list 0 false q n
              h.0 h.1 z,
        ))
    | inr z ↦ z
  ]

  -- On a list of processes without NULL, for a thread of a process: either a wanted child is a zombie, the
  -- answer is the identifier and the shifted low byte of the exit code of such a child, and only that
  -- child's state changes; or there is no wanted child, the answer is -1 and nothing changes; or there is a
  -- wanted child, none is a zombie, the thread has to wait and nothing changes.
  pub waitpid_check-Answers :
      parent_process c pid m ≢ 0
      → has 0 m.process_list ≡ false
      → ((z : ℕ) × (is_zombie (m.processes z).state ≡ true)
          × (Child c pid m z)
          × (waitpid_check c pid m ≡ (
            collected (m.processes z).pid ((m.processes z).exit_code % 256 * 256),
            taken c pid m z,
          )))
        ⊎ (((q : ℕ) → Child c pid m q → ⊥) × (waitpid_check c pid m ≡ (no_child, m)))
        ⊎ ((q : ℕ) × Child c pid m q
            × ((p : ℕ) → Child c pid m p → is_zombie (m.processes p).state ≡ false)
            × (waitpid_check c pid m ≡ (must_wait, m)))
  unfolding waitpid_check
  waitpid_check-Answers o n = elim (Bool-cases (caught m (seen c pid m).0)) [
    | inl k ↦ inl (
      (seen c pid m).0,
      ground (arith, k),
      found_child k,
      rw (ne→== (parent_process c pid m) 0 o, k) refl,
    )
    | inr k ↦ elim (Bool-cases (seen c pid m).1) [
      | inl a ↦ inr (
          inr (
            (counted a).0,
            (counted a).1,
            no_zombie n k,
            rw (ne→== (parent_process c pid m) 0 o, k, nothing k, a) refl,
          ))
      | inr a ↦ inr (
          inl (
            (λ q h. ground (arith, a, counts k q h)),
            rw (ne→== (parent_process c pid m) 0 o, k, nothing k, a) refl,
          ))
    ]
  ]
    where
      found_child : caught m (seen c pid m).0 ≡ true → Child c pid m (seen c pid m).0
      found_child k =
          elim (scan-found pid (m.processes (parent_process c pid m)).pid m m.process_list 0
            false) [ inl z ↦ ground (arith, z, k) | inr h ↦ h ]

      nothing : caught m (seen c pid m).0 ≡ false → (seen c pid m).0 ≡ 0
      nothing k =
          scan-misses pid (m.processes (parent_process c pid m)).pid m m.process_list 0 false
            (λ q h w. no_zombie n k q (h, w))

      counted : (seen c pid m).1 ≡ true → (q : ℕ) × Child c pid m q
      counted a =
          elim (scan-witness pid (m.processes (parent_process c pid m)).pid m m.process_list 0 false
            a) [ inl z ↦ absurd (ground (arith, z)) | inr h ↦ (h.0, (h.1, h.2)) ]

      counts :
          caught m (seen c pid m).0 ≡ false → (q : ℕ) → Child c pid m q → (seen c pid m).1 ≡ true
      counts k q h =
          scan-counts pid (m.processes (parent_process c pid m)).pid m m.process_list 0 false q h.0
            h.1 (no_zombie n k q h)

pub must_wait-keeps :
    (c : ℕ) (pid : Option ℕ) (m n : Machine) → waitpid_check c pid m ≡ (must_wait, n) → m ≡ n
unfolding waitpid_check
must_wait-keeps c pid m n e = elim (Bool-cases (parent_process c pid m == 0)) [
  | inl z ↦ absurd (ground (arith, e, z))
  | inr o ↦ elim (Bool-cases (caught m (seen c pid m).0)) [
    | inl y ↦ absurd (ground (arith, e, o, y))
    | inr k ↦ elim (Bool-cases (((seen c pid m).0 == 0) && not (seen c pid m).1)) [
      | inl y ↦ absurd (ground (arith, e, o, k, y))
      | inr l ↦
          ap (λ (r : Waited × Machine). r.1) (step o k l) ∙ ap (λ (r : Waited × Machine). r.1) e
    ]
  ]
]
  where
    step :
        (parent_process c pid m == 0) ≡ false
        → caught m (seen c pid m).0 ≡ false
        → (((seen c pid m).0 == 0) && not (seen c pid m).1) ≡ false
        → (must_wait, m) ≡ waitpid_check c pid m
    step o k l = rw (o, k, l) refl
