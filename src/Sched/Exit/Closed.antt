-- ===== src/Sched/Exit/Closed.antt =====
-- The wakeups of `scheduler_exit`, which come from the closing of files.
use sirius_education.Common.{
  ◌≢◌, false, ==_iff, has, ℕ, ◌≡◌, refl, sym, ap, ◌∙◌, Bool, true, Option, none, some, inl, inr,
  ◌⊎◌, List, [], ◌∷◌, ◌==◌, ==→ne, ==-refl, Bool-cases, arith, if◌then◌else◌,
}
use sirius_education.Sched.{ThreadState, ready, waiting, Machine, write, enqueue_thread}
use sirius_education.Sched.Queue.{QueuesAlone, enqueue_thread-QueuesAlone}
use sirius_education.Sched.Tasks.{is_waiting, wake, wakeup_each, wakeup, wakeups}
use sirius_education.Sched.Valid.{IsValid}
use sirius_education.Sched.Wake.{sleeps, mains, mains-eq, woken_all, wakeup-Woken}

-- The state and the channel of a thread after wakeups of the channels `chans`.
abbrev pub Stirred : List ℕ → ThreadState → ℕ → ThreadState → ℕ → Type 0
Stirred chans s chan s' chan' =
    ((s' ≡ s) × (chan' ≡ chan)) ⊎ ((s ≡ waiting) × (s' ≡ ready) × (has chan chans ≡ true))

-- What wakeups of the channels `chans` change.
pub record Roused (chans : List ℕ) (m m' : Machine) : Type 0 where
  pub stirred :
      (u : ℕ)
      → Stirred chans
          (m.threads u).state
          (m.threads u).chan
          (m'.threads u).state
          (m'.threads u).chan
  pub tid : (u : ℕ) → (m'.threads u).tid ≡ (m.threads u).tid
  pub home : (u : ℕ) → (m'.threads u).cpu_id ≡ (m.threads u).cpu_id
  pub exit_code : (u : ℕ) → (m'.threads u).exit_code ≡ (m.threads u).exit_code
  pub current : (d : ℕ) → (m'.cpus d).current_thread ≡ (m.cpus d).current_thread
  pub idle : (d : ℕ) → (m'.cpus d).idle_thread ≡ (m.cpus d).idle_thread
  pub stack : (d : ℕ) → (m'.cpus d).rsp0 ≡ (m.cpus d).rsp0
  pub processes : m'.processes ≡ m.processes
  pub process_list : m'.process_list ≡ m.process_list
  pub installed : m'.installed ≡ m.installed

Roused-refl : (chans : List ℕ) (m : Machine) → Roused chans m m
Roused-refl chans m = record {
  stirred = λ u. inl (refl, refl);
  tid = λ u. refl;
  home = λ u. refl;
  exit_code = λ u. refl;
  current = λ d. refl;
  idle = λ d. refl;
  stack = λ d. refl;
  processes = refl;
  process_list = refl;
  installed = refl;
}

Stirred-trans :
    (chans : List ℕ) (s s' s'' : ThreadState) (c c' c'' : ℕ)
    → Stirred chans s c s' c'
    → Stirred chans s' c' s'' c''
    → Stirred chans s c s'' c''
Stirred-trans chans s s' s'' c c' c'' (inl (a, b)) (inl (d, e)) = inl (d ∙ a, e ∙ b)
Stirred-trans chans s s' s'' c c' c'' (inl (a, b)) (inr (w, r, h)) =
    inr (sym a ∙ w, r, sym (ap (λ (x : ℕ). has x chans) b) ∙ h)
Stirred-trans chans s s' s'' c c' c'' (inr (w, r, h)) (inl (d, e)) = inr (w, d ∙ r, h)
Stirred-trans chans s s' s'' c c' c'' (inr (w, r, h)) (inr (w', r', h')) = inr (w, r', h)

Roused-trans :
    {chans : List ℕ} {k l m : Machine} → Roused chans k l → Roused chans l m → Roused chans k m
Roused-trans {chans} {k} {l} {m} a b = record {
  stirred = λ u. Stirred-trans chans _ _ _ _ _ _ (a.stirred u) (b.stirred u);
  tid = λ u. b.tid u ∙ a.tid u;
  home = λ u. b.home u ∙ a.home u;
  exit_code = λ u. b.exit_code u ∙ a.exit_code u;
  current = λ d. b.current d ∙ a.current d;
  idle = λ d. b.idle d ∙ a.idle d;
  stack = λ d. b.stack d ∙ a.stack d;
  processes = b.processes ∙ a.processes;
  process_list = b.process_list ∙ a.process_list;
  installed = b.installed ∙ a.installed;
}

Roused-cons :
    {chan : ℕ} {chans : List ℕ} {m m' : Machine} → Roused chans m m' → Roused (chan ∷ chans) m m'
Roused-cons {chan} {chans} {m} {m'} r = record {
  stirred = λ u. elim (r.stirred u) [
    | inl same ↦ inl same
    | inr (w, s, h) ↦ inr (w, s, ground (arith, h))
  ];
  tid = r.tid;
  home = r.home;
  exit_code = r.exit_code;
  current = r.current;
  idle = r.idle;
  stack = r.stack;
  processes = r.processes;
  process_list = r.process_list;
  installed = r.installed;
}

enqueue_thread-Roused :
    (chans : List ℕ) (o : Option ℕ) (t : ℕ) (m : Machine) → Roused chans m (enqueue_thread o t m)
enqueue_thread-Roused chans none t m = unfold enqueue_thread in Roused-refl chans m
enqueue_thread-Roused chans (some c) t m = record {
  stirred = λ u. inl ((q.0 u).state, (q.0 u).chan);
  tid = λ u. (q.0 u).tid;
  home = λ u. (q.0 u).cpu_id;
  exit_code = λ u. (q.0 u).exit_code;
  current = λ d. (q.1 d).current_thread;
  idle = λ d. (q.1 d).idle_thread;
  stack = λ d. (q.1 d).rsp0;
  processes = q.3;
  process_list = q.4;
  installed = q.2;
}
  where
    q : QueuesAlone m (enqueue_thread (some c) t m)
    q = enqueue_thread-QueuesAlone c t m

called-Roused :
    (chan t : ℕ) (chans : List ℕ) (m : Machine)
    → sleeps chan t m ≡ true
    → Roused (chan ∷ chans) m (write t (record (m.threads t) { chan = 0; state = ready }) m)
called-Roused chan t chans m on = record {
  stirred = λ u. elim (Bool-cases (t == u)) [
    | inl e ↦ rw e (inr (asleep u e, refl, there u e))
    | inr ne ↦ rw ne (inl (refl, refl))
  ];
  tid = λ u. ground arith;
  home = λ u. ground arith;
  exit_code = λ u. ground arith;
  current = λ d. refl;
  idle = λ d. refl;
  stack = λ d. refl;
  processes = refl;
  process_list = refl;
  installed = refl;
}
  where
    waits : (s : ThreadState) → is_waiting s ≡ true → s ≡ waiting
    waits s h = ground arith

    asleep : (u : ℕ) → (t == u) ≡ true → (m.threads u).state ≡ waiting
    asleep u e = waits (m.threads u).state (ground (arith, on, e))

    there : (u : ℕ) → (t == u) ≡ true → has (m.threads u).chan (chan ∷ chans) ≡ true
    there u e = ground (arith, on, e, ==-refl chan)

wake-Roused : (chan t : ℕ) (chans : List ℕ) (m : Machine) → Roused (chan ∷ chans) m (wake chan t m)
unfolding wake
wake-Roused chan t chans m = elim (Bool-cases (sleeps chan t m)) [
  | inl on ↦
      rw on (
        Roused-trans (called-Roused chan t chans m on) (enqueue_thread-Roused (chan ∷ chans) _ t _))
  | inr off ↦ rw off (Roused-refl (chan ∷ chans) m)
]

wakeup_each-Roused :
    (chan : ℕ) (chans ps : List ℕ) (m : Machine) → Roused (chan ∷ chans) m (wakeup_each chan ps m)
unfolding wakeup_each
wakeup_each-Roused chan chans [] m = Roused-refl (chan ∷ chans) m
wakeup_each-Roused chan chans (p ∷ ps) m =
    Roused-trans (wake-Roused chan (m.processes p).main_thread chans m)
      (wakeup_each-Roused chan chans ps (wake chan (m.processes p).main_thread m))

wakeup-Roused : (chan : ℕ) (chans : List ℕ) (m : Machine) → Roused (chan ∷ chans) m (wakeup chan m)
unfolding wakeup
wakeup-Roused chan chans m = elim (Bool-cases (chan == 0)) [
  | inl z ↦ rw z (Roused-refl (chan ∷ chans) m)
  | inr nz ↦ rw nz (wakeup_each-Roused chan chans m.process_list m)
]

-- Wakeups only make threads ready that sleep on one of the channels.
pub wakeups-Roused : (chans : List ℕ) (m : Machine) → Roused chans m (wakeups chans m)
unfolding wakeups
wakeups-Roused [] m = Roused-refl [] m
wakeups-Roused (chan ∷ chans) m =
    Roused-trans (wakeup-Roused chan chans m) (Roused-cons (wakeups-Roused chans (wakeup chan m)))

-- The queues after the wakeups.
unfoldable pub woken_channels : List ℕ → Machine → (ℕ → List ℕ) → ℕ → List ℕ
woken_channels [] m qs = qs
woken_channels (chan ∷ chans) m qs =
    woken_channels chans (wakeup chan m)
      (if chan == 0 then qs else woken_all chan (mains m m.process_list) m qs)

wakeup-IsValid :
    {S : ℕ → Bool} (chan : ℕ) (m : Machine) (qs : ℕ → List ℕ)
    → IsValid S m qs
    → IsValid S
        (wakeup chan m)
        (if chan == 0 then qs else woken_all chan (mains m m.process_list) m qs)
wakeup-IsValid chan m qs v = elim (Bool-cases (chan == 0)) [
  | inl z ↦ rw z (unfold wakeup in rw z v)
  | inr nz ↦ rw nz (wakeup-Woken v chan (==→ne chan 0 nz)).valid
]

pub wakeups-IsValid :
    {S : ℕ → Bool} (chans : List ℕ) (m : Machine) (qs : ℕ → List ℕ)
    → IsValid S m qs
    → IsValid S (wakeups chans m) (woken_channels chans m qs)
unfolding wakeups woken_channels
wakeups-IsValid [] m qs v = v
wakeups-IsValid {S} (chan ∷ chans) m qs v =
    wakeups-IsValid chans (wakeup chan m) _ (wakeup-IsValid chan m qs v)

-- A wakeup of another channel leaves a sleeper.
sleeps-kept :
    {S : ℕ → Bool} {m : Machine} {qs : ℕ → List ℕ} (v : IsValid S m qs) (c chan u : ℕ)
    → (c == chan) ≡ false
    → sleeps chan u m ≡ true
    → sleeps chan u (wakeup c m) ≡ true
sleeps-kept {S} {m} {qs} v c chan u ne a = elim (Bool-cases (c == 0)) [
  | inl z ↦ unfold wakeup in rw z a
  | inr nz ↦ ground (arith, (wakeup-Woken v c (==→ne c 0 nz)).kept u (inl other), a)
]
  where
    other : sleeps c u m ≡ false
    other = elim (Bool-cases (sleeps c u m)) [
      | inl on ↦ absurd (ground (arith, on, a, ne))
      | inr off ↦ off
    ]

-- A main thread of a listed process that sleeps on one of the channels is ready after the wakeups.
pub wakeups-ready :
    {S : ℕ → Bool} (chans : List ℕ) (m : Machine) (qs : ℕ → List ℕ) (chan u : ℕ)
    → IsValid S m qs
    → chan ≢ 0
    → has chan chans ≡ true
    → has u (mains m m.process_list) ≡ true
    → sleeps chan u m ≡ true
    → ((wakeups chans m).threads u).state ≡ ready
unfolding wakeups
wakeups-ready [] m qs chan u v nz h l a = cc
wakeups-ready {S} (c ∷ chans) m qs chan u v nz h l a = elim (Bool-cases (c == chan)) [
  | inl e ↦ ground (arith, (wakeups-Roused chans (wakeup c m)).stirred u, roused e)
  | inr ne ↦
      wakeups-ready chans (wakeup c m) _ chan u (wakeup-IsValid c m qs v) nz (ground (arith, h, ne))
        listed (sleeps-kept v c chan u ne a)
]
  where
    roused : (c == chan) ≡ true → ((wakeup c m).threads u).state ≡ ready
    roused e =
        ((wakeup-Woken v c (λ z. nz (sym ((==_iff c chan).0 e) ∙ z))).roused u l
          (rw ((==_iff c chan).0 e) a)).0

    r : Roused (c ∷ []) m (wakeup c m)
    r = wakeup-Roused c [] m

    listed : has u (mains (wakeup c m) (wakeup c m).process_list) ≡ true
    listed =
        ap (λ (ps : List ℕ). has u (mains (wakeup c m) ps)) r.process_list
        ∙ ap (has u) (mains-eq m (wakeup c m) m.process_list r.processes)
        ∙ l
