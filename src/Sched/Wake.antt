-- ===== src/Sched/Wake.antt =====
-- `wait` and `wakeup`: who sleeps, who is woken, and that no wakening is lost.
use sirius_education.Common.{
  has, ℕ, ◌≡◌, ◌≢◌, refl, ap, ◌∙◌, Bool, true, false, not, ◌&&◌, some, inl, inr, ◌⊎◌, List, [], ◌∷◌,
  ◌++◌, ◌==◌, get_elem?, ==-refl, ne→==, Bool-cases, arith, if◌then◌else◌,
}
use sirius_education.Sched.{
  ready, running, waiting, Process, Machine, update, write, enqueue_thread,
}
use sirius_education.Sched.Tasks.{is_waiting, wait_on, wake, wakeup_each, wakeup}
use sirius_education.Sched.Queue.{enqueue_thread-QueuesAlone}
use sirius_education.Sched.Turns.{get_elem?-append}
use sirius_education.Sched.Valid.{IsValid}
use sirius_education.Sched.Valid.Moves.{out_of_queues, write-IsValid, enqueue_thread-IsValid}

-- Whether the thread `t` sleeps on the channel.
abbrev pub sleeps : ℕ → ℕ → Machine → Bool
sleeps chan t m = not (t == 0) && (is_waiting (m.threads t).state && ((m.threads t).chan == chan))

-- The queues when `t` has been woken.
abbrev pub woken_queues : ℕ → ℕ → Machine → (ℕ → List ℕ) → ℕ → List ℕ
woken_queues chan t m qs =
    if sleeps chan t m
    then update qs (m.threads t).cpu_id (qs (m.threads t).cpu_id ++ t ∷ [])
    else qs

pub wait_on-IsValid :
    {S : ℕ → Bool} {m : Machine} {qs : ℕ → List ℕ} (v : IsValid S m qs) (c chan : ℕ)
    → (m.threads (m.cpus c).current_thread).state ≡ running
    → IsValid S (wait_on c chan m) qs
unfolding wait_on
wait_on-IsValid {m} v c chan run = elim (Bool-cases (chan == 0)) [
  | inl z ↦ rw z v
  | inr nz ↦ rw nz (
      write-IsValid v (m.cpus c).current_thread
        (record (m.threads (m.cpus c).current_thread) { chan = chan; state = waiting })
        (λ d. out_of_queues v (m.cpus c).current_thread d (ground arith)) refl (λ a e. cc) (λ e. cc)
        refl)
]

module _ {S : ℕ → Bool} {m : Machine} {qs : ℕ → List ℕ} (v : IsValid S m qs) (chan t : ℕ)
    (adm : t ≢ 0 → S t ≡ true) where
  abbrev called : Machine
  called = write t (record (m.threads t) { chan = 0; state = ready }) m

  wake-eq :
      wake chan t m
      ≡ (if sleeps chan t m then enqueue_thread (some (m.threads t).cpu_id) t called else m)
  unfolding wake
  wake-eq = elim (Bool-cases (sleeps chan t m)) [
    | inl on ↦ rw on (rw (v.placed t (adm (ground arith))) refl)
    | inr off ↦ rw off refl
  ]

  pub wake-IsValid : IsValid S (wake chan t m) (woken_queues chan t m qs)
  wake-IsValid = elim (Bool-cases (sleeps chan t m)) [
    | inl on ↦ rw wake-eq (
        rw on (
          enqueue_thread-IsValid v (m.threads t).cpu_id t
            (record (m.threads t) { chan = 0; state = ready }) (ground arith) refl refl refl
            (out_of_queues v t (m.threads t).cpu_id (ground arith)) (adm (ground arith)) refl))
    | inr off ↦ rw wake-eq (rw off v)
  ]

  pub wake-threads :
      (u : ℕ)
      → (((wake chan t m).threads u).state
          ≡ (if sleeps chan t m && (t == u) then ready else (m.threads u).state))
        × (((wake chan t m).threads u).chan
            ≡ (if sleeps chan t m && (t == u) then 0 else (m.threads u).chan))
        × (((wake chan t m).threads u).cpu_id ≡ (m.threads u).cpu_id)
  wake-threads u =
      rw wake-eq (ground (arith, (enqueue_thread-QueuesAlone (m.threads t).cpu_id t called).0 u))

  wake-rest :
      ((wake chan t m).processes ≡ m.processes)
      × ((wake chan t m).process_list ≡ m.process_list)
      × ((wake chan t m).installed ≡ m.installed)
      × ((d : ℕ) → ((wake chan t m).cpus d).current_thread ≡ (m.cpus d).current_thread)
  wake-rest = rw wake-eq (
    ground (
      arith,
      (enqueue_thread-QueuesAlone (m.threads t).cpu_id t called).2,
      (enqueue_thread-QueuesAlone (m.threads t).cpu_id t called).3,
      (enqueue_thread-QueuesAlone (m.threads t).cpu_id t called).4,
    ),
    ground (
      arith,
      (enqueue_thread-QueuesAlone (m.threads t).cpu_id t called).2,
      (enqueue_thread-QueuesAlone (m.threads t).cpu_id t called).3,
      (enqueue_thread-QueuesAlone (m.threads t).cpu_id t called).4,
    ),
    ground (
      arith,
      (enqueue_thread-QueuesAlone (m.threads t).cpu_id t called).2,
      (enqueue_thread-QueuesAlone (m.threads t).cpu_id t called).3,
      (enqueue_thread-QueuesAlone (m.threads t).cpu_id t called).4,
    ),
    λ d. ground (arith, (enqueue_thread-QueuesAlone (m.threads t).cpu_id t called).1 d),
  )

-- The machine and the queues when all sleepers among the threads `ts` have been woken.
unfoldable pub wake_all : ℕ → List ℕ → Machine → Machine
wake_all chan [] m = m
wake_all chan (t ∷ ts) m = wake_all chan ts (wake chan t m)

unfoldable pub woken_all : ℕ → List ℕ → Machine → (ℕ → List ℕ) → ℕ → List ℕ
woken_all chan [] m qs = qs
woken_all chan (t ∷ ts) m qs = woken_all chan ts (wake chan t m) (woken_queues chan t m qs)

-- The outcome `m'` of waking those of the threads `ts` that sleep on the channel.
pub record Woken (S : ℕ → Bool) (chan : ℕ) (ts : List ℕ) (m : Machine) (qs : ℕ → List ℕ)
    (m' : Machine) (qs' : ℕ → List ℕ) : Type 0 where
  pub valid : IsValid S m' qs'
  pub none_left : (t : ℕ) → has t ts ≡ true → sleeps chan t m' ≡ false
  pub roused :
      (t : ℕ)
      → has t ts ≡ true
      → sleeps chan t m ≡ true
      → ((m'.threads t).state ≡ ready)
        × ((m'.threads t).chan ≡ 0)
        × (has t (qs' (m.threads t).cpu_id) ≡ true)
  pub kept :
      (u : ℕ)
      → (sleeps chan u m ≡ false) ⊎ (has u ts ≡ false)
      → ((m'.threads u).state ≡ (m.threads u).state) × ((m'.threads u).chan ≡ (m.threads u).chan)
  pub homes : (u : ℕ) → (m'.threads u).cpu_id ≡ (m.threads u).cpu_id
  pub places : (d k t : ℕ) → get_elem? (qs d) k ≡ some t → get_elem? (qs' d) k ≡ some t

woken-place :
    (m : Machine) (qs : ℕ → List ℕ) (chan t d k u : ℕ)
    → get_elem? (qs d) k ≡ some u
    → get_elem? (woken_queues chan t m qs d) k ≡ some u
woken-place m qs chan t d k u h = ground (arith, get_elem?-append (qs d) k u t)

Woken-cons :
    {S : ℕ → Bool} {chan t : ℕ} {ts : List ℕ} {m m' : Machine} {qs qs' : ℕ → List ℕ}
    → IsValid S m qs
    → (t ≢ 0 → S t ≡ true)
    → Woken S chan ts (wake chan t m) (woken_queues chan t m qs) m' qs'
    → Woken S chan (t ∷ ts) m qs m' qs'
Woken-cons {S} {chan} {t} {ts} {m} {m'} {qs} {qs'} v adm later = record {
  valid = later.valid;
  none_left = λ u h. ground (arith, w u, later.kept u, later.none_left u, h);
  roused = λ u h s.
      ground
        (arith, w u, later.kept u, later.homes u, later.roused u, later.valid.queued u, adm, h, s);
  kept = λ u h. ground (arith, w u, later.kept u, h);
  homes = λ u. later.homes u ∙ (w u).2;
  places = λ d k u h. later.places d k u (woken-place m qs chan t d k u h);
}
  where
    w :
        (u : ℕ)
        → (((wake chan t m).threads u).state
            ≡ (if sleeps chan t m && (t == u) then ready else (m.threads u).state))
          × (((wake chan t m).threads u).chan
              ≡ (if sleeps chan t m && (t == u) then 0 else (m.threads u).chan))
          × (((wake chan t m).threads u).cpu_id ≡ (m.threads u).cpu_id)
    w = wake-threads v chan t adm

wake_all-Woken :
    (S : ℕ → Bool) (chan : ℕ) (ts : List ℕ) (m : Machine) (qs : ℕ → List ℕ)
    → IsValid S m qs
    → ((t : ℕ) → has t ts ≡ true → t ≢ 0 → S t ≡ true)
    → Woken S chan ts m qs (wake_all chan ts m) (woken_all chan ts m qs)
unfolding wake_all woken_all
wake_all-Woken S chan [] m qs v adm = record {
  valid = v;
  none_left = λ t h. cc;
  roused = λ t h s. cc;
  kept = λ u h. (refl, refl);
  homes = λ u. refl;
  places = λ d k t h. h;
}
wake_all-Woken S chan (t ∷ ts) m qs v adm = Woken-cons v (adm t (ground (arith, ==-refl t))) (
    wake_all-Woken S chan ts (wake chan t m) (woken_queues chan t m qs)
      (wake-IsValid v chan t (adm t (ground (arith, ==-refl t)))) (λ u h n. adm u (ground arith) n))

-- The main threads of the listed processes.
abbrev pub mains : Machine → List ℕ → List ℕ
mains m [] = []
mains m (p ∷ ps) = (m.processes p).main_thread ∷ mains m ps

pub mains-eq :
    (m m' : Machine) (ps : List ℕ) → m'.processes ≡ m.processes → mains m' ps ≡ mains m ps
mains-eq m m' [] e = refl
mains-eq m m' (p ∷ ps) e =
    ap (λ (f : ℕ → Process). (f p).main_thread ∷ mains m' ps) e
    ∙ ap (λ (r : List ℕ). (m.processes p).main_thread ∷ r) (mains-eq m m' ps e)

wakeup_each-eq :
    (S : ℕ → Bool) (chan : ℕ) (ps : List ℕ) (m : Machine) (qs : ℕ → List ℕ)
    → IsValid S m qs
    → ((t : ℕ) → has t (mains m ps) ≡ true → t ≢ 0 → S t ≡ true)
    → wakeup_each chan ps m ≡ wake_all chan (mains m ps) m
unfolding wakeup_each wake_all
wakeup_each-eq S chan [] m qs v adm = refl
wakeup_each-eq S chan (p ∷ ps) m qs v adm =
    wakeup_each-eq S chan ps (wake chan t m) (woken_queues chan t m qs) (wake-IsValid v chan t here)
      (λ u h n. adm u (ground (arith, h, ap (has u) same)) n)
    ∙ ap (λ (ts : List ℕ). wake_all chan ts (wake chan t m)) same
  where
    t : ℕ
    t = (m.processes p).main_thread

    here : t ≢ 0 → S t ≡ true
    here = adm t (ground (arith, ==-refl t))

    same : mains (wake chan t m) ps ≡ mains m ps
    same = mains-eq m (wake chan t m) ps (wake-rest v chan t here).0

mains_admitted :
    {S : ℕ → Bool} {m : Machine} {qs : ℕ → List ℕ} (v : IsValid S m qs) (ps : List ℕ)
    → ((p : ℕ) → has p ps ≡ true → has p m.process_list ≡ true)
    → (t : ℕ) → has t (mains m ps) ≡ true
    → t ≢ 0
    → S t ≡ true
mains_admitted v [] sub t h n = cc
mains_admitted {S} {m} v (p ∷ ps) sub t h n = ground (
  arith,
  v.members p (sub p (ground (arith, ==-refl p))),
  mains_admitted v ps (λ q k. sub q (ground arith)) t,
  h,
  n,
)

pub wakeup-Woken :
    {S : ℕ → Bool} {m : Machine} {qs : ℕ → List ℕ} (v : IsValid S m qs) (chan : ℕ)
    → chan ≢ 0
    → Woken S chan
        (mains m m.process_list)
        m
        qs
        (wakeup chan m)
        (woken_all chan (mains m m.process_list) m qs)
unfolding wakeup
wakeup-Woken {S} {m} {qs} v chan nz = rw (ne→== chan 0 nz) (
    rw (wakeup_each-eq S chan m.process_list m qs v listed)
      (wake_all-Woken S chan (mains m m.process_list) m qs v listed))
  where
    listed : (t : ℕ) → has t (mains m m.process_list) ≡ true → t ≢ 0 → S t ≡ true
    listed = mains_admitted v m.process_list (λ p h. h)
