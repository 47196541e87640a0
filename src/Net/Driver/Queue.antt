-- ===== src/Net/Driver/Queue.antt =====
-- `net_driver_receive` of kernel/kernel/net/net.c: the queue of received packets.
use mathlib.Core.Path.{subst}
use sirius_education.Common.{
  ℕ, ◌+◌, ◌%◌, ◌≤◌, ◌<◌, ◌≡◌, ◌≢◌, refl, ap, ◌∙◌, inl, inr, true, false, ◌⊎◌, ◌||◌, ltb, Option,
  none, some, List, [], ◌∷◌, ◌++◌, map, length, has, set, ◌==◌, ne→==, ==-refl, Bool-cases,
  Option-cases, arith, if◌then◌else◌,
}
use sirius_education.Common.Ints.{ℤ, pos, negsuc}
use sirius_education.Ring.{Ring, put, contents}
use sirius_education.Ring.Contents.{IsValid, Put, put-get-queue}
use sirius_education.Net.Driver.{queue_size, Rx, driver_receive}

-- The packets that wait, the oldest first.
abbrev pub waiting : Rx → List (List ℕ)
waiting rx = map rx.memory (contents queue_size rx.queue)

map-update :
    (mem : ℕ → List ℕ) (p : ℕ) (packet : List ℕ) (qs : List ℕ)
    → has p qs ≡ false
    → map (λ q. if p == q then packet else mem q) qs ≡ map mem qs
map-update mem p packet [] h = refl
map-update mem p packet (q ∷ qs) h =
    rw (ne→== p q (λ e. ground (arith, h, e)))
      (ap (λ (r : List (List ℕ)). mem q ∷ r) (map-update mem p packet qs (ground arith)))

map-append : (mem : ℕ → List ℕ) (qs rs : List ℕ) → map mem (qs ++ rs) ≡ map mem qs ++ map mem rs
map-append mem [] rs = refl
map-append mem (q ∷ qs) rs = ap (λ (r : List (List ℕ)). mem q ∷ r) (map-append mem qs rs)

abbrev pub Fits : List ℕ → Type 0
Fits packet = (0 < length packet) × (length packet ≤ 1514)

-- The outcome `r` of the delivery of a packet, `block` being the memory that is left.
pub record Received (packet : List ℕ) (rx : Rx) (block : Option ℕ) (r : ℤ × Rx) : Type 0 where
  pub wrong_size : (length packet ≡ 0) ⊎ (1514 < length packet) → r ≡ (negsuc 0, rx)
  pub full :
      Fits packet → length (contents queue_size rx.queue) + 1 ≡ queue_size → r ≡ (negsuc 1, rx)
  pub no_memory :
      Fits packet
      → length (contents queue_size rx.queue) + 1 ≢ queue_size
      → block ≡ none
      → r ≡ (negsuc 2, rx)
  pub queued :
      (p : ℕ)
      → Fits packet
      → length (contents queue_size rx.queue) + 1 ≢ queue_size
      → block ≡ some p
      → (r.0 ≡ pos 0)
        × IsValid queue_size r.1.queue
        × (waiting r.1 ≡ waiting rx ++ (packet ∷ []))
        × (r.1.event ≡ rx.event)

abbrev pub slot : Ring → ℕ → Ring
slot q p = record q { buf = set q.buf q.head p; head = (q.head + 1) % queue_size }

refused :
    (q : Ring) (p : ℕ) → ((q.head + 1) % queue_size == q.tail) ≡ true → put queue_size q p ≡ none
unfolding put
refused q p h = rw h refl

pub taken :
    (q : Ring) (p : ℕ)
    → ((q.head + 1) % queue_size == q.tail) ≡ false
    → put queue_size q p ≡ some (slot q p)
unfolding put
taken q p h = rw h refl

waiting-slot :
    (p : ℕ) (packet : List ℕ) (mem : ℕ → List ℕ) (q q' : Ring)
    → contents queue_size q' ≡ contents queue_size q ++ (p ∷ [])
    → has p (contents queue_size q) ≡ false
    → map (λ u. if p == u then packet else mem u) (contents queue_size q')
      ≡ map mem (contents queue_size q) ++ (packet ∷ [])
waiting-slot p packet mem q q' e out = rw e (
    map-append (λ u. if p == u then packet else mem u) (contents queue_size q) (p ∷ [])
    ∙ (rw (map-update mem p packet (contents queue_size q) out) (rw (==-refl p) refl)))

-- The code's test and write are those of the byte queue.
pub put-full :
    (q : Ring) (p : ℕ)
    → IsValid queue_size q
    → ((q.head + 1) % queue_size == q.tail) ≡ true
    → length (contents queue_size q) + 1 ≡ queue_size
put-full q p v h = subst (Put queue_size q p) (refused q p h) (put-get-queue queue_size q p v).0

pub put-slot :
    (q : Ring) (p : ℕ)
    → IsValid queue_size q
    → ((q.head + 1) % queue_size == q.tail) ≡ false
    → IsValid queue_size (slot q p)
      × (contents queue_size (slot q p) ≡ contents queue_size q ++ (p ∷ []))
      × (length (contents queue_size q) + 1 < queue_size)
put-slot q p v h = subst (Put queue_size q p) (taken q p h) (put-get-queue queue_size q p v).0

-- A packet from the driver, whose copy stands in memory that no waiting packet has: if it has no byte or
-- more than 1514 it is refused with -1; else with 63 packets waiting it is refused with -2, else without
-- memory with -3, each time with no change; else the answer is 0, the packet waits after all others, and
-- the queue stays within its array.
pub driver_receive-Received :
    (block : Option ℕ) (packet : List ℕ) (rx : Rx)
    → IsValid queue_size rx.queue
    → ((p : ℕ) → block ≡ some p → has p (contents queue_size rx.queue) ≡ false)
    → Received packet rx block (driver_receive block packet rx)
unfolding driver_receive
driver_receive-Received block packet rx v fresh =
    elim (Bool-cases ((length packet == 0) || ltb 1514 (length packet))) [
      | inl bad ↦ rw bad (record {
        wrong_size = λ w. refl;
        full = λ f e. absurd (ground (arith, f, bad));
        no_memory = λ f n e. absurd (ground (arith, f, bad));
        queued = λ p f n e. absurd (ground (arith, f, bad));
      })
      | inr good ↦ rw good (elim (Bool-cases ((rx.queue.head + 1) % queue_size == rx.queue.tail)) [
        | inl is_full ↦ rw is_full (record {
          wrong_size = λ w. absurd (ground (arith, w, good));
          full = λ f e. refl;
          no_memory = λ f n e. absurd (n (put-full rx.queue 0 v is_full));
          queued = λ p f n e. absurd (n (put-full rx.queue 0 v is_full));
        })
        | inr room ↦ rw room (elim (Option-cases block) [
          | inl gone ↦ rw gone (record {
            wrong_size = λ w. absurd (ground (arith, w, good));
            full = λ f e. absurd (omega (arith, e, (put-slot rx.queue 0 v room).2));
            no_memory = λ f n e. refl;
            queued = λ p f n e. cc;
          })
          | inr (p, has_block) ↦ rw has_block (record {
            wrong_size = λ w. absurd (ground (arith, w, good));
            full = λ f e. absurd (omega (arith, e, (put-slot rx.queue 0 v room).2));
            no_memory = λ f n e. cc;
            queued = λ q f n e. (
              refl,
              (put-slot rx.queue p v room).0,
              waiting-slot p packet rx.memory rx.queue (slot rx.queue p)
                  (put-slot rx.queue p v room).1 (fresh p has_block),
              refl,
            );
          })
        ])
      ])
    ]
