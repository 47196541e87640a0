-- ===== src/Net/Driver/Rounds.antt =====
-- The rounds of `network_rx_thread` of kernel/kernel/net/net.c, which take the received packets.
use mathlib.Core.Path.{subst}
use sirius_education.Common.{
  ℕ, ◌+◌, ◌-◌, ◌*◌, ◌%◌, ◌^◌, ◌≤◌, ◌≡◌, ◌≢◌, refl, inl, inr, ◌⊎◌, none, some, List, [], ◌∷◌, ◌++◌,
  length, get_or, drop, ne→==, Option-cases, arith,
}
use sirius_education.Ring.{Ring, get, contents}
use sirius_education.Ring.Contents.{IsValid, Got, put-get-queue}
use sirius_education.Net.Driver.{
  queue_size, Event, quiet, link_up, link_down, init_dhcp, clear_leases, arp_input, Rx,
  consume_link_event, Call, packet_input, ip_input, kfree, event_calls, packet_calls, rx_round,
}

-- The bytes of a packet as they lie in memory, `stray` being what lies behind, and its type.
abbrev pub type_of : List ℕ → ℕ
type_of bytes = get_or bytes 12 0 * 256 + get_or bytes 13 0

-- The calls `calls` for a packet, by the protocol of its type.
pub record ByType (bytes : List ℕ) (len : ℕ) (calls : List Call) : Type 0 where
  pub as_ip : type_of bytes ≡ 2048 → calls ≡ ip_input (drop 14 bytes) len ∷ []
  pub as_arp : type_of bytes ≡ 2054 → calls ≡ arp_input (drop 14 bytes) len ∷ []
  pub as_none : type_of bytes ≢ 2048 → type_of bytes ≢ 2054 → calls ≡ []

-- The calls `calls` for a link event.
pub record ByEvent (event : Event) (calls : List Call) : Type 0 where
  pub on_quiet : event ≡ quiet → calls ≡ []
  pub on_up : event ≡ link_up → calls ≡ init_dhcp ∷ []
  pub on_down : event ≡ link_down → calls ≡ clear_leases ∷ []

-- The outcome `r` of a round.
pub record Handled (stray : List ℕ) (rx : Rx) (r : List Call × Rx) : Type 0 where
  pub for_event : List Call
  pub by_event : ByEvent rx.event for_event
  pub outcome :
      ((contents queue_size rx.queue ≡ []) × (r.0 ≡ for_event) × (r.1.queue ≡ rx.queue))
      ⊎ ((p : ℕ) × (by_type : List Call) × (contents queue_size rx.queue
            ≡ p ∷ contents queue_size r.1.queue)
          × (r.0 ≡ for_event ++ (packet_input (rx.memory p) ∷ by_type ++ (kfree p ∷ [])))
          × (14 ≤ length (rx.memory p)
              → length (rx.memory p) ≤ 1514
              → ByType (rx.memory p ++ stray) (length (rx.memory p) - 14) by_type))
  pub consumed : r.1.event ≡ quiet
  pub memory_kept : r.1.memory ≡ rx.memory
  pub valid : IsValid queue_size r.1.queue

event_calls-ByEvent : (e : Event) → ByEvent e (event_calls e)
unfolding event_calls
event_calls-ByEvent quiet = record { on_quiet = λ h. refl; on_up = λ h. cc; on_down = λ h. cc }
event_calls-ByEvent link_up = record { on_quiet = λ h. cc; on_up = λ h. refl; on_down = λ h. cc }
event_calls-ByEvent link_down = record { on_quiet = λ h. cc; on_up = λ h. cc; on_down = λ h. refl }

packet_calls-ByType :
    (packet stray : List ℕ) (len : ℕ)
    → (length packet + 2 ^ 32 - 14) % 2 ^ 32 ≡ len
    → ByType (packet ++ stray) len (packet_calls packet stray)
unfolding packet_calls
packet_calls-ByType packet stray len e = record {
  as_ip = λ t. rw (t, e) refl;
  as_arp = λ t. rw (t, e) refl;
  as_none = λ a b.
      rw (ne→== (type_of (packet ++ stray)) 2048 a, ne→== (type_of (packet ++ stray)) 2054 b) refl;
}

round-none :
    (stray : List ℕ) (rx : Rx)
    → get queue_size rx.queue ≡ none
    → rx_round stray rx ≡ (event_calls rx.event, record rx { event = quiet })
unfolding rx_round consume_link_event
round-none stray rx e = rw (e, rx_round) refl

round-some :
    (stray : List ℕ) (rx : Rx) (p : ℕ) (q : Ring)
    → get queue_size rx.queue ≡ some (p, q)
    → rx_round stray rx ≡ (
      event_calls rx.event
          ++ (packet_input (rx.memory p) ∷ packet_calls (rx.memory p) stray ++ (kfree p ∷ [])),
      record rx { queue = q; event = quiet },
    )
unfolding rx_round consume_link_event
round-some stray rx p q e = rw (e, rx_round) refl

no_packet :
    (stray : List ℕ) (rx : Rx)
    → contents queue_size rx.queue ≡ []
    → IsValid queue_size rx.queue
    → Handled stray rx (event_calls rx.event, record rx { event = quiet })
no_packet stray rx e v = record {
  for_event = event_calls rx.event;
  by_event = event_calls-ByEvent rx.event;
  outcome = inl (e, refl, refl);
  consumed = refl;
  memory_kept = refl;
  valid = v;
}

one_packet :
    (stray : List ℕ) (rx : Rx) (p : ℕ) (q : Ring)
    → IsValid queue_size q × (contents queue_size rx.queue ≡ p ∷ contents queue_size q)
    → Handled stray rx (
      event_calls rx.event
          ++ (packet_input (rx.memory p) ∷ packet_calls (rx.memory p) stray ++ (kfree p ∷ [])),
      record rx { queue = q; event = quiet },
    )
one_packet stray rx p q g = record {
  for_event = event_calls rx.event;
  by_event = event_calls-ByEvent rx.event;
  outcome = inr (
    p,
    packet_calls (rx.memory p) stray,
    g.1,
    refl,
    λ long short.
        packet_calls-ByType (rx.memory p) stray (length (rx.memory p) - 14)
          (omega (arith, long, short)),
  );
  consumed = refl;
  memory_kept = refl;
  valid = g.0;
}

-- A round of the thread: it makes the calls for the pending event, which is then gone; where no packet waits
-- it does no more; else the oldest leaves the queue and is handed to the packet sockets, and, if it has 14
-- to 1514 bytes, what follows its header goes with its length to the protocol of its type, or to none; then
-- its memory is freed. The contents of the memory stay, and the queue stays within its array.
pub rx_round-Handled :
    (stray : List ℕ) (rx : Rx) → IsValid queue_size rx.queue → Handled stray rx (rx_round stray rx)
rx_round-Handled stray rx v = elim (Option-cases (get queue_size rx.queue)) [
  | inl e ↦ rw (round-none stray rx e) (
      no_packet stray rx
        (subst (Got queue_size rx.queue) e (put-get-queue queue_size rx.queue 0 v).1) v)
  | inr ((p, q), e) ↦ rw (round-some stray rx p q e) (
      one_packet stray rx p q
        (subst (Got queue_size rx.queue) e (put-get-queue queue_size rx.queue 0 v).1))
]

-- The calls for a frame: none, or one of a protocol with a length of at least 2^32 - 13.
abbrev pub Overlong : List ℕ → List Call → Type 0
Overlong bytes calls =
    (calls ≡ [])
    ⊎ ((len : ℕ) × (2 ^ 32 - 13 ≤ len)
        × ((calls ≡ ip_input (drop 14 bytes) len ∷ [])
            ⊎ (calls ≡ arp_input (drop 14 bytes) len ∷ [])))
