-- ===== src/Net/Driver.antt =====
-- kernel/kernel/net/net.c: the table of the interfaces, the queue of received packets and the thread that
-- hands them to the protocols.
pub mod Queue
pub mod Rounds
pub mod Interfaces
use sirius_education.Common.{
  ℕ, ◌+◌, ◌-◌, ◌*◌, ◌/◌, ◌%◌, ◌^◌, Bool, true, false, not, ◌&&◌, ◌||◌, Option, none, some, List, [],
  ◌∷◌, ◌++◌, length, replicate, drop, get_or, set, ltb, leb, ◌==◌, if◌then◌else◌,
}
use sirius_education.Common.Ints.{ℤ, pos, negsuc}
use sirius_education.Ring.{Ring, get}

-- `net_interface_t`; the name is `eth` with the id.
pub record NetInterface : Type 0 where
  pub id : ℕ
  pub mac : List ℕ
  pub ip : ℕ
  pub mask : ℕ
  pub gateway : ℕ
  pub ops_table : ℕ
  pub active : Bool
  pub ready : Bool
  pub is_online : Bool

-- `MAX_NETWORK_INTERFACES`
abbrev pub max_interfaces : ℕ
max_interfaces = 4

-- `g_net_interfaces`, `g_interface_count` and `g_active_net_driver_ops`
pub record Table : Type 0 where
  pub interfaces : List NetInterface
  pub count : ℕ
  pub active_ops : ℕ

abbrev pub blank : NetInterface
blank = record {
  id = 0;
  mac = replicate 6 0;
  ip = 0;
  mask = 0;
  gateway = 0;
  ops_table = 0;
  active = false;
  ready = false;
  is_online = false;
}

unfoldable pub net_init : Table
net_init = record { interfaces = replicate max_interfaces blank; count = 0; active_ops = 0 }

-- A NULL pointer to the address is `none`, and to the operations 0.
unfoldable pub driver_register : Option (List ℕ) → ℕ → Table → ℤ × Table
driver_register none ops t = (negsuc 0, t)
driver_register (some mac) ops t =
    if ops == 0 then (negsuc 0, t) else if leb max_interfaces t.count then (negsuc 0, t) else (
      pos t.count,
      record {
        interfaces = set t.interfaces t.count (record {
          id = t.count;
          mac = mac;
          ip = 0;
          mask = 0;
          gateway = 0;
          ops_table = ops;
          active = true;
          ready = false;
          is_online = false;
        });
        count = t.count + 1;
        active_ops = if t.count == 0 then ops else t.active_ops;
      },
    )

-- The getters: the answer is -1, -2, or what `field` reads.
unfoldable pub get_field {ℓ} : {A : Type ℓ} → (NetInterface → A) → ℕ → Table → ℤ × Option A
get_field field n t =
    let i = get_or t.interfaces n blank in
    if leb max_interfaces n
    then (negsuc 0, none)
    else if not i.active
    then (negsuc 1, none)
    else (pos 0, some (field i))

-- The setters: what `change` makes of the interface.
unfoldable pub set_field : (NetInterface → NetInterface) → ℕ → Table → ℤ × Table
set_field change n t =
    let i = get_or t.interfaces n blank in
    if leb max_interfaces n
    then (negsuc 0, t)
    else if not i.active
    then (negsuc 1, t)
    else (pos 0, record t { interfaces = set t.interfaces n (change i) })

unfoldable pub get_interface_mac : ℕ → Table → ℤ × Option (List ℕ)
unfolding get_field
get_interface_mac = get_field (λ i. i.mac)

unfoldable pub get_interface_ip : ℕ → Table → ℤ × Option ℕ
unfolding get_field
get_interface_ip = get_field (λ i. i.ip)

unfoldable pub get_interface_mask : ℕ → Table → ℤ × Option ℕ
unfolding get_field
get_interface_mask = get_field (λ i. i.mask)

unfoldable pub get_interface_gateway : ℕ → Table → ℤ × Option ℕ
unfolding get_field
get_interface_gateway = get_field (λ i. i.gateway)

unfoldable pub set_interface_ip : ℕ → Table → ℤ × Table
unfolding set_field
set_interface_ip ip = set_field (λ i. record i { ip = ip }) 0

unfoldable pub set_interface_mask : ℕ → Table → ℤ × Table
unfolding set_field
set_interface_mask mask = set_field (λ i. record i { mask = mask }) 0

unfoldable pub set_interface_gateway : ℕ → Table → ℤ × Table
unfolding set_field
set_interface_gateway gateway = set_field (λ i. record i { gateway = gateway }) 0

-- `net_get_interface_init`, which sets
unfoldable pub set_interface_init : Bool → ℕ → Table → ℤ × Table
unfolding set_field
set_interface_init flag = set_field (λ i. record i { ready = flag })

-- `net_get_interface_is_online`, which sets
unfoldable pub set_interface_online : Bool → ℕ → Table → ℤ × Table
unfolding set_field
set_interface_online flag = set_field (λ i. record i { is_online = flag })

-- `net_event_t`
pub data Event : Type 0 where
  quiet : Event
  link_up : Event
  link_down : Event

-- `NET_RX_QUEUE_SIZE`
abbrev pub queue_size : ℕ
queue_size = 64

-- The queue holds pointers to the copies; `memory` is what stands at each.
pub record Rx : Type 0 where
  pub queue : Ring
  pub memory : ℕ → List ℕ
  pub event : Event

-- `kmalloc` answers `block`, `none` for NULL.
unfoldable pub driver_receive : Option ℕ → List ℕ → Rx → ℤ × Rx
driver_receive block packet rx =
    if (length packet == 0) || ltb 1514 (length packet)
    then (negsuc 0, rx)
    else if (rx.queue.head + 1) % queue_size == rx.queue.tail
    then (negsuc 1, rx)
    else elim block [
      | none ↦ (negsuc 2, rx)
      | some p ↦ (
        pos 0,
        record rx {
          queue = record rx.queue {
            buf = set rx.queue.buf rx.queue.head p;
            head = (rx.queue.head + 1) % queue_size;
          };
          memory = λ q. if p == q then packet else rx.memory q;
        },
      )
    ]

unfoldable pub set_link_event : Event → Rx → Rx
set_link_event e rx = record rx { event = e }

unfoldable pub consume_link_event : Rx → Event × Rx
consume_link_event rx = (rx.event, record rx { event = quiet })

-- What a round of the thread calls, in the order of the calls.
pub data Call : Type 0 where
  init_dhcp : Call
  clear_leases : Call
  packet_input : List ℕ → Call
  ip_input : List ℕ → ℕ → Call
  arp_input : List ℕ → ℕ → Call
  kfree : ℕ → Call

unfoldable pub event_calls : Event → List Call
event_calls quiet = []
event_calls link_up = init_dhcp ∷ []
event_calls link_down = clear_leases ∷ []

-- The calls for one packet: `stray` is what lies behind it in memory, and the length that is passed on
-- is a `uint32_t`.
unfoldable pub packet_calls : List ℕ → List ℕ → List Call
packet_calls packet stray =
    let ethertype = get_or (packet ++ stray) 12 0 * 256 + get_or (packet ++ stray) 13 0 in
    let len = (length packet + 2 ^ 32 - 14) % 2 ^ 32 in
    if ethertype == 0x0800
    then ip_input (drop 14 (packet ++ stray)) len ∷ []
    else if ethertype == 0x0806
    then arp_input (drop 14 (packet ++ stray)) len ∷ []
    else []

-- One turn of the loop of `network_rx_thread`.
unfoldable pub rx_round : List ℕ → Rx → List Call × Rx
unfolding consume_link_event event_calls packet_calls
rx_round stray rx =
    let taken = consume_link_event rx in
    elim (get queue_size rx.queue) [
      | none ↦ (event_calls taken.0, taken.1)
      | some (p, queue) ↦ (
        event_calls taken.0
            ++ (packet_input (rx.memory p) ∷ packet_calls (rx.memory p) stray ++ (kfree p ∷ [])),
        record taken.1 { queue = queue },
      )
    ]
