-- ===== src/Net/Arp.antt =====
-- The address resolution of kernel/kernel/net/arp.c: the cache, the packets that wait for an address,
-- and the requests and replies. Whether `kmalloc` has memory is an argument, the driver's answer to a
-- frame a parameter.
pub mod Cache
pub mod Learn
pub mod Exchange
use sirius_education.Common.{
  ℕ, ◌+◌, ◌%◌, Bool, true, false, ◌&&◌, ◌||◌, not, Option, none, some, List, [], ◌∷◌, ◌++◌,
  replicate, take, drop, set, length, ltb, ◌==◌, if◌then◌else◌,
}
use sirius_education.Common.Ints.{ℤ, pos, negsuc}
use sirius_education.Net.{
  htons, eth_p_ip, eth_p_arp, EthernetHeader, ArpHeader, Frame, Interface, get_interface_mac,
  get_interface_ip, ethernet_output,
}

-- `ARP_CACHE_MAX`
abbrev pub cache_max : ℕ
cache_max = 32

-- `ARP_OP_REQUEST`
abbrev pub op_request : ℕ
op_request = 1

-- `ARP_OP_REPLY`
abbrev pub op_reply : ℕ
op_reply = 2

-- `arp_entry_t`
pub record Entry : Type 0 where
  pub ip_addr : ℕ
  pub mac_addr : List ℕ
  pub is_valid : Bool

-- `arp_pending_node_t`; `packet_len` is the length of the packet.
pub record Pending : Type 0 where
  pub dest_ip : ℕ
  pub packet : List ℕ

-- `g_arp_cache`, `g_arp_victim_idx` and the list from `g_arp_pending_queue_head` on
pub record Arp : Type 0 where
  pub cache : List Entry
  pub victim_idx : ℕ
  pub pending : List Pending

-- `arp_init`, with the static values of the rest
unfoldable pub init : Arp
init = record {
  cache = replicate cache_max (record { ip_addr = 0; mac_addr = replicate 6 0; is_valid = false });
  victim_idx = 0;
  pending = [];
}

-- `g_arp_cache[i].is_valid && g_arp_cache[i].ip_addr == ip_addr`
abbrev pub matches : ℕ → Entry → Bool
matches ip e = e.is_valid && (e.ip_addr == ip)

-- `arp_cache_lookup`; `none` for -1
unfoldable pub lookup : ℕ → List Entry → Option (List ℕ)
lookup ip [] = none
lookup ip (e ∷ es) = if matches ip e then some e.mac_addr else lookup ip es

-- The first loop of `arp_cache_insert`: a known address gets its new pair.
unfoldable pub update : ℕ → List ℕ → List Entry → Option (List Entry)
update ip mac [] = none
update ip mac (e ∷ es) =
    let rest = update ip mac es in
    if matches ip e
    then some (record e { mac_addr = mac } ∷ es)
    else elim rest [ none ↦ none | some es' ↦ some (e ∷ es') ]

-- The second loop: the first free slot.
unfoldable pub fill : ℕ → List ℕ → List Entry → Option (List Entry)
fill ip mac [] = none
fill ip mac (e ∷ es) =
    let rest = fill ip mac es in
    if not e.is_valid
    then some (record { ip_addr = ip; mac_addr = mac; is_valid = true } ∷ es)
    else elim rest [ none ↦ none | some es' ↦ some (e ∷ es') ]

-- `arp_cache_insert`
unfoldable pub insert : ℕ → List ℕ → Arp → Arp
insert ip mac a = elim (update ip mac a.cache) [
  | some es ↦ record a { cache = es }
  | none ↦ elim (fill ip mac a.cache) [
    | some es ↦ record a { cache = es }
    | none ↦ record a {
      cache = set a.cache a.victim_idx (record { ip_addr = ip; mac_addr = mac; is_valid = true });
      victim_idx = (a.victim_idx + 1) % cache_max;
    }
  ]
]

-- `arp_retain_packet`
unfoldable pub retain_packet : Bool → ℕ → List ℕ → Arp → ℤ × Arp
retain_packet memory dest_ip packet a =
    if length packet == 0
    then (negsuc 0, a)
    else if not memory
    then (negsuc 0, a)
    else (pos 0, record a { pending = record { dest_ip = dest_ip; packet = packet } ∷ a.pending })

-- The loop of `arp_flush_pending_packets`: the frames that go out, and the nodes that stay.
unfoldable pub flush : ℕ → List ℕ → List Pending → List Frame × List Pending
flush ip mac [] = ([], [])
flush ip mac (n ∷ ns) =
    let rest = flush ip mac ns in
    if n.dest_ip == ip
    then (ethernet_output n.packet mac ++ rest.0, rest.1)
    else (rest.0, n ∷ rest.1)

-- The packet of `arp_request`.
unfoldable pub request_frame : Interface → ℕ → Frame
request_frame i target_ip =
    Frame.arp_frame
      (record {
        dest_mac = replicate 6 0xFF;
        src_mac = get_interface_mac i;
        ethertype = htons eth_p_arp;
      })
      (record {
        hw_type = htons 1;
        proto_type = htons eth_p_ip;
        hw_len = 6;
        proto_len = 4;
        opcode = htons op_request;
        src_mac = get_interface_mac i;
        src_ip = get_interface_ip i 0x10101010;
        dest_mac = replicate 6 0;
        dest_ip = target_ip;
      })

-- The packet of `arp_gratuitous`.
unfoldable pub gratuitous_frame : Interface → ℕ → Frame
gratuitous_frame i my_new_ip =
    Frame.arp_frame
      (record {
        dest_mac = replicate 6 0xFF;
        src_mac = get_interface_mac i;
        ethertype = htons eth_p_arp;
      })
      (record {
        hw_type = htons 1;
        proto_type = htons eth_p_ip;
        hw_len = 6;
        proto_len = 4;
        opcode = htons op_request;
        src_mac = get_interface_mac i;
        src_ip = my_new_ip;
        dest_mac = replicate 6 0;
        dest_ip = my_new_ip;
      })

-- `net_get_interface_mac` into a buffer that is not cleared, at the offset `place`: what the allocation
-- left there, `fresh`, stays when the interface is not active.
unfoldable pub mac_into : List ℕ → ℕ → Interface → List ℕ
mac_into fresh place i = if i.active then i.mac else take 6 (drop place fresh)

-- The answer of `arp_input` to a request `h` for the address `my_ip`, in the buffer `fresh`.
unfoldable pub reply_frame : List ℕ → Interface → ℕ → ArpHeader → Frame
reply_frame fresh i my_ip h =
    Frame.arp_frame
      (record { dest_mac = h.src_mac; src_mac = mac_into fresh 6 i; ethertype = htons eth_p_arp })
      (record {
        hw_type = htons 1;
        proto_type = htons eth_p_ip;
        hw_len = 6;
        proto_len = 4;
        opcode = htons op_reply;
        src_mac = mac_into fresh 22 i;
        src_ip = my_ip;
        dest_mac = h.src_mac;
        dest_ip = h.src_ip;
      })

-- What a call answers, the frames it gives to the driver, and the state it leaves.
pub record Effect : Type 0 where
  pub result : ℤ
  pub frames : List Frame
  pub state : Arp

-- The checks of `arp_input` on the types and the lengths.
unfoldable pub well_formed : ArpHeader → Bool
well_formed h =
    (htons h.hw_type == 1)
    && (htons h.proto_type == eth_p_ip)
    && (h.hw_len == 6)
    && (h.proto_len == 4)

module _ (driver : Frame → ℤ) where
  -- `kmalloc`, `net_driver_transmit`, `kfree`
  unfoldable pub transmit : Bool → ℤ → Frame → Arp → Effect
  transmit memory out_of_memory f a =
      if memory
      then record { result = driver f; frames = f ∷ []; state = a }
      else record { result = out_of_memory; frames = []; state = a }

  -- `arp_request`
  unfoldable pub request : Bool → Interface → ℕ → Arp → Effect
  unfolding transmit
  request memory i target_ip a = transmit memory (negsuc 0) (request_frame i target_ip) a

  -- `arp_gratuitous`
  unfoldable pub gratuitous : Bool → Interface → ℕ → Arp → Effect
  unfolding transmit
  gratuitous memory i my_new_ip a = transmit memory (negsuc 0) (gratuitous_frame i my_new_ip) a

  -- The two cases of `arp_input`, on the state that has learned the sender.
  unfoldable pub answer : Bool → List ℕ → Interface → ArpHeader → Arp → Effect
  unfolding transmit
  answer memory fresh i h a =
      if htons h.opcode == op_request
      then (let my_ip = get_interface_ip i 0 in
          if h.dest_ip == my_ip
          then transmit memory (negsuc 2) (reply_frame fresh i my_ip h) a
          else record { result = negsuc 0; frames = []; state = a })
      else if htons h.opcode == op_reply
      then (let sent = flush h.src_ip h.src_mac a.pending in
          record { result = negsuc 0; frames = sent.0; state = record a { pending = sent.1 } })
      else record { result = negsuc 0; frames = []; state = a }

  -- `arp_input`
  unfoldable pub input : Bool → List ℕ → Interface → ℕ → ArpHeader → Arp → Effect
  unfolding answer well_formed
  input memory fresh i packet_len h a =
      if ltb packet_len 28
      then record { result = negsuc 0; frames = []; state = a }
      else if not (well_formed h)
      then record { result = negsuc 1; frames = []; state = a }
      else answer memory fresh i h (insert h.src_ip h.src_mac a)
