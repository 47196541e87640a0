-- ===== src/Net/Ip.antt =====
-- kernel/kernel/net/ip.c and icmp.c: the checksum, the packets that go out and those that come in.
--
-- A packet is its bytes; a number of several bytes lies in memory with its low byte first.
pub mod Packets
pub mod Checksum
pub mod Exchange
pub mod Echo
use sirius_education.Common.{
  ℕ, zero, suc, ◌+◌, ◌-◌, ◌*◌, ◌/◌, ◌%◌, ◌^◌, Bool, true, false, not, ◌&&◌, ◌||◌, Option, none,
  some, List, [], ◌∷◌, ◌++◌, length, replicate, take, drop, get_or, ltb, ◌==◌, if◌then◌else◌,
}
use sirius_education.Common.Ints.{ℤ, pos, negsuc}
use sirius_education.Net.{Frame, Interface, get_interface_ip}
use sirius_education.Net.Arp.{Arp, lookup, retain_packet, request}

-- The sum of the 16-bit words, in a `uint32_t`.
unfoldable pub sum_words : ℕ → List ℕ → ℕ
sum_words sum [] = sum
sum_words sum (a ∷ []) = (sum + a) % 2 ^ 32
sum_words sum (a ∷ (b ∷ r)) = sum_words ((sum + (a + b * 256)) % 2 ^ 32) r

-- `while (sum >> 16)`; `none` means that the fuel ran out.
unfoldable pub fold_carry : ℕ → ℕ → Option ℕ
fold_carry zero sum = none
fold_carry (suc fuel) sum =
    let rest = fold_carry fuel (sum % 65536 + sum / 65536) in
    if sum / 65536 == 0 then some sum else rest

-- The complement of a 16-bit number.
abbrev pub invert16 : ℕ → ℕ
invert16 n = 65535 - n

-- The rounds of the second loop of `ip_calculate_checksum`: a `uint32_t` needs no more.
abbrev pub rounds : ℕ
rounds = 3

unfoldable pub ip_calculate_checksum : List ℕ → Option ℕ
ip_calculate_checksum bytes = elim (fold_carry rounds (sum_words 0 bytes)) [
  | none ↦ none
  | some sum ↦ some (invert16 (sum % 65536))
]

-- A `uint32_t` in memory.
abbrev pub bytes32 : ℕ → List ℕ
bytes32 n = n % 256 ∷ n / 256 % 256 ∷ n / 65536 % 256 ∷ n / 16777216 % 256 ∷ []

abbrev pub read32 : List ℕ → ℕ → ℕ
read32 bytes i =
    get_or bytes i 0
    + 256 * get_or bytes (i + 1) 0
    + 65536 * get_or bytes (i + 2) 0
    + 16777216 * get_or bytes (i + 3) 0

-- The header that `ip_output` builds, up to the checksum; `htons` puts the high byte first.
unfoldable pub header_start : ℕ → ℕ → ℕ → List ℕ
header_start total_len id protocol =
    0x45
    ∷ 0
    ∷ total_len / 256 % 256
    ∷ total_len % 256
    ∷ id / 256 % 256
    ∷ id % 256
    ∷ 0x40
    ∷ 0
    ∷ 64
    ∷ protocol
    ∷ []

unfoldable pub addresses : ℕ → ℕ → List ℕ
addresses src dest = bytes32 src ++ bytes32 dest

-- The packet with its checksum; `none` means that the checksum ran out of fuel.
unfoldable pub packet_of : ℕ → ℕ → ℕ → ℕ → List ℕ → Option (List ℕ)
packet_of id protocol src dest payload =
    let start = header_start (20 + length payload) id protocol in
    elim (ip_calculate_checksum (start ++ (0 ∷ 0 ∷ addresses src dest))) [
      | none ↦ none
      | some sum ↦ some (start ++ (sum % 256 ∷ sum / 256 ∷ addresses src dest) ++ payload)
    ]

-- `g_ip_packet_id` and the state of the address resolution.
pub record Ip : Type 0 where
  pub packet_id : ℕ
  pub arp : Arp

pub record Sent : Type 0 where
  pub result : ℤ
  pub frames : List Frame
  pub state : Ip

-- What `kmalloc` has: memory for the packet, for the node that retains it and for the request.
pub record Memory : Type 0 where
  pub packet : Bool
  pub node : Bool
  pub request : Bool

-- The source address of the frame: the fresh buffer keeps its bytes when the interface is not active.
abbrev pub source_mac : Interface → List ℕ → List ℕ
source_mac i fresh = if i.active then i.mac else take 6 (drop 6 fresh)

-- The hardware address that a packet goes to at once: that of a broadcast, or the one in the cache.
unfoldable pub target : ℕ → Ip → Option (List ℕ)
target dest_ip st =
    if (dest_ip == 0xFFFFFFFF) || (dest_ip == 0)
    then some (replicate 6 0xFF)
    else lookup dest_ip st.arp.cache

-- The Ethernet frame of a packet; `fresh` is what the new buffer holds.
abbrev pub framed : Interface → List ℕ → List ℕ → List ℕ → List ℕ
framed i fresh mac packet = mac ++ source_mac i fresh ++ (0x08 ∷ 0x00 ∷ packet)

module _ (driver : Frame → ℤ) where
  -- `ip_output` from the choice of the hardware address on.
  unfoldable pub route : Memory → Interface → List ℕ → ℕ → List ℕ → Ip → Sent
  route memory i fresh dest_ip packet st = elim (target dest_ip st) [
    | some mac ↦ record {
      result = driver (Frame.raw_frame (framed i fresh mac packet));
      frames = Frame.raw_frame (framed i fresh mac packet) ∷ [];
      state = st;
    }
    | none ↦
        (let retained =
            retain_packet memory.node dest_ip (framed i fresh (take 6 fresh) packet) st.arp in
          let asked = request driver memory.request i dest_ip retained.1 in
          record {
            result = negsuc 10;
            frames = asked.frames;
            state = record st { arp = asked.state };
          })
  ]

  -- The sizes are `uint32_t`, so a payload of nearly 2^32 bytes passes the test. `none` means that the
  -- checksum ran out of fuel, or that such a payload is copied past the end of its buffer.
  unfoldable pub ip_output : Memory → Interface → List ℕ → ℕ → ℕ → List ℕ → Ip → Option Sent
  ip_output memory i fresh dest_ip protocol payload st =
      let ip_packet_size = (20 + length payload) % 2 ^ 32 in
      if ltb 1500 ip_packet_size
      then some (record { result = negsuc 1; frames = []; state = st })
      else if not memory.packet
      then some (record { result = negsuc 2; frames = []; state = st })
      else if ltb ip_packet_size (20 + length payload)
      then none
      else elim (packet_of st.packet_id protocol (get_interface_ip i 0) dest_ip payload) [
        | none ↦ none
        | some packet ↦ some (
            route memory i fresh dest_ip packet
              (record st { packet_id = (st.packet_id + 1) % 65536 }))
      ]

-- What `ip_input` does with a packet: it answers a number, or calls the next protocol with the payload and
-- the source address, and for ICMP the time to live.
pub data Input : Type 0 where
  refused : ℤ → Input
  to_udp : List ℕ → ℕ → Input
  to_tcp : List ℕ → ℕ → Input
  to_icmp : List ℕ → ℕ → ℕ → Input

unfoldable pub demultiplex : ℕ → List ℕ → ℕ → ℕ → Input
demultiplex protocol payload src ttl =
    if protocol == 17
    then to_udp payload src
    else if protocol == 6
    then to_tcp payload src
    else if protocol == 1
    then to_icmp payload src ttl
    else refused (negsuc 5)

unfoldable pub ip_input : Interface → List ℕ → Option Input
ip_input i packet =
    let ihl = get_or packet 0 0 % 16 * 4 in
    let total_len = get_or packet 2 0 * 256 + get_or packet 3 0 in
    let my_ip = get_interface_ip i 0 in
    let dest_ip = read32 packet 16 in
    if ltb (length packet) 20
    then some (refused (negsuc 0))
    else if not (get_or packet 0 0 / 16 == 4)
    then some (refused (negsuc 1))
    else if ltb ihl 20 || ltb (length packet) ihl
    then some (refused (negsuc 2))
    else elim (ip_calculate_checksum (take ihl packet)) [
      | none ↦ none
      | some sum ↦
          (if not (sum == 0)
            then some (refused (negsuc 3))
            else if ltb (length packet) total_len || ltb total_len ihl
            then some (refused (negsuc 4))
            else if not (dest_ip == my_ip) && (not (dest_ip == 0xFFFFFFFF) && not (my_ip == 0))
            then some (refused (pos 0))
            else some (
                demultiplex (get_or packet 9 0) (take (total_len - ihl) (drop ihl packet))
                  (read32 packet 12) (get_or packet 8 0)))
    ]

-- The answer of `icmp_input` to a packet: `none` for no answer, and the payload of the echo reply.
unfoldable pub echo_reply : List ℕ → Option (List ℕ)
echo_reply bytes = elim (ip_calculate_checksum (0 ∷ 0 ∷ 0 ∷ 0 ∷ drop 4 bytes)) [
  | none ↦ none
  | some sum ↦ some (0 ∷ 0 ∷ sum % 256 ∷ sum / 256 ∷ drop 4 bytes)
]

module _ (driver : Frame → ℤ) where
  -- `memory` is for the reply, `sending` for `ip_output`; the printed line is left out.
  unfoldable pub icmp_input : Bool → Memory → Interface → List ℕ → List ℕ → ℕ → Ip → Option Sent
  icmp_input memory sending i fresh bytes src_ip st =
      if ltb (length bytes) 8
      then some (record { result = negsuc 0; frames = []; state = st })
      else if not (get_or bytes 0 0 == 8)
      then some (record { result = pos 0; frames = []; state = st })
      else if not memory
      then some (record { result = negsuc 1; frames = []; state = st })
      else elim (echo_reply bytes) [
        | none ↦ none
        | some reply ↦ ip_output driver sending i fresh src_ip 1 reply st
      ]
