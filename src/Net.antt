-- ===== src/Net.antt =====
-- The link layer of kernel/kernel/net: byte order, the frame headers of include/kernel/kernel/net/net.h,
-- the addresses of the network interface (net.c) and the frames that go out (ethernet.c).
pub mod Arp
pub mod Ip
pub mod Driver
use sirius_education.Common.{
  ℕ, ◌+◌, ◌*◌, ◌/◌, ◌%◌, Bool, List, [], ◌∷◌, ◌++◌, replicate, drop, length, ltb, if◌then◌else◌,
}

-- `htons`, and `ntohs`
unfoldable pub htons : ℕ → ℕ
htons v = v % 256 * 256 + v / 256 % 256

-- `ETH_P_IP`
abbrev pub eth_p_ip : ℕ
eth_p_ip = 0x0800

-- `ETH_P_ARP`
abbrev pub eth_p_arp : ℕ
eth_p_arp = 0x0806

-- `ethernet_header_t`
pub record EthernetHeader : Type 0 where
  pub dest_mac : List ℕ
  pub src_mac : List ℕ
  pub ethertype : ℕ

-- `arp_header_t`, its numbers as they lie in memory
pub record ArpHeader : Type 0 where
  pub hw_type : ℕ
  pub proto_type : ℕ
  pub hw_len : ℕ
  pub proto_len : ℕ
  pub opcode : ℕ
  pub src_mac : List ℕ
  pub src_ip : ℕ
  pub dest_mac : List ℕ
  pub dest_ip : ℕ

-- A frame given to the driver: a header with an ARP packet, or the bytes of a retained packet.
pub data Frame : Type 0 where
  arp_frame : EthernetHeader → ArpHeader → Frame
  raw_frame : List ℕ → Frame

-- `net_interface_t`, of the interface 0
pub record Interface : Type 0 where
  pub active : Bool
  pub mac : List ℕ
  pub ip : ℕ

-- `net_get_interface_mac` into a field that holds zeros, as in the requests
unfoldable pub get_interface_mac : Interface → List ℕ
get_interface_mac i = if i.active then i.mac else replicate 6 0

-- `net_get_interface_ip` into a variable that holds `before`
unfoldable pub get_interface_ip : Interface → ℕ → ℕ
get_interface_ip i before = if i.active then i.ip else before

-- `ethernet_output`: the frames it gives to the driver; a packet shorter than the header goes nowhere.
unfoldable pub ethernet_output : List ℕ → List ℕ → List Frame
ethernet_output packet hardware_mac =
    if ltb (length packet) 14 then [] else Frame.raw_frame (hardware_mac ++ drop 6 packet) ∷ []
