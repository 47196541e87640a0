-- ===== src/Net/Ip/Packets.antt =====
-- A packet as `ip_output` builds it and `ip_input` reads it.
use Prim.{tt}
use sirius_education.Common.{
  ℕ, zero, suc, ◌+◌, ◌-◌, ◌*◌, ◌/◌, ◌%◌, ◌^◌, ◌≤◌, ◌<◌, ◌≡◌, refl, ap, ◌∙◌, ◌⊎◌, some, List, [],
  ◌∷◌, ◌++◌, length, take, drop, get_or, arith,
}
use sirius_education.Net.{Interface, get_interface_ip}
use sirius_education.Net.Ip.{
  ip_calculate_checksum, header_start, addresses, bytes32, read32, packet_of, demultiplex, ip_input,
}
use sirius_education.Net.Ip.Checksum.{AreBytes, IsEven, checksum-Verified}

-- The destination is the interface's own address, all ones, or anything while it has no address.
abbrev pub Accepts : Interface → ℕ → Type 0
Accepts i dest = (dest ≡ get_interface_ip i 0) ⊎ (dest ≡ 0xFFFFFFFF) ⊎ (get_interface_ip i 0 ≡ 0)

take-length : (xs : List ℕ) (n : ℕ) → n ≡ length xs → take n xs ≡ xs
take-length [] zero h = refl
take-length [] (suc n) h = refl
take-length (x ∷ xs) zero h = absurd (omega (arith, h))
take-length (x ∷ xs) (suc n) h = ap (λ (r : List ℕ). x ∷ r) (take-length xs n (omega (arith, h)))

-- The way of a packet with a header of 20 bytes through the checks.
ip_input_passes :
    (i : Interface) (p : List ℕ)
    → 20 ≤ length p
    → get_or p 0 0 ≡ 0x45
    → ip_calculate_checksum (take 20 p) ≡ some 0
    → get_or p 2 0 * 256 + get_or p 3 0 ≤ length p
    → 20 ≤ get_or p 2 0 * 256 + get_or p 3 0
    → Accepts i (read32 p 16)
    → ip_input i p
      ≡ some (
          demultiplex
            (get_or p 9 0)
            (take (get_or p 2 0 * 256 + get_or p 3 0 - 20) (drop 20 p))
            (read32 p 12)
            (get_or p 8 0))
unfolding ip_input
ip_input_passes i p long first sum fits holds acc =
    rw first (rw sum (ground (arith, long, fits, holds, acc)))

header-AreBytes :
    (total_len id protocol : ℕ) → protocol < 256 → AreBytes (header_start total_len id protocol)
unfolding header_start
header-AreBytes total_len id protocol h = omega (arith, h)

addresses-AreBytes : (src dest : ℕ) → AreBytes (addresses src dest)
unfolding addresses
addresses-AreBytes src dest = omega arith

bytes32-read :
    (n : ℕ)
    → n < 2 ^ 32
    → n % 256 + 256 * (n / 256 % 256) + 65536 * (n / 65536 % 256) + 16777216 * (n / 16777216 % 256)
      ≡ n
bytes32-read n h = omega (arith, h)

header-IsEven : (total_len id protocol : ℕ) → IsEven (header_start total_len id protocol)
unfolding header_start
header-IsEven total_len id protocol = tt

-- The length that the header declares.
declared : (n : ℕ) → n ≤ 1480 → (20 + n) / 256 % 256 * 256 + (20 + n) % 256 ≡ 20 + n
declared n h = omega (arith, h)

packet_of-eq :
    (id protocol src dest sum : ℕ) (payload : List ℕ)
    → ip_calculate_checksum
        (header_start (20 + length payload) id protocol ++ (0 ∷ 0 ∷ addresses src dest))
      ≡ some sum
    → packet_of id protocol src dest payload
      ≡ some (
          header_start (20 + length payload) id protocol
          ++ (sum % 256 ∷ sum / 256 ∷ addresses src dest)
          ++ payload)
unfolding packet_of
packet_of-eq id protocol src dest sum payload e = rw (e, packet_of) refl

packet_accepted :
    (i : Interface) (id protocol src dest sum : ℕ) (payload : List ℕ)
    → src < 2 ^ 32
    → dest < 2 ^ 32
    → length payload ≤ 1480
    → Accepts i dest
    → ip_calculate_checksum (
        header_start (20 + length payload) id protocol
        ++ (sum % 256 ∷ sum / 256 ∷ addresses src dest))
      ≡ some 0
    → ip_input i (
        header_start (20 + length payload) id protocol
        ++ (sum % 256 ∷ sum / 256 ∷ addresses src dest)
        ++ payload)
      ≡ some (demultiplex protocol payload src 64)
unfolding header_start addresses
packet_accepted i id protocol src dest sum payload hs hd short acc good =
    ip_input_passes i _ (omega arith) refl good (omega (arith, short)) (omega (arith, short))
      (rw (bytes32-read dest hd) acc)
    ∙ (ap (λ (l : List ℕ). some (demultiplex protocol l (read32 (bytes32 src) 0) 64))
          (take-length payload _ (omega (arith, short)))
        ∙ ap (λ (a : ℕ). some (demultiplex protocol payload a 64)) (bytes32-read src hs))

-- A packet that is built with any id for a protocol, of addresses of 32 bits and a payload that fits 1,500
-- bytes with the header, comes out with a checksum, and a host that accepts its destination hands the very
-- payload to the protocol, with the source address and the time to live 64.
pub packet-ip_input :
    (i : Interface) (id protocol src dest : ℕ) (payload : List ℕ)
    → protocol < 256
    → src < 2 ^ 32
    → dest < 2 ^ 32
    → length payload ≤ 1480
    → Accepts i dest
    → (p : List ℕ) × (packet_of id protocol src dest payload ≡ some p)
      × (ip_input i p ≡ some (demultiplex protocol payload src 64))
packet-ip_input i id protocol src dest payload hp hs hd short acc =
    (packet, built, packet_accepted i id protocol src dest sums.0 payload hs hd short acc sums.3)
  where
    start : List ℕ
    start = header_start (20 + length payload) id protocol

    sums :
        (sum : ℕ) × (ip_calculate_checksum (start ++ (0 ∷ 0 ∷ addresses src dest)) ≡ some sum)
        × (sum < 65536)
        × (ip_calculate_checksum (start ++ (sum % 256 ∷ sum / 256 ∷ addresses src dest)) ≡ some 0)
    sums =
        checksum-Verified start (addresses src dest)
          (header-AreBytes (20 + length payload) id protocol hp) (addresses-AreBytes src dest)
          (header-IsEven (20 + length payload) id protocol)
          (unfold header_start addresses in omega arith)

    packet : List ℕ
    packet = start ++ (sums.0 % 256 ∷ sums.0 / 256 ∷ addresses src dest) ++ payload

    built : packet_of id protocol src dest payload ≡ some packet
    built = packet_of-eq id protocol src dest sums.0 payload sums.1
