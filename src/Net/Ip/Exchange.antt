-- ===== src/Net/Ip/Exchange.antt =====
-- A packet that goes out and comes in at the other host.
use sirius_education.Common.{
  ℕ, ◌≢◌, ◌⊎◌, sym, Option, ne→==, replicate, drop, ◌+◌, ◌%◌, ◌^◌, ◌≤◌, ◌<◌, ◌≡◌, refl, ap, ◌∙◌,
  inl, inr, Bool, true, false, none, some, List, [], ◌∷◌, ◌++◌, length, length-append, take, ge→ltb,
  Bool-cases, arith,
}
use sirius_education.Common.Ints.{ℤ, negsuc}
use sirius_education.Net.{Frame, Interface, get_interface_ip}
use sirius_education.Net.Arp.{lookup, Arp, request, retain_packet, transmit}
use sirius_education.Net.Ip.{
  packet_of, Ip, Sent, Memory, source_mac, target, framed, route, ip_output, demultiplex, ip_input,
  Input, to_udp, to_tcp, to_icmp, refused,
}
use sirius_education.Net.Ip.Packets.{Accepts, packet-ip_input}

-- What the receiver does: it hands the payload to the protocol of its number, or refuses it with -6.
pub record HandedOver (protocol : ℕ) (payload : List ℕ) (src : ℕ) (r : Option Input) : Type 0 where
  pub udp : protocol ≡ 17 → r ≡ some (to_udp payload src)
  pub tcp : protocol ≡ 6 → r ≡ some (to_tcp payload src)
  pub icmp : protocol ≡ 1 → r ≡ some (to_icmp payload src 64)
  pub other : protocol ≢ 17 → protocol ≢ 6 → protocol ≢ 1 → r ≡ some (refused (negsuc 5))

-- The hardware address for a destination at once: all ones, that of the cache, or none.
abbrev pub Resolves : ℕ → Ip → Option (List ℕ) → Type 0
Resolves dest st mac =
    (((dest ≡ 0xFFFFFFFF) ⊎ (dest ≡ 0)) × (mac ≡ some (replicate 6 0xFF)))
    ⊎ ((dest ≢ 0xFFFFFFFF) × (dest ≢ 0) × (mac ≡ lookup dest st.arp.cache))

pub record Delivered (driver : Frame → ℤ) (memory : Memory) (here there : Interface)
    (fresh : List ℕ) (dest protocol : ℕ) (payload : List ℕ) (st : Ip) (sent : Sent) : Type 0 where
  pub packet : List ℕ
  pub source : List ℕ
  pub handed_over : HandedOver protocol payload (get_interface_ip here 0) (ip_input there packet)
  pub from_active : here.active ≡ true → source ≡ here.mac
  pub from_inactive : here.active ≡ false → source ≡ take 6 (drop 6 fresh)
  pub dropped : memory.packet ≡ false → sent ≡ record { result = negsuc 2; frames = []; state = st }
  pub at_once :
      memory.packet ≡ true
      → (mac : List ℕ) → Resolves dest st (some mac)
      → sent ≡ record {
        result = driver (Frame.raw_frame (mac ++ source ++ (0x08 ∷ 0x00 ∷ packet)));
        frames = Frame.raw_frame (mac ++ source ++ (0x08 ∷ 0x00 ∷ packet)) ∷ [];
        state = record st { packet_id = (st.packet_id + 1) % 65536 };
      }
  pub held :
      memory.packet ≡ true
      → memory.node ≡ true
      → Resolves dest st none
      → (sent.result ≡ negsuc 10)
        × (sent.state.arp.pending
            ≡ record { dest_ip = dest; packet = take 6 fresh ++ source ++ (0x08 ∷ 0x00 ∷ packet) }
              ∷ st.arp.pending)

demultiplex-HandedOver :
    (protocol : ℕ) (payload : List ℕ) (src : ℕ) (r : Option Input)
    → r ≡ some (demultiplex protocol payload src 64)
    → HandedOver protocol payload src r
unfolding demultiplex
demultiplex-HandedOver protocol payload src r e = record {
  udp = λ h. e ∙ rw h refl;
  tcp = λ h. e ∙ rw h refl;
  icmp = λ h. e ∙ rw h refl;
  other = λ a b c. e ∙ rw (ne→== protocol 17 a, ne→== protocol 6 b, ne→== protocol 1 c) refl;
}

target-Resolves :
    (dest : ℕ) (st : Ip) (mac : Option (List ℕ)) → Resolves dest st mac → target dest st ≡ mac
unfolding target
target-Resolves dest st mac (inl (inl e, m)) = rw (e, m) refl
target-Resolves dest st mac (inl (inr e, m)) = rw (e, m) refl
target-Resolves dest st mac (inr (a, b, m)) = rw (ne→== dest 0xFFFFFFFF a, ne→== dest 0 b) (sym m)

request-state :
    (driver : Frame → ℤ) (memory : Bool) (i : Interface) (dest : ℕ) (a : Arp)
    → (request driver memory i dest a).state ≡ a
unfolding request transmit
request-state driver memory i dest a = elim (Bool-cases memory) [
  | inl m ↦ rw m refl
  | inr n ↦ rw n refl
]

retained :
    (memory : Bool) (dest : ℕ) (xs ys zs : List ℕ) (a : Arp)
    → memory ≡ true
    → (retain_packet memory dest (xs ++ ys ++ (0x08 ∷ 0x00 ∷ zs)) a).1.pending
      ≡ record { dest_ip = dest; packet = xs ++ ys ++ (0x08 ∷ 0x00 ∷ zs) } ∷ a.pending
unfolding retain_packet
retained memory dest xs ys zs a m =
    rw m (ground (arith, length-append (xs ++ ys) (0x08 ∷ 0x00 ∷ zs)))

ip_output-packet :
    (driver : Frame → ℤ) (memory : Memory) (i : Interface) (fresh : List ℕ) (dest protocol : ℕ)
    (payload packet : List ℕ) (st : Ip)
    → length payload ≤ 1480
    → memory.packet ≡ true
    → packet_of st.packet_id protocol (get_interface_ip i 0) dest payload ≡ some packet
    → ip_output driver memory i fresh dest protocol payload st
      ≡ some (
          route driver memory i fresh dest packet
            (record st { packet_id = (st.packet_id + 1) % 65536 }))
unfolding ip_output route
ip_output-packet driver memory i fresh dest protocol payload packet st short m e =
    rw
      (
        exact_size,
        ge→ltb 1500 (20 + length payload) (omega (arith, short)),
        m,
        ge→ltb (20 + length payload) (20 + length payload) (omega arith),
      )
      (rw (e, ip_output) refl)
  where
    exact_size : (20 + length payload) % 2 ^ 32 ≡ 20 + length payload
    exact_size = omega (arith, short)

ip_output-dropped :
    (driver : Frame → ℤ) (memory : Memory) (i : Interface) (fresh : List ℕ) (dest protocol : ℕ)
    (payload : List ℕ) (st : Ip)
    → length payload ≤ 1480
    → memory.packet ≡ false
    → ip_output driver memory i fresh dest protocol payload st
      ≡ some (record { result = negsuc 2; frames = []; state = st })
unfolding ip_output
ip_output-dropped driver memory i fresh dest protocol payload st short m =
    rw (exact_size, ge→ltb 1500 (20 + length payload) (omega (arith, short)), m) refl
  where
    exact_size : (20 + length payload) % 2 ^ 32 ≡ 20 + length payload
    exact_size = omega (arith, short)

module _ (driver : Frame → ℤ) (memory : Memory) (i : Interface) (fresh : List ℕ) (dest : ℕ)
    (packet : List ℕ) (st : Ip) where
  route-at_once :
      (mac : List ℕ)
      → target dest st ≡ some mac
      → route driver memory i fresh dest packet st ≡ record {
        result = driver (Frame.raw_frame (framed i fresh mac packet));
        frames = Frame.raw_frame (framed i fresh mac packet) ∷ [];
        state = st;
      }
  unfolding route
  route-at_once mac t = rw (t, route) refl

  route-held :
      memory.node ≡ true
      → target dest st ≡ none
      → ((route driver memory i fresh dest packet st).result ≡ negsuc 10)
        × ((route driver memory i fresh dest packet st).state.arp.pending
            ≡ record { dest_ip = dest; packet = framed i fresh (take 6 fresh) packet }
              ∷ st.arp.pending)
  unfolding route
  route-held n t =
      rw (t, route)
        (
          refl,
          ap (λ (a : Arp). a.pending)
                (request-state driver memory.request i dest
                  (retain_packet memory.node dest (framed i fresh (take 6 fresh) packet) st.arp).1)
              ∙ retained memory.node dest (take 6 fresh) (source_mac i fresh) packet st.arp n,
        )

-- What `ip_output` does with a payload of at most 1480 bytes for a 32-bit address that the receiver accepts,
-- from an interface with a 32-bit address: with no memory nothing and -3. Else there is a packet that the
-- receiver hands with the same payload and source to UDP, TCP or ICMP if the protocol is 17, 6 or 1, and
-- refuses with -6 if it is another: to a broadcast address or 0, or where the cache has the hardware
-- address, one frame with that address (all ones for the former), that of the interface and the packet goes
-- out; else the answer is -11, and if the node has memory that very frame, its first six bytes still to be
-- filled, waits before all that wait already.
pub ip_output-Delivered :
    (driver : Frame → ℤ) (memory : Memory) (here there : Interface) (fresh : List ℕ)
    (dest protocol : ℕ) (payload : List ℕ) (st : Ip)
    → protocol < 256
    → get_interface_ip here 0 < 2 ^ 32
    → dest < 2 ^ 32
    → length payload ≤ 1480
    → Accepts there dest
    → (sent : Sent) × (ip_output driver memory here fresh dest protocol payload st ≡ some sent)
      × Delivered driver memory here there fresh dest protocol payload st sent
ip_output-Delivered driver memory here there fresh dest protocol payload st hp hs hd short acc =
    elim (Bool-cases memory.packet) [
      | inl m ↦ (
        route driver memory here fresh dest p.0 counted,
        ip_output-packet driver memory here fresh dest protocol payload p.0 st short m p.1,
        record {
          packet = p.0;
          source = source_mac here fresh;
          handed_over = demultiplex-HandedOver protocol payload (get_interface_ip here 0) _ p.2;
          from_active = λ a. rw a refl;
          from_inactive = λ a. rw a refl;
          dropped = λ n. cc;
          at_once = λ n mac t.
              route-at_once driver memory here fresh dest p.0 counted mac
                (same ∙ target-Resolves dest st _ t);
          held = λ n node t.
              route-held driver memory here fresh dest p.0 counted node
                (same ∙ target-Resolves dest st _ t);
        },
      )
      | inr n ↦ (
        record { result = negsuc 2; frames = []; state = st },
        ip_output-dropped driver memory here fresh dest protocol payload st short n,
        record {
          packet = p.0;
          source = source_mac here fresh;
          handed_over = demultiplex-HandedOver protocol payload (get_interface_ip here 0) _ p.2;
          from_active = λ a. rw a refl;
          from_inactive = λ a. rw a refl;
          dropped = λ m. refl;
          at_once = λ m mac t. cc;
          held = λ m node t. cc;
        },
      )
    ]
  where
    p :
        (q : List ℕ) × (packet_of st.packet_id protocol (get_interface_ip here 0) dest payload
          ≡ some q)
        × (ip_input there q ≡ some (demultiplex protocol payload (get_interface_ip here 0) 64))
    p =
        packet-ip_input there st.packet_id protocol (get_interface_ip here 0) dest payload hp hs hd
          short acc

    counted : Ip
    counted = record st { packet_id = (st.packet_id + 1) % 65536 }

    same : target dest counted ≡ target dest st
    same = unfold target in refl
