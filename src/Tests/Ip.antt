-- ===== src/Tests/Ip.antt =====
-- Packets, checksums, interfaces and the queue of received packets at concrete states.
use Prim.{tt}
use sirius_education.Common.{
  ℕ, ◌/◌, ◌%◌, ◌≡◌, ◌<◌, inl, refl, true, some, List, [], ◌∷◌, ◌++◌, length, drop, replicate,
  get_or, get_or-replicate, ◌==◌, arith, if◌then◌else◌,
}
use sirius_education.Common.Ints.{ℤ, pos}
use sirius_education.Ring.{contents, window, count}
use sirius_education.Ring.Contents.{IsValid}
use sirius_education.Net.{Frame, Interface, get_interface_ip}
use sirius_education.Net.Ip.{
  sum_words, fold_carry, ip_calculate_checksum, Ip, Sent, Memory, ip_output, icmp_input,
}
use sirius_education.Net.Ip.Checksum.{checksum-Verified}
use sirius_education.Net.Ip.Exchange.{Delivered, ip_output-Delivered}
use sirius_education.Net.Ip.Echo.{icmp_input-Replied}
use sirius_education.Net.Driver.{
  queue_size, Event, Rx, driver_receive, rx_round, blank, net_init, driver_register,
}
use sirius_education.Net.Driver.Queue.{Received, driver_receive-Received}
use sirius_education.Net.Driver.Rounds.{Handled, rx_round-Handled}
use sirius_education.Net.Driver.Interfaces.{Registered, driver_register-Registered}
use sirius_education.Net.Driver.Interfaces

-- The header of RFC 1071's arithmetic: 0x0001 + 0xf203 + 0xf4f5 + 0xf6f7 folds to 0xddf2.
checksum_test :
    ip_calculate_checksum (0x00 ∷ 0x01 ∷ 0xf2 ∷ 0x03 ∷ 0xf4 ∷ 0xf5 ∷ 0xf6 ∷ 0xf7 ∷ []) ≡ some 0x0d22
unfolding ip_calculate_checksum sum_words fold_carry
checksum_test = refl

checksum-Verified_example :
    (sum : ℕ) × (ip_calculate_checksum (0x45 ∷ 0x00 ∷ (0 ∷ 0 ∷ 0x7f ∷ 0x01 ∷ 0x02 ∷ [])) ≡ some sum)
    × (sum < 65536)
    × (ip_calculate_checksum (0x45 ∷ 0x00 ∷ (sum % 256 ∷ sum / 256 ∷ 0x7f ∷ 0x01 ∷ 0x02 ∷ []))
        ≡ some 0)
checksum-Verified_example =
    checksum-Verified (0x45 ∷ 0x00 ∷ []) (0x7f ∷ 0x01 ∷ 0x02 ∷ []) (omega arith) (omega arith) tt
      (omega arith)

abbrev driver : Frame → ℤ
driver f = pos 0

abbrev memory : Memory
memory = record { packet = true; node = true; request = true }

abbrev here : Interface
here = record { active = true; mac = 1 ∷ 2 ∷ 3 ∷ 4 ∷ 5 ∷ 6 ∷ []; ip = 0x0200A8C0 }

abbrev there : Interface
there = record { active = true; mac = 6 ∷ 5 ∷ 4 ∷ 3 ∷ 2 ∷ 1 ∷ []; ip = 0x0300A8C0 }

abbrev state : Ip
state = record {
  packet_id = 7;
  arp = record {
    cache =
        record { ip_addr = 0x0300A8C0; mac_addr = 6 ∷ 5 ∷ 4 ∷ 3 ∷ 2 ∷ 1 ∷ []; is_valid = true }
        ∷ [];
    victim_idx = 0;
    pending = [];
  };
}

ip_output-Delivered_example :
    (sent : Sent) × (ip_output driver memory here [] 0x0300A8C0 17 (1 ∷ 2 ∷ 3 ∷ []) state
      ≡ some sent)
    × Delivered driver memory here there [] 0x0300A8C0 17 (1 ∷ 2 ∷ 3 ∷ []) state sent
unfolding get_interface_ip
ip_output-Delivered_example =
    ip_output-Delivered driver memory here there [] 0x0300A8C0 17 (1 ∷ 2 ∷ 3 ∷ []) state
      (omega arith) (omega arith) (omega arith) (omega arith) (inl refl)

abbrev ping : List ℕ
ping = 8 ∷ 0 ∷ 0 ∷ 0 ∷ 0x12 ∷ 0x34 ∷ 0 ∷ 1 ∷ 0x61 ∷ []

icmp_input-Replied_example :
    (reply : List ℕ) × (get_or reply 0 1 ≡ 0)
    × (get_or reply 1 1 ≡ 0)
    × (drop 4 reply ≡ drop 4 ping)
    × (length reply ≡ length ping)
    × (ip_calculate_checksum reply ≡ some 0)
    × (icmp_input driver true memory here [] ping 0x0300A8C0 state
        ≡ ip_output driver memory here [] 0x0300A8C0 1 reply state)
icmp_input-Replied_example =
    icmp_input-Replied driver memory here [] ping 0x0300A8C0 state (omega arith) (omega arith)
      (omega arith) refl

-- One packet waits, at the address 4.
abbrev arrived : Rx
arrived = record {
  queue = record { buf = 4 ∷ replicate 63 0; head = 1; tail = 0 };
  memory = λ q. if q == 4 then replicate 12 9 ++ (0x08 ∷ 0x06 ∷ 1 ∷ []) else [];
  event = Event.link_up;
}

arrived-IsValid : IsValid queue_size arrived.queue
arrived-IsValid = record { sized = refl; head_in = omega arith; tail_in = omega arith }

driver_receive-Received_example :
    Received (7 ∷ 8 ∷ []) arrived (some 5) (driver_receive (some 5) (7 ∷ 8 ∷ []) arrived)
unfolding contents window count
driver_receive-Received_example =
    driver_receive-Received (some 5) (7 ∷ 8 ∷ []) arrived arrived-IsValid (λ p e. ground arith)

rx_round-Handled_example : Handled [] arrived (rx_round [] arrived)
rx_round-Handled_example = rx_round-Handled [] arrived arrived-IsValid

abbrev drained : Rx
drained = record {
  queue = record { buf = 4 ∷ replicate 63 0; head = 1; tail = 1 };
  memory = λ q. [];
  event = Event.quiet;
}

net_init-IsValid : Interfaces.IsValid net_init
unfolding net_init
net_init-IsValid = record {
  sized = refl;
  counted = omega arith;
  registered = λ n h. absurd (omega (arith, h));
  free = λ n h. rw (get_or-replicate 4 n blank) refl;
}

driver_register-Registered_example :
    Registered
      (1 ∷ 2 ∷ 3 ∷ 4 ∷ 5 ∷ 6 ∷ [])
      0x9000
      net_init
      (driver_register (some (1 ∷ 2 ∷ 3 ∷ 4 ∷ 5 ∷ 6 ∷ [])) 0x9000 net_init)
driver_register-Registered_example =
    driver_register-Registered (1 ∷ 2 ∷ 3 ∷ 4 ∷ 5 ∷ 6 ∷ []) 0x9000 net_init (omega arith)
      net_init-IsValid
