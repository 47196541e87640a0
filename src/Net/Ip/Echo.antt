-- ===== src/Net/Ip/Echo.antt =====
-- The answer to an echo request.
use Prim.{tt}
use sirius_education.Common.{
  ℕ, zero, suc, ◌+◌, ◌/◌, ◌%◌, ◌≤◌, ◌<◌, ◌≡◌, refl, true, some, List, [], ◌∷◌, length, drop, get_or,
  ge→ltb, arith,
}
use sirius_education.Common.Ints.{ℤ}
use sirius_education.Net.{Frame, Interface}
use sirius_education.Net.Ip.{ip_calculate_checksum, Ip, Memory, ip_output, echo_reply, icmp_input}
use sirius_education.Net.Ip.Checksum.{AreBytes, checksum-Verified}

drop-AreBytes : (n : ℕ) (xs : List ℕ) → AreBytes xs → AreBytes (drop n xs)
drop-AreBytes zero xs h = h
drop-AreBytes (suc n) [] h = h
drop-AreBytes (suc n) (x ∷ xs) h = drop-AreBytes n xs h.1

length-drop : (n : ℕ) (xs : List ℕ) → n ≤ length xs → n + length (drop n xs) ≡ length xs
length-drop zero xs h = omega arith
length-drop (suc n) [] h = absurd (omega (arith, h))
length-drop (suc n) (x ∷ xs) h = omega (arith, length-drop n xs (omega (arith, h)))

request_answered :
    (driver : Frame → ℤ) (sending : Memory) (i : Interface) (fresh bytes reply : List ℕ)
    (src_ip : ℕ) (st : Ip)
    → 8 ≤ length bytes
    → get_or bytes 0 0 ≡ 8
    → echo_reply bytes ≡ some reply
    → icmp_input driver true sending i fresh bytes src_ip st
      ≡ ip_output driver sending i fresh src_ip 1 reply st
unfolding icmp_input
request_answered driver sending i fresh bytes reply src_ip st long type e =
    rw (ge→ltb (length bytes) 8 long) (rw type (rw (e, icmp_input) refl))

echo_reply-eq :
    (bytes : List ℕ) (sum : ℕ)
    → ip_calculate_checksum (0 ∷ 0 ∷ 0 ∷ 0 ∷ drop 4 bytes) ≡ some sum
    → echo_reply bytes ≡ some (0 ∷ 0 ∷ sum % 256 ∷ sum / 256 ∷ drop 4 bytes)
unfolding echo_reply
echo_reply-eq bytes sum e = rw (e, echo_reply) refl

-- An echo request: the answer has type and code 0, the same identifier, sequence number and data, the same
-- length, and a checksum with which it sums to zero; it goes out to the sender as protocol 1.
pub icmp_input-Replied :
    (driver : Frame → ℤ) (sending : Memory) (i : Interface) (fresh bytes : List ℕ) (src_ip : ℕ)
    (st : Ip)
    → AreBytes bytes
    → 8 ≤ length bytes
    → length bytes ≤ 65535
    → get_or bytes 0 0 ≡ 8
    → (reply : List ℕ) × (get_or reply 0 1 ≡ 0)
      × (get_or reply 1 1 ≡ 0)
      × (drop 4 reply ≡ drop 4 bytes)
      × (length reply ≡ length bytes)
      × (ip_calculate_checksum reply ≡ some 0)
      × (icmp_input driver true sending i fresh bytes src_ip st
          ≡ ip_output driver sending i fresh src_ip 1 reply st)
icmp_input-Replied driver sending i fresh bytes src_ip st good long short type = (
  reply,
  refl,
  refl,
  refl,
  omega (arith, length-drop 4 bytes (omega (arith, long))),
  sums.3,
  request_answered driver sending i fresh bytes reply src_ip st long type
      (echo_reply-eq bytes sums.0 sums.1),
)
  where
    sums :
        (sum : ℕ) × (ip_calculate_checksum (0 ∷ 0 ∷ 0 ∷ 0 ∷ drop 4 bytes) ≡ some sum)
        × (sum < 65536)
        × (ip_calculate_checksum (0 ∷ 0 ∷ sum % 256 ∷ sum / 256 ∷ drop 4 bytes) ≡ some 0)
    sums =
        checksum-Verified (0 ∷ 0 ∷ []) (drop 4 bytes) (omega arith) (drop-AreBytes 4 bytes good) tt
          (omega (arith, length-drop 4 bytes (omega (arith, long)), short))

    reply : List ℕ
    reply = 0 ∷ 0 ∷ sums.0 % 256 ∷ sums.0 / 256 ∷ drop 4 bytes
