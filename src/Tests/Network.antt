-- ===== src/Tests/Network.antt =====
-- The address resolution between two hosts.
use sirius_education.Common.{
  ℕ, zero, suc, ◌≡◌, refl, true, false, List, [], ◌∷◌, some, arith, replicate,
}
use sirius_education.Common.Ints.{pos}
use sirius_education.Net.{ArpHeader, Interface}
use sirius_education.Net.Arp.{Pending, insert, init, lookup, request, input}
use sirius_education.Net.Arp.Cache.{IsValid, copies}
use sirius_education.Net.Arp.Learn.{Learned, insert-Learned}
use sirius_education.Net.Arp.Exchange.{Carries, waiting, frames_to, request-resolves}

abbrev here : Interface
here = record { active = true; mac = 1 ∷ 2 ∷ 3 ∷ 4 ∷ 5 ∷ 6 ∷ []; ip = 0x0A00000A }

abbrev there : Interface
there = record { active = true; mac = 7 ∷ 8 ∷ 9 ∷ 10 ∷ 11 ∷ 12 ∷ []; ip = 0x0A00000B }

empty-once :
    (n q : ℕ)
    → copies q (replicate n (record { ip_addr = 0; mac_addr = replicate 6 0; is_valid = false }))
      ≡ 0
unfolding copies
empty-once zero q = refl
empty-once (suc n) q = empty-once n q

init-IsValid : IsValid init
unfolding init
init-IsValid = record {
  sized = refl;
  victim_in = omega arith;
  once = λ q. omega (arith, empty-once 32 q);
}

insert-Learned_example : Learned there.ip there.mac init (insert there.ip there.mac init)
insert-Learned_example = insert-Learned there.ip there.mac init init-IsValid

abbrev queued : List Pending
queued =
    record { dest_ip = 0x0A00000B; packet = 1 ∷ 2 ∷ [] }
    ∷ (record { dest_ip = 0x0A00000C; packet = 3 ∷ [] } ∷ [])

request-resolves_example :
    (h h' : ArpHeader) × (let asked = request (λ f. pos 0) true here there.ip init in
      let replied = input (λ f. pos 0) true [] there 28 h init in
      let resolved = input (λ f. pos 0) true (9 ∷ []) here 28 h' asked.state in
      Carries asked.frames h (255 ∷ 255 ∷ 255 ∷ 255 ∷ 255 ∷ 255 ∷ [])
      × Carries replied.frames h' here.mac
      × IsValid replied.state
      × (lookup here.ip replied.state.cache ≡ some here.mac)
      × IsValid resolved.state
      × (lookup there.ip resolved.state.cache ≡ some there.mac)
      × (resolved.frames ≡ frames_to there.mac (waiting there.ip init.pending))
      × (waiting there.ip resolved.state.pending ≡ []))
request-resolves_example =
    request-resolves (λ f. pos 0) [] (9 ∷ []) here there init init init-IsValid init-IsValid refl
      refl
