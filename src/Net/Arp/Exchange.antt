-- ===== src/Net/Arp/Exchange.antt =====
-- The waiting packets, and the exchange of a request and its reply between two hosts.
use sirius_education.Common.{
  ℕ, ◌≤◌, ◌≡◌, ◌≢◌, refl, sym, ap, ◌∙◌, Bool, true, some, inl, inr, List, [], ◌∷◌, ◌++◌, ◌==◌,
  ge→ltb, ==-refl, ne→==, ==_iff, Bool-cases, arith, if◌then◌else◌,
}
use sirius_education.Common.Ints.{ℤ, negsuc}
use sirius_education.Net.{
  Frame, ArpHeader, EthernetHeader, Interface, ethernet_output, htons, get_interface_mac,
  get_interface_ip,
}
use sirius_education.Net.Arp.{
  Arp, Pending, Effect, lookup, insert, flush, request_frame, mac_into, reply_frame, request, input,
  answer, transmit, well_formed,
}
use sirius_education.Net.Arp.Cache.{IsValid}
use sirius_education.Net.Arp.Learn.{Learned, insert-Learned}

-- The packets that wait for `ip`, the newest first, and those that wait for another address.
unfoldable pub waiting : ℕ → List Pending → List (List ℕ)
waiting ip [] = []
waiting ip (n ∷ ns) = if n.dest_ip == ip then n.packet ∷ waiting ip ns else waiting ip ns

unfoldable pub frames_to : List ℕ → List (List ℕ) → List Frame
frames_to mac [] = []
frames_to mac (p ∷ ps) = ethernet_output p mac ++ frames_to mac ps

-- The arrival of an address sends the packets that wait for it, the newest first, each to the hardware
-- address that has arrived; none of them stays, and those for other addresses stay as they were.
pub flush-waiting :
    (ip : ℕ) (mac : List ℕ) (ns : List Pending)
    → ((flush ip mac ns).0 ≡ frames_to mac (waiting ip ns))
      × (waiting ip (flush ip mac ns).1 ≡ [])
      × ((q : ℕ) → q ≢ ip → waiting q (flush ip mac ns).1 ≡ waiting q ns)
unfolding flush waiting frames_to
flush-waiting ip mac [] = (refl, refl, λ q ne. refl)
flush-waiting ip mac (n ∷ ns) = elim (Bool-cases (n.dest_ip == ip)) [
  | inl hit ↦ rw hit (
    ap (λ (fs : List Frame). ethernet_output n.packet mac ++ fs) (flush-waiting ip mac ns).0,
    (flush-waiting ip mac ns).1,
    λ q ne.
        rw (ne→== n.dest_ip q (λ e. ne (sym e ∙ (==_iff n.dest_ip ip).0 hit)))
          ((flush-waiting ip mac ns).2 q ne),
  )
  | inr miss ↦ rw miss (
    (flush-waiting ip mac ns).0,
    rw miss (flush-waiting ip mac ns).1,
    λ q ne.
        ap (λ (ps : List (List ℕ)). if n.dest_ip == q then n.packet ∷ ps else ps)
          ((flush-waiting ip mac ns).2 q ne),
  )
]

-- A packet of the right types and lengths is learned from and answered.
input-answer :
    (driver : Frame → ℤ) (memory : Bool) (fresh : List ℕ) (i : Interface) (len : ℕ) (h : ArpHeader)
    (a : Arp)
    → 28 ≤ len
    → well_formed h ≡ true
    → input driver memory fresh i len h a
      ≡ answer driver memory fresh i h (insert h.src_ip h.src_mac a)
unfolding input
input-answer driver memory fresh i len h a long good = rw (ge→ltb len 28 long, good, answer) refl

insert-pending : (ip : ℕ) (mac : List ℕ) (a : Arp) → (insert ip mac a).pending ≡ a.pending
unfolding insert
insert-pending ip mac a = ground arith

-- The request of a host and the reply to it.
abbrev asks : List ℕ → ℕ → ℕ → ArpHeader
asks mac ip target = record {
  hw_type = 0x0100;
  proto_type = 0x0008;
  hw_len = 6;
  proto_len = 4;
  opcode = 0x0100;
  src_mac = mac;
  src_ip = ip;
  dest_mac = 0 ∷ 0 ∷ 0 ∷ 0 ∷ 0 ∷ 0 ∷ [];
  dest_ip = target;
}

abbrev tells : List ℕ → ℕ → List ℕ → ℕ → ArpHeader
tells mac ip to_mac to_ip = record {
  hw_type = 0x0100;
  proto_type = 0x0008;
  hw_len = 6;
  proto_len = 4;
  opcode = 0x0200;
  src_mac = mac;
  src_ip = ip;
  dest_mac = to_mac;
  dest_ip = to_ip;
}

abbrev ethernet : List ℕ → List ℕ → EthernetHeader
ethernet to from = record { dest_mac = to; src_mac = from; ethertype = 0x0608 }

abbrev broadcast : List ℕ
broadcast = 255 ∷ 255 ∷ 255 ∷ 255 ∷ 255 ∷ 255 ∷ []

request_frame-asks :
    (x : Interface) (target : ℕ)
    → x.active ≡ true
    → request_frame x target ≡ Frame.arp_frame (ethernet broadcast x.mac) (asks x.mac x.ip target)
unfolding request_frame get_interface_mac get_interface_ip htons
request_frame-asks x target on = rw on refl

answer-tells :
    (driver : Frame → ℤ) (fresh : List ℕ) (y : Interface) (mac : List ℕ) (ip : ℕ) (s : Arp)
    → y.active ≡ true
    → answer driver true fresh y (asks mac ip y.ip) s ≡ record {
      result = driver (Frame.arp_frame (ethernet mac y.mac) (tells y.mac y.ip mac ip));
      frames = Frame.arp_frame (ethernet mac y.mac) (tells y.mac y.ip mac ip) ∷ [];
      state = s;
    }
unfolding answer transmit reply_frame mac_into get_interface_ip htons
answer-tells driver fresh y mac ip s on = rw (on, ==-refl y.ip) refl

answer-flush :
    (driver : Frame → ℤ) (fresh : List ℕ) (x : Interface) (mac : List ℕ) (ip : ℕ) (to_mac : List ℕ)
    (to_ip : ℕ) (s : Arp)
    → answer driver true fresh x (tells mac ip to_mac to_ip) s ≡ record {
      result = negsuc 0;
      frames = (flush ip mac s.pending).0;
      state = record s { pending = (flush ip mac s.pending).1 };
    }
unfolding answer htons
answer-flush driver fresh x mac ip to_mac to_ip s = refl

-- The header that a frame carries.
abbrev pub Carries : List Frame → ArpHeader → List ℕ → Type 0
Carries fs h mac = (e : EthernetHeader) × (fs ≡ Frame.arp_frame e h ∷ []) × (e.dest_mac ≡ mac)

-- Two hosts with active interfaces and memory: the request of `x` for the address of `y` is broadcast;
-- `y` learns the pair of `x` from it and replies to `x` alone; from the reply `x` learns the pair of `y`
-- and sends it every packet that waited for it, so that none waits any more. Both caches stay sound.
pub request-resolves :
    (driver : Frame → ℤ) (fresh fresh' : List ℕ) (x y : Interface) (a b : Arp)
    → IsValid a
    → IsValid b
    → x.active ≡ true
    → y.active ≡ true
    → (h h' : ArpHeader) × (let asked = request driver true x y.ip a in
        let replied = input driver true fresh y 28 h b in
        let resolved = input driver true fresh' x 28 h' asked.state in
        Carries asked.frames h (255 ∷ 255 ∷ 255 ∷ 255 ∷ 255 ∷ 255 ∷ [])
        × Carries replied.frames h' x.mac
        × IsValid replied.state
        × (lookup x.ip replied.state.cache ≡ some x.mac)
        × IsValid resolved.state
        × (lookup y.ip resolved.state.cache ≡ some y.mac)
        × (resolved.frames ≡ frames_to y.mac (waiting y.ip a.pending))
        × (waiting y.ip resolved.state.pending ≡ []))
unfolding request transmit
request-resolves driver fresh fresh' x y a b va vb on_x on_y = (
  asks x.mac x.ip y.ip,
  tells y.mac y.ip x.mac x.ip,
  (
    (ethernet broadcast x.mac, ap (λ (f : Frame). f ∷ []) (request_frame-asks x y.ip on_x), refl),
    (ethernet x.mac y.mac, ap (λ (r : Effect). r.frames) replied, refl),
    rw replied learned_y.0,
    rw replied learned_y.1,
    rw resolved (record {
      sized = learned_x.0.sized;
      victim_in = learned_x.0.victim_in;
      once = learned_x.0.once;
    }),
    rw resolved learned_x.1,
    ap (λ (r : Effect). r.frames) resolved
        ∙ (flush-waiting y.ip y.mac (insert y.ip y.mac a).pending).0
        ∙ ap (λ (ns : List Pending). frames_to y.mac (waiting y.ip ns))
            (insert-pending y.ip y.mac a),
    rw resolved (flush-waiting y.ip y.mac (insert y.ip y.mac a).pending).1,
  ),
)
  where
    learned_y : Learned x.ip x.mac b (insert x.ip x.mac b)
    learned_y = insert-Learned x.ip x.mac b vb

    learned_x : Learned y.ip y.mac a (insert y.ip y.mac a)
    learned_x = insert-Learned y.ip y.mac a va

    good :
        (well_formed (asks x.mac x.ip y.ip) ≡ true)
        × (well_formed (tells y.mac y.ip x.mac x.ip) ≡ true)
    good = unfold well_formed htons in (refl, refl)

    replied : input driver true fresh y 28 (asks x.mac x.ip y.ip) b ≡ record {
      result = driver (Frame.arp_frame (ethernet x.mac y.mac) (tells y.mac y.ip x.mac x.ip));
      frames = Frame.arp_frame (ethernet x.mac y.mac) (tells y.mac y.ip x.mac x.ip) ∷ [];
      state = insert x.ip x.mac b;
    }
    replied =
        input-answer driver true fresh y 28 (asks x.mac x.ip y.ip) b (omega arith) good.0
        ∙ answer-tells driver fresh y x.mac x.ip (insert x.ip x.mac b) on_y

    resolved : input driver true fresh' x 28 (tells y.mac y.ip x.mac x.ip) a ≡ record {
      result = negsuc 0;
      frames = (flush y.ip y.mac (insert y.ip y.mac a).pending).0;
      state = record (insert y.ip y.mac a) {
        pending = (flush y.ip y.mac (insert y.ip y.mac a).pending).1;
      };
    }
    resolved =
        input-answer driver true fresh' x 28 (tells y.mac y.ip x.mac x.ip) a (omega arith) good.1
        ∙ answer-flush driver fresh' x y.mac y.ip x.mac x.ip (insert y.ip y.mac a)
